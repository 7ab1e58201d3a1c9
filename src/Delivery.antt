-- ===== src/Delivery.antt =====
-- graph/delivery_config.rs: delivery routes.
pub mod RouteId
pub mod Record
