-- ===== src/Examples.antt =====
-- The theorems at concrete inputs.
mod Numbers
mod Rules
mod Episodes
mod Deliveries
mod Recovery
mod States
mod Workers
mod Measures
mod Lineages
