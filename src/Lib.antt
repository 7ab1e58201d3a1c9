-- ===== src/Lib.antt =====
-- Verification of ffhn-core, the library of FFHN (crates/ffhn-core): it watches typed values on
-- pages and in JSON, decides conditions on them, keeps health episodes of sources and
-- measurements, queues events for delivery, and commits each generation of a source atomically.
--
-- The parts, and how they interact. A measurement yields a typed observation. The policy compares
-- it with references and thresholds, by exact arithmetic on fixed-width numbers, and returns one
-- evaluation for each condition. A source or a measurement that fails keeps an episode, which can
-- escalate. Events become delivery records, which are retried and end as dead letters. The state
-- of a source and its identity change in commits: a manifest lists file operations, which are
-- replayed until they are all done. A measurement keeps the state of each condition, which
-- follows its definition and its observations. A reset replaces the lineage of a source or a
-- measurement by a transition that a crash does not break. The agent runs the turns of the
-- sources on a bounded number of threads.
--
-- Files:
-- - Base: tests, lists, integers, machine integers, and `CoreError` with the `Result` of the
--   operator `?` (crates/ffhn-core/src/error.rs).
-- - Exact/Unsigned, Exact/Decimal: model/policy/exact_numeric.rs. A number of `LIMBS` words is
--   the list of its 64-bit words, lowest first; `overflowing_add` and the like are written out
--   with `% word`. The loop of `checked_mul_u128` runs on its own bound of 128 rounds, one for
--   each bit of the multiplier.
-- - Policy/Types, Policy/Value, Policy/Contract, Policy/Evaluate: model/measurement.rs,
--   model/policy/condition.rs, model/policy/value.rs, model/policy/evaluate/types.rs and
--   predicates.rs. An `i128` is an integer with the range tests written out.
-- - Stamps: model/validate.rs.
-- - Health: graph/health.rs and graph/acquire/failure.rs. `observe` takes the episode and returns
--   the next one; on an error the mutated value is not kept.
-- - Delivery/Record, Outbox, Retry: graph/outbox.rs, graph/event/key.rs (the kinds),
--   graph/delivery_config.rs (the policy) and graph/retry.rs (the capped delay). `record_failure`
--   assigns before its last validation, so it returns the record that is left and its result.
-- - Identity, Delivery/RouteId: graph/identity.rs and the route identifiers of
--   graph/delivery_config.rs. A newly minted UUID is an argument.
-- - Commit/Path, Commit/Operation, Commit/Manifest: graph/manifest.rs,
--   graph/manifest/operation_validation.rs and path_validation.rs. A `ManifestPath` is its text.
-- - Commit/Store, Commit/Replay, Commit/Recovery: graph/commit.rs. The storage directory is a
--   function from path components to entries (a directory, a regular file with its bytes, or
--   another object); the operations of the file system on it that cannot fail here are total, and
--   a missing parent is the error of its `symlink_metadata`. The identity and the manifest are
--   decoded documents beside it, and the synchronisation of directories has no effect.
--   Commit/Crash: interrupted commits; a rename and a removal are single steps.
-- - State: graph/state.rs, with the validators of graph/acquire.rs and the overflow facts of
--   graph/outbox.rs. An operation on `&mut self` that assigns before it can fail returns the
--   state and its result; Health/Fault has the integration faults of graph/health.rs.
-- - Policy/Validation: model/policy/condition.rs, the identifiers and the validation of
--   conditions; an `expect` is a possible panic among the errors. Policy/Validation/Typing: the
--   values of a declared type.
-- - Measurement: graph/measurement_state.rs and measurement_state/access.rs. An operation that
--   assigns before it can fail returns the state and its result; of the measurement document the
--   state uses the declared type, the parameters and the conditions.
-- - Lineage: graph/lineage_manifest.rs, graph/transition.rs and what it uses of graph/storage.rs.
--   A transition is a program over the directory of a source, which lists the directories that
--   stood on the disk after each durable effect; an atomic write is one effect, and removals of
--   directories are too.
-- - Agent/Bounded: graph/agent/bounded.rs. Threads are steps of workers in any interleaving; the
--   results are kept with the newest first, and the sort by index is written as an insertion.
--   Agent/Bounded/Threads adds the ends of the workers, the senders of the channel and the
--   calling thread; the receiver takes all messages in one step, since every worker is joined
--   before. The operation returns: a panic of it is not modelled.
-- - Examples: concrete inputs.
-- (The paths from model/ and graph/ start at crates/ffhn-core/src.)
--
-- Parameters: `ValueLib` (rust_decimal, semver, time, the integer parser, and the parser and
-- validation of observations), `TimeLib` (the crate time), `OutboxLib` (event envelopes,
-- adapters, trimming and the ratio parser), `UuidLib` (the crate uuid), `UrlLib` (the crate url),
-- the digest `sha256_hex`, the JSON serializer, the decoder of a stored source state and the
-- digest of a condition definition (`DefinitionDigest`). `DecimalRange` is the documented range
-- of rust_decimal.
--
-- Bounds: the code has no unbounded loop here; every loop is a structural recursion over a list
-- or over the code's own bound. `usize` has 64 bits, so `usize::try_from` of a `u32` is the
-- number itself.
--
-- Not modelled: parsing and validation of observations, event identity, the gate of lineages, the
-- reset commands, drains and the schedule of the agent, a task that panics, locks, acquisition,
-- reports and the command line. Formatted error messages are kept as their template and their
-- text.
pub mod Base
pub mod Exact
pub mod Policy
pub mod Stamps
pub mod Health
pub mod Outbox
pub mod Retry
pub mod Identity
pub mod Delivery
pub mod Commit
pub mod State
pub mod Measurement
pub mod Lineage
pub mod Agent
pub mod Examples
