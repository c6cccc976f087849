-- ===== src/Lib.antt =====
-- theMQL: a verification library.
--
-- theMQL addresses the resources of a vehicle platform by subjects such as `vehicle.engine.rpm`. A
-- query for a subject goes to an executor, which checks the context, looks in a cache of four
-- tiers and calls a resolver; entries end in an embedded database; messages travel over MQTT,
-- where access lists restrict the topics. The library models the crates that carry this logic.
--
-- Core: crates/themql-core/src/lib.rs. Subject, Pattern and FieldPath hold the three grammars
--   (`from_str` is `parse_subject`, `parse_pattern`, `parse_field_path`; `as_str` is
--   `subject_text`, `pattern_text`, `field_path_text`; `SubjectPattern::matches` is `matches`);
--   Identity, Time, Error, ErrorCode, Context, Query and Message hold the types and their
--   builders. Subject/Grammar, Subject/Charset, Subject/Faults, Subject/Printed, Pattern/Grammar,
--   Pattern/Matching and Message/Extensions are about them.
-- QueryEngine: crates/themql-query/src/lib.rs. Key is `DefaultCacheKeyer` and `CacheKey`;
--   Executor is `DefaultQueryExecutor::execute`, whose resolver and cache are functions that
--   change a state and may fail. Executor/Runs, Executor/Runs/Exact, Executor/Caching and
--   Key/Material are about them.
-- Storage: crates/themql-storage/src/lib.rs. The trait `Storage` is a record of operations over
--   the state of a backend, and Sled is the implementation `SledStorage`. Sled/Laws and Sled/Scan
--   are about it.
-- Cache: crates/themql-cache/src/lib.rs. Tiers is `L1Cache`, `L2Cache` and `L3Cache`; Tiered is
--   `TieredCache` with its read path (`get_inner`, `promote`), Writes its `put_inner`,
--   `invalidate_inner` and `invalidate_pattern`. The storage record is its fourth tier. Reading,
--   Invalidation and Unindexed are about them, and Hidden about the fourth tier and the queries of
--   the storage.
-- Mqtt: crates/themql-mqtt/src/lib.rs. Acl is `MqttAcl` and `AclRule`, and AclLaws is about it;
--   Transport is `RumqttcTransport` with its two maps, association lists here, and
--   Transport/Access, Transport/Indexes and Transport/Retry are about it. Filter is
--   `matches_filter` and the search for a subscription, Dispatch the way of an incoming message;
--   Exact is about filters that are topics.
-- Sse: crates/themql-sse/src/lib.rs. Wire is `SseEvent::to_wire_string`, and Wire/Client the reader
--   that a client is by the event stream format of the HTML standard, which is no code of the crate;
--   Log is the replay log of `SubjectState`, Publisher is `TokioSsePublisher` with a map from
--   subjects to states, and Handler is `events_handler` with `EventBody`. Wire/Lines, Wire/Fields,
--   Wire/RoundTrip, Log/Window, Publisher/Delivery and Handler/Replay are about them.
-- Schema: crates/themql-schema/src/lib.rs, the types of a trained model.
-- Artifact: crates/themql-artifact/src/lib.rs. Validator is `HashValidator`, and Transfer the loader
--   (`load`, `activate`) and the writer (`write`, `write_to_file`) of artifacts.
--   Validator/Soundness, Validator/Stages, Transfer/Loading and Transfer/RoundTrip are about them.
-- Embedded: crates/themql-embedded/src. Payload is mqtt.rs, the payloads that are formatted by hand
--   into a buffer; Sensors holds the types of main.rs and Tasks its tasks, a round of whose loops is
--   a step of the firmware (Tasks/Rounds; Tasks/Channels and Tasks/Safety are about them); Gps is
--   sensors/neo6m.rs, Bme280 and Lsm6ds3 are the files of those names there, over the I2C bus of Bus;
--   Bme280/Readings, Bme280/Startup,
--   Payload/Bounds, Payload/Formats, Payload/Digits, Payload/Gap, Gps/Checksum, Gps/Framing and
--   Gps/Resync are about them.
-- Graphql: crates/themql-graphql/src/lib.rs, the roles, their guards, the bridges and the fields of
--   the roots; Access is about dispatches.
-- Runtime: crates/themql-runtime/src/lib.rs, the errors and the cancellation token, as the steps of
--   threads in any order; Wakeup is about them.
-- Desktop: crates/themql-desktop/src/main.rs, the role of a request and the queue of jobs; Session is
--   about the requests that reach a handler through the gateway.
-- Gnc: crates/themql-gnc/src/lib.rs, the health check, with Pid, Lqri and Hybrid for the three
--   controllers; Health, Windup and Refusal are about them.
-- Estimation: crates/themql-estimation/src/lib.rs, the state and the health checks, with Ekf for the
--   filter; Failures is about its operations.
-- Analysis: crates/themql-analysis/src/lib.rs; Rows is about the frames that are built from rows.
-- Training: crates/themql-training/src/lib.rs, with Frames for the rows of a frame and Dense for
--   train_dense; Batches is about its loops.
-- Inference: crates/themql-inference/src/lib.rs, with the engine that loads a model and rolls back;
--   Engine is about it.
-- MessageFormat, Transport, Telemetry: crates/themql-message, themql-transport and themql-telemetry,
--   each its src/lib.rs: types, errors and the JSON serializer.
-- Base: the helpers that all parts share: texts as lists of code points, splitting and joining,
--   result types, and the monad `M` of a computation that changes a state and may fail, which is
--   what an `async fn` with `?` is here. A module Tests in each part holds runs on concrete data.
--
-- Text is a list of code points. A duration is its number of nanoseconds. The counter of MQTT
-- subscriptions wraps at 64 bits, and so do the element counts of an artifact and the counts of nulls;
-- the words of the I2C drivers wrap, all as in a release build. No other modelled operation does
-- arithmetic that could overflow.
-- Every loop is structural recursion on a list or on the rounds that are left, but the batches of an
-- epoch in Training/Dense: their fuel is the number of rows and one more, and Training/Batches shows
-- that it is enough. The loops over a channel of the firmware have its capacity for fuel,
-- and Tasks/Channels shows that it is enough. A lock is taken and released within one operation and
-- is never poisoned. One operation runs after another, but for the statements of Runtime and the
-- rounds of Embedded/Tasks, which run in any order.
--
-- Parameters of the model, since their code is not part of the repository: `blake3`, `serde_json`,
-- `uuid`, `lru`, `moka`, `redis`, `sled`, `bincode`, `rumqttc`, `tokio`, `axum`, `better_auth`,
-- `nalgebra`, `polars`, `tch`, `embedded_hal_async` and `embassy_sync`, and so are the operations on
-- floating-point numbers and the reads of a UART. What a theorem needs of them is a record of laws
-- named in its statement: `LruLaws`, `ReadsBack`, `SledLaws`, `BincodeLaws`, `OrderLaws`, `Fifo`,
-- `Wakes`.
--
-- Not modelled: derived serialisation, opening databases and connections, the event loop of MQTT, the
-- schema and the routes of the servers, the forward pass of inference, the timers and the handles of
-- the runtime, the commands of the desktop binary, and the executor of the firmware.
pub mod Base
pub mod Core
pub mod QueryEngine
pub mod Storage
pub mod Cache
pub mod Mqtt
pub mod Sse
pub mod Schema
pub mod Artifact
pub mod Embedded
pub mod Graphql
pub mod Inference
pub mod MessageFormat
pub mod Transport
pub mod Telemetry
pub mod Desktop
pub mod Gnc
pub mod Analysis
pub mod Training
pub mod Estimation
pub mod Runtime
