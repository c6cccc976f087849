-- ===== src/Embedded.antt =====
-- crates/themql-embedded/src: the firmware's errors and rates, and the payloads that it publishes.
pub mod Payload
pub mod Sensors
pub mod Gps
pub mod Bus
pub mod Bme280
pub mod Lsm6ds3
pub mod Tasks
mod DriverTests
mod Tests
