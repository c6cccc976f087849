-- ===== src/Embedded/Bus.antt =====
-- crates/themql-embedded/src/sensors: the I2C bus of the two drivers, which is `embedded_hal_async`.
use the_mql.Base.{ℕ, List, Result, ok, err}
use the_mql.Base.Text.{Text}
use the_mql.Embedded.Sensors.{SensorError, bus_error, heap_string}

-- `write_read` fills its buffer: what it reads is a byte for each index. `write` sends the bytes.
pub record I2c (B : Type 0) : Type 0 where
  pub write_read : ℕ → List ℕ → B → Result (Unit {0}) (ℕ → ℕ) × B
  pub write : ℕ → List ℕ → B → Result (Unit {0}) (Unit {0}) × B

-- `.map_err(|_| SensorError::BusError(heap_string(…)))`
abbrev pub bus_fault : {A : Type 0} → Text → Result (Unit {0}) A → Result SensorError A
bus_fault s (ok a) = ok a
bus_fault s (err _) = err (bus_error (heap_string s))
