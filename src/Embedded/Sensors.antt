-- ===== src/Embedded/Sensors.antt =====
-- crates/themql-embedded/src/main.rs: the types of the sensor drivers, and their rates. The crate's
-- telemetry task is in Payload, the GPS receiver in Gps.
use the_mql.Base.{ℕ, zero, suc, ◌-◌, min, List, [], ◌∷◌, ◌++◌, length, Result, ok}
use the_mql.Base.Slices.{take}
use the_mql.Base.Text.{Text, codes, as_bytes}

pub data SensorKind : Type 0 where
  gps barometer imu : SensorKind

-- `raw` has 32 bytes, of which the first `len` are valid.
pub record SensorReading : Type 0 where
  pub kind : SensorKind
  pub raw : List ℕ
  pub len : ℕ

abbrev pub zero_bytes : ℕ → List ℕ
zero_bytes zero = []
zero_bytes (suc n) = 0 ∷ zero_bytes n

-- `buf` has 64 bytes, of which the first `len` are valid.
pub record HeapString : Type 0 where
  pub buf : List ℕ
  pub len : ℕ

-- `HeapString::new`
unfoldable pub heap_string : Text → HeapString
unfolding as_bytes
heap_string s =
    let truncated_len = min (length (as_bytes s)) 64 in
    record {
      buf = take truncated_len (as_bytes s) ++ zero_bytes (64 - truncated_len);
      len = truncated_len;
    }

pub data SensorError : Type 0 where
  bus_error invalid_reading : HeapString → SensorError
  timed_out sensor_not_responding calibration_required : SensorError

-- The `Display` of `SensorError`, by the bytes of the text; `as_str` of a descriptor is a parameter.
unfoldable pub sensor_error_text : (HeapString → Text) → SensorError → Text
sensor_error_text as_str (bus_error s) = codes "bus error: " ++ as_str s
sensor_error_text as_str timed_out = codes "sensor read timeout"
sensor_error_text as_str sensor_not_responding = codes "sensor not responding"
sensor_error_text as_str (invalid_reading s) = codes "invalid reading: " ++ as_str s
sensor_error_text as_str calibration_required = codes "calibration required"

-- The stub drivers, by their kinds; each has the rate that it was made with.
unfoldable pub stub_read : SensorKind → Result SensorError SensorReading
stub_read kind = ok (record { kind = kind; raw = zero_bytes 32; len = 0 })

pub record TaggedReading : Type 0 where
  pub kind : SensorKind
  pub reading : SensorReading

abbrev pub telemetry_subjects : List Text
telemetry_subjects =
    codes "vehicle.state_estimate"
    ∷ codes "vehicle.covariance"
    ∷ codes "vehicle.controller_state"
    ∷ codes "vehicle.diagnostics"
    ∷ []
