-- ===== src/Telemetry.antt =====
-- crates/themql-telemetry/src/lib.rs: the readings of sensors and estimators, and the errors. A
-- floating-point number of either size is a type `F` of the parameters, `J` is `serde_json::Value`, and
-- an array is a list of its elements.
use the_mql.Base.{ℕ, Bool, Option, List, ◌++◌}
use the_mql.Base.Decimal.{decimal}
use the_mql.Base.Text.{Text, codes}
use the_mql.Core.Error.{Error, validation_error, internal_error}
use the_mql.Core.Subject.{Subject}
use the_mql.Core.Time.{Timestamp}

pub data SensorKind : Type 0 where
  gps barometer imu : SensorKind

pub data GpsFix : Type 0 where
  no_fix two_d three_d dgps rtk_fixed rtk_float : GpsFix

pub data ControllerKind : Type 0 where
  pid lqri hybrid : ControllerKind

pub data DiagnosticLevel : Type 0 where
  info warn error critical : DiagnosticLevel

pub record ResourceBudgetSummary : Type 0 where
  pub cpu_budget_pct : ℕ
  pub memory_budget_bytes : ℕ
  pub inference_deadline_ms : ℕ

pub record ModelStateReading : Type 0 where
  pub model_id : Text
  pub model_version : Text
  pub active : Bool
  pub resource_budget : ResourceBudgetSummary
  pub last_inference_latency_ns : ℕ
  pub rollback_engaged : Bool

pub record DiagnosticsReading (J : Type 0) : Type 0 where
  pub level : DiagnosticLevel
  pub code : Text
  pub message : Text
  pub source : Subject
  pub details : Option J

module _ (F : Type 0) where
  pub record GpsReading : Type 0 where
    pub fix : GpsFix
    pub latitude_deg : F
    pub longitude_deg : F
    pub altitude_m : F
    pub velocity_north_mps : F
    pub velocity_east_mps : F
    pub velocity_down_mps : F
    pub hdop : F
    pub vdop : F
    pub satellites_used : ℕ

  pub record BarometerReading : Type 0 where
    pub pressure_pa : F
    pub temperature_c : F
    pub humidity_pct : F
    pub altitude_m : F

  pub record ImuReading : Type 0 where
    pub accel_x_mps2 : F
    pub accel_y_mps2 : F
    pub accel_z_mps2 : F
    pub gyro_x_radps : F
    pub gyro_y_radps : F
    pub gyro_z_radps : F
    pub temperature_c : F

  pub record StateEstimateReading : Type 0 where
    pub position : List F
    pub velocity : List F
    pub attitude_quaternion : List F
    pub angular_velocity : List F
    pub accelerometer_bias : List F
    pub gyroscope_bias : List F
    pub baro_altitude_bias : F
    pub gps_clock_bias : F

  pub record CovarianceReading : Type 0 where
    pub dimension : ℕ
    pub values : List F

  pub record PidState : Type 0 where
    pub setpoint : List F
    pub measured : List F
    pub error : List F
    pub integral : List F
    pub derivative : List F
    pub output : List F

  pub record LqriState : Type 0 where
    pub state : List F
    pub control : List F

  pub record ControllerStateReading : Type 0 where
    pub active_controller : ControllerKind
    pub pid_state : Option PidState
    pub lqri_state : Option LqriState
    pub actuator_commands : List F

  pub data SensorReading (J : Type 0) : Type 0 where
    gps_reading : GpsReading → SensorReading J
    barometer_reading : BarometerReading → SensorReading J
    imu_reading : ImuReading → SensorReading J
    state_estimate : StateEstimateReading → SensorReading J
    covariance : CovarianceReading → SensorReading J
    controller_state : ControllerStateReading → SensorReading J
    model_state : ModelStateReading → SensorReading J
    diagnostics : DiagnosticsReading J → SensorReading J

  pub record TelemetryMessage (J : Type 0) : Type 0 where
    pub schema_version : ℕ
    pub sequence_number : ℕ
    pub timestamp : Timestamp
    pub source : Subject
    pub reading : SensorReading J

pub data TelemetryError : Type 0 where
  schema_version_unsupported : ℕ → ℕ → TelemetryError
  sequence_overflow : TelemetryError
  serialization_error unknown_sensor_kind : Text → TelemetryError

-- The `#[error("…")]` texts.
unfoldable pub telemetry_error_text : TelemetryError → Text
unfolding decimal
telemetry_error_text (schema_version_unsupported got supported) =
    codes "unsupported telemetry schema version: got "
    ++ decimal got
    ++ codes ", supported "
    ++ decimal supported
telemetry_error_text sequence_overflow = codes "telemetry sequence number overflowed"
telemetry_error_text (serialization_error e) = codes "telemetry serialisation error: " ++ e
telemetry_error_text (unknown_sensor_kind kind) = codes "unknown sensor kind: " ++ kind

-- `From<TelemetryError> for Error`
unfoldable pub error_of_telemetry_error : {J U : Type 0} → TelemetryError → Error J U
unfolding validation_error internal_error telemetry_error_text
error_of_telemetry_error (schema_version_unsupported got supported) =
    validation_error (telemetry_error_text (schema_version_unsupported got supported))
error_of_telemetry_error (unknown_sensor_kind kind) =
    validation_error (telemetry_error_text (unknown_sensor_kind kind))
error_of_telemetry_error sequence_overflow = internal_error (telemetry_error_text sequence_overflow)
error_of_telemetry_error (serialization_error e) =
    internal_error (telemetry_error_text (serialization_error e))
