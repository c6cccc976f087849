-- ===== src/Embedded/Tasks.antt =====
-- crates/themql-embedded/src/main.rs: the tasks of the firmware. The executor runs one task at a time
-- up to its next `await`, so that a round of a task's loop is a step of the whole firmware. The
-- channels of `embassy_sync` are a parameter.
use the_mql.Base.{
  ℕ, zero, suc, ◌+◌, ◌%◌, ◌^◌, Option, none, some, List, [], ◌∷◌, ◌++◌, ◌==◌, if◌then◌else◌, Result,
  ok, err,
}
use the_mql.Base.Floats.{Floats}
use the_mql.Embedded.Payload
use the_mql.Embedded.Sensors.{
  SensorKind, gps, barometer, imu, SensorReading, SensorError, TaggedReading, stub_read, zero_bytes,
}
use the_mql.Estimation
use the_mql.Estimation.{
  Linear, EstimatorState, ImuReading, GpsReading, BarometerReading, quaternion_of, vector3,
  attitude,
}
use the_mql.Estimation.Ekf.{Ekf, update_gps, update_baro, predict}
use the_mql.Gnc
use the_mql.Gnc.{GncState, GncError, ActuatorCommand, Vector3, new_setpoint}
use the_mql.Gnc.Controllers.{Nalgebra, PidGains, LqriMatrices, HybridController, always_pid}
use the_mql.Gnc.Hybrid
use the_mql.Gnc.Lqri
use the_mql.Gnc.Pid
pub mod Channels
pub mod Rounds
pub mod Safety
mod Tests

-- A bounded channel, the outcome of whose `try_send` the firmware drops. `contents` are the values
-- that it holds, oldest first; no task reads them.
pub record Channel (A C : Type 0) : Type 0 where
  pub empty : C
  pub try_send : A → C → C
  pub try_receive : C → Option (A × C)
  pub contents : C → List A

abbrev pub sensor_channel_capacity : ℕ
sensor_channel_capacity = 8

abbrev pub estimator_channel_capacity : ℕ
estimator_channel_capacity = 4

abbrev pub received : {A C R : Type 0} → Option (A × C) → R → (A → C → R) → R
received none stop more = stop
received (some (a, c)) stop more = more a c

-- `while let Ok(a) = channel.try_receive() { … }`, by the rounds that are left.
unfoldable pub drain : {A C S : Type 0} → Channel A C → (A → S → S) → ℕ → C → S → S × C
drain channel body zero c s = (s, c)
drain channel body (suc left) c s =
    received (channel.try_receive c) (s, c) (λ a d. drain channel body left d (body a s))

-- The global channels, and what each task keeps between the rounds of its loop.
pub record Firmware (F Matrix C D : Type 0) : Type 0 where
  pub gps_chan : C
  pub baro_chan : C
  pub imu_chan : C
  pub est_chan : D
  pub ekf : Ekf F Matrix
  pub controller : HybridController F Matrix
  pub publish_count : ℕ
  pub error_count : ℕ
  pub payload_buf : List ℕ
  pub infer_count : ℕ

pub data Task : Type 0 where
  gps_task baro_task imu_task estimator_task controller_task : Task
  telemetry_task inference_task command_task : Task

-- `u32::wrapping_add(1)`
abbrev pub wrapping_next : ℕ → ℕ
wrapping_next n = (n + 1) % 2 ^ 32

-- `if len == 0 { error_count = error_count.wrapping_add(1); }`
abbrev pub count_empty : ℕ → ℕ → ℕ
count_empty len errors = if len == 0 then wrapping_next errors else errors

-- `if let Ok(reading) = driver.read().await { let _ = channel.try_send(…); }`
abbrev pub push_reading :
    {C : Type 0} → Channel TaggedReading C → SensorKind → Result SensorError SensorReading → C → C
push_reading channel kind (ok reading) c =
    channel.try_send (record { kind = kind; reading = reading }) c
push_reading channel kind (err _) c = c

module _ {F Matrix : Type 0} (floats : Floats F) (linear : Linear F Matrix) where
  open floats use {lit, div}

  abbrev pub all_zero : Estimation.Vector F
  all_zero i = lit 0 1

  -- `decode_gps`, `decode_baro`, `decode_imu`
  unfoldable pub decode_gps : SensorReading → GpsReading F
  decode_gps reading = record { position = all_zero; velocity = all_zero; clock_bias = lit 0 1 }

  unfoldable pub decode_baro : SensorReading → BarometerReading F
  decode_baro reading = record { altitude = lit 0 1; altitude_bias = lit 0 1 }

  unfoldable pub decode_imu : SensorReading → ImuReading F
  decode_imu reading = record { accel = all_zero; gyro = all_zero }

  abbrev pub dt : F
  dt = div (lit 1 1) (lit 200 1)

  -- `estimator_to_gnc_state`
  unfoldable pub estimator_to_gnc_state : EstimatorState F Matrix → GncState F
  unfolding attitude
  estimator_to_gnc_state est =
      let x = est.x in
      let q = attitude floats linear est in
      record {
        position = record { x = x 0; y = x 1; z = x 2 };
        velocity = record { x = x 3; y = x 4; z = x 5 };
        attitude = record { w = q 0; i = q 1; j = q 2; k = q 3 };
        angular_velocity = record { x = x 10; y = x 11; z = x 12 };
        accelerometer_bias = record { x = x 13; y = x 14; z = x 15 };
        gyroscope_bias = record { x = x 16; y = x 17; z = x 18 };
        baro_altitude_bias = x 19;
        gps_clock_bias = x 20;
      }

  -- The bodies of the three loops of the estimator: the outcome is dropped, the filter is not.
  unfoldable pub on_gps : TaggedReading → Ekf F Matrix → Ekf F Matrix
  unfolding decode_gps update_gps
  on_gps tagged ekf = (update_gps floats linear (decode_gps tagged.reading) ekf).1

  unfoldable pub on_baro : TaggedReading → Ekf F Matrix → Ekf F Matrix
  unfolding decode_baro update_baro
  on_baro tagged ekf = (update_baro floats linear (decode_baro tagged.reading) ekf).1

  unfoldable pub on_imu : TaggedReading → Ekf F Matrix → Ekf F Matrix
  unfolding decode_imu predict
  on_imu tagged ekf = (predict floats linear dt (decode_imu tagged.reading) ekf).1

  module _ (algebra : Nalgebra F Matrix) where
    abbrev pub uniform : F → Vector3 F
    uniform v = record { x = v; y = v; z = v }

    -- The controller that `controller_task` makes.
    unfoldable pub boot_controller : HybridController F Matrix
    unfolding Pid.new Lqri.new
    boot_controller = record {
      policy = always_pid;
      pid_controller =
          Pid.new floats algebra
            (record { kp = uniform (lit 1 1); ki = uniform (lit 1 10); kd = uniform (lit 1 100) });
      lqri_controller = Lqri.new floats algebra (record {
        feedback = linear.blank 8 21;
        integral_action = linear.blank 8 3;
        state_cost = linear.identity 21;
        control_cost = linear.identity 8;
      });
    }

    -- The body of the controller's loop, which drops the command; here the commands are collected.
    unfoldable pub on_estimate :
        HybridController F Matrix
        → EstimatorState F Matrix
        → List (Result (GncError F) (ActuatorCommand F))
        → List (Result (GncError F) (ActuatorCommand F))
    unfolding estimator_to_gnc_state Hybrid.step new_setpoint
    on_estimate controller state commands =
        commands
        ++ Hybrid.step floats algebra controller (estimator_to_gnc_state state)
            (new_setpoint floats) dt
          ∷ []
