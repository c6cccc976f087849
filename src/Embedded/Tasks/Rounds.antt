-- ===== src/Embedded/Tasks/Rounds.antt =====
-- crates/themql-embedded/src/main.rs: a round of the loop of each task, up to its `Timer::after`, and
-- runs of the firmware, which are rounds in any order. A panic is `none`.
use the_mql.Base.{ℕ, Option, none, some, List, [], ◌∷◌, Result}
use the_mql.Base.Floats.{Floats}
use the_mql.Embedded.Payload
use the_mql.Embedded.Payload.{Written, format_state_estimate, format_diagnostics}
use the_mql.Embedded.Sensors.{gps, barometer, imu, TaggedReading, stub_read, zero_bytes}
use the_mql.Embedded.Tasks.{
  Channel, sensor_channel_capacity, estimator_channel_capacity, drain, Firmware, Task, gps_task,
  baro_task, imu_task, estimator_task, controller_task, telemetry_task, inference_task,
  command_task, wrapping_next, count_empty, push_reading, on_gps, on_baro, on_imu, boot_controller,
  on_estimate,
}
use the_mql.Estimation.{Linear, EstimatorState}
use the_mql.Estimation.Ekf
use the_mql.Gnc.{GncError, ActuatorCommand}
use the_mql.Gnc.Controllers.{Nalgebra}

-- `PAYLOAD_BUF_SIZE`
abbrev pub payload_buf_size : ℕ
payload_buf_size = 256

abbrev pub and_then : {A B : Type 0} → (A → Option B) → Option A → Option B
and_then f none = none
and_then f (some a) = f a

module _ {F Matrix C D : Type 0} (floats : Floats F) (payload : Payload.Floats F)
    (linear : Linear F Matrix) (algebra : Nalgebra F Matrix) (sensors : Channel TaggedReading C)
    (estimates : Channel (EstimatorState F Matrix) D) where
  open floats use {lit}

  unfoldable pub boot : Firmware F Matrix C D
  unfolding Ekf.new boot_controller
  boot = record {
    gps_chan = sensors.empty;
    baro_chan = sensors.empty;
    imu_chan = sensors.empty;
    est_chan = estimates.empty;
    ekf = Ekf.new floats linear;
    controller = boot_controller floats linear algebra;
    publish_count = 0;
    error_count = 0;
    payload_buf = zero_bytes payload_buf_size;
    infer_count = 0;
  }

  unfoldable pub gps_round : Firmware F Matrix C D → Firmware F Matrix C D
  unfolding stub_read
  gps_round fw = record fw { gps_chan = push_reading sensors gps (stub_read gps) fw.gps_chan }

  unfoldable pub baro_round : Firmware F Matrix C D → Firmware F Matrix C D
  unfolding stub_read
  baro_round fw = record fw {
    baro_chan = push_reading sensors barometer (stub_read barometer) fw.baro_chan;
  }

  unfoldable pub imu_round : Firmware F Matrix C D → Firmware F Matrix C D
  unfolding stub_read
  imu_round fw = record fw { imu_chan = push_reading sensors imu (stub_read imu) fw.imu_chan }

  unfoldable pub estimator_round : Firmware F Matrix C D → Firmware F Matrix C D
  unfolding drain on_gps on_baro on_imu
  estimator_round fw =
      let located =
        drain sensors (on_gps floats linear) sensor_channel_capacity fw.gps_chan fw.ekf in
      let levelled =
        drain sensors (on_baro floats linear) sensor_channel_capacity fw.baro_chan located.0 in
      let moved =
        drain sensors (on_imu floats linear) sensor_channel_capacity fw.imu_chan levelled.0 in
      record fw {
        gps_chan = located.1;
        baro_chan = levelled.1;
        imu_chan = moved.1;
        ekf = moved.0;
        est_chan = estimates.try_send moved.0.state fw.est_chan;
      }

  -- The commands that a round of the controller makes, and the channel after it.
  unfoldable pub controller_commands :
      Firmware F Matrix C D → List (Result (GncError F) (ActuatorCommand F)) × D
  unfolding drain on_estimate
  controller_commands fw =
      drain estimates (on_estimate floats linear algebra fw.controller) estimator_channel_capacity
        fw.est_chan []

  unfoldable pub controller_round : Firmware F Matrix C D → Firmware F Matrix C D
  unfolding controller_commands
  controller_round fw = record fw { est_chan = (controller_commands fw).1 }

  -- What a formatter made of the buffer, with an empty payload counted as an error.
  abbrev pub formatted : Firmware F Matrix C D → Written → Option (Firmware F Matrix C D)
  formatted fw none = none
  formatted fw (some (len, buf)) =
      some (record fw { error_count = count_empty len fw.error_count; payload_buf = buf })

  abbrev pub write_estimate : Firmware F Matrix C D → Option (Firmware F Matrix C D)
  write_estimate fw =
      let o = lit 0 1 in
      formatted fw (format_state_estimate payload (o, o, o) (o, o, o) fw.payload_buf)

  abbrev pub write_diagnostics : Firmware F Matrix C D → Option (Firmware F Matrix C D)
  write_diagnostics fw =
      formatted fw (format_diagnostics fw.publish_count fw.error_count fw.payload_buf)

  unfoldable pub telemetry_round : Firmware F Matrix C D → Option (Firmware F Matrix C D)
  unfolding format_state_estimate format_diagnostics
  telemetry_round fw =
      and_then write_diagnostics
        (write_estimate (record fw { publish_count = wrapping_next fw.publish_count }))

  unfoldable pub inference_round : Firmware F Matrix C D → Firmware F Matrix C D
  inference_round fw = record fw { infer_count = wrapping_next fw.infer_count }

  unfoldable pub round : Task → Firmware F Matrix C D → Option (Firmware F Matrix C D)
  unfolding gps_round baro_round imu_round estimator_round controller_round telemetry_round
      inference_round
  round gps_task fw = some (gps_round fw)
  round baro_task fw = some (baro_round fw)
  round imu_task fw = some (imu_round fw)
  round estimator_task fw = some (estimator_round fw)
  round controller_task fw = some (controller_round fw)
  round telemetry_task fw = telemetry_round fw
  round inference_task fw = some (inference_round fw)
  round command_task fw = some fw

  -- The rounds of a schedule, one after the other.
  unfoldable pub run : List Task → Firmware F Matrix C D → Option (Firmware F Matrix C D)
  unfolding round
  run [] fw = some fw
  run (task ∷ tasks) fw = and_then (run tasks) (round task fw)
