-- ===== src/Embedded/Tasks/Safety.antt =====
-- crates/themql-embedded/src/main.rs: what holds of the firmware whatever the order of the rounds.
use the_mql.Base.{ℕ, ◌≤◌, ◌<◌, ◌^◌, Option, some, List, [], ◌∷◌, length, ◌≡◌, refl, ap, ◌∙◌, arith}
use the_mql.Base.Floats.{Floats}
use the_mql.Embedded.Payload
use the_mql.Embedded.Payload.{Written, format_state_estimate, format_diagnostics}
use the_mql.Embedded.Payload.Formats.{
  IsBounded, format_diagnostics-IsBounded, format_state_estimate-IsBounded,
}
use the_mql.Embedded.Sensors.{TaggedReading, stub_read}
use the_mql.Embedded.Tasks.{
  Channel, sensor_channel_capacity, estimator_channel_capacity, Firmware, Task, gps_task, baro_task,
  imu_task, estimator_task, controller_task, telemetry_task, inference_task, command_task,
  wrapping_next, count_empty, on_gps, on_baro, on_imu, on_estimate,
}
use the_mql.Embedded.Tasks.Channels.{Fifo, fold, offered, send-fits, drain-Drained}
use the_mql.Embedded.Tasks.Rounds.{
  payload_buf_size, boot, estimator_round, controller_round, controller_commands, formatted,
  write_diagnostics, telemetry_round, round, run, gps_round, baro_round, imu_round, inference_round,
  and_then,
}
use the_mql.Estimation.{Linear, EstimatorState}
use the_mql.Gnc.Controllers.{Nalgebra}

count_empty-below : (len errors : ℕ) → errors < 2 ^ 32 → count_empty len errors < 2 ^ 32
count_empty-below len errors h = ground arith

module _ {F Matrix C D : Type 0} (floats : Floats F) (payload : Payload.Floats F)
    (linear : Linear F Matrix) (algebra : Nalgebra F Matrix) {sensors : Channel TaggedReading C}
    {estimates : Channel (EstimatorState F Matrix) D}
    (readings : Fifo sensors sensor_channel_capacity)
    (states : Fifo estimates estimator_channel_capacity) where
  abbrev pub IsWord : ℕ → Type 0
  IsWord n = n < 2 ^ 32

  abbrev pub ReadingsFit : C → Type 0
  ReadingsFit c = length (sensors.contents c) ≤ sensor_channel_capacity

  abbrev pub StatesFit : D → Type 0
  StatesFit d = length (estimates.contents d) ≤ estimator_channel_capacity

  -- No channel holds more than its capacity, the buffer keeps its size, and the counters are words.
  abbrev pub IsSound : Firmware F Matrix C D → Type 0
  IsSound fw =
      (ReadingsFit fw.gps_chan
        × ReadingsFit fw.baro_chan
        × ReadingsFit fw.imu_chan
        × StatesFit fw.est_chan)
      × (IsWord fw.publish_count × IsWord fw.error_count × IsWord fw.infer_count)
      × (length fw.payload_buf ≡ payload_buf_size)

  abbrev pub GoesOn : Option (Firmware F Matrix C D) → Type 0
  GoesOn result = (fw : Firmware F Matrix C D) × (result ≡ some fw) × IsSound fw

  formatted-GoesOn :
      (fw : Firmware F Matrix C D) (written : Written)
      → IsSound fw
      → IsBounded fw.payload_buf written
      → GoesOn (formatted floats payload linear algebra sensors estimates fw written)
  formatted-GoesOn fw written (fits, (p, e, i), size) (len, buf, made, _, sized) =
      rw made (_, refl, (fits, (p, count_empty-below len fw.error_count e, i), sized ∙ size))

  then-GoesOn :
      (result : Option (Firmware F Matrix C D))
      (next : Firmware F Matrix C D → Option (Firmware F Matrix C D))
      → GoesOn result
      → ((fw : Firmware F Matrix C D) → IsSound fw → GoesOn (next fw))
      → GoesOn (and_then next result)
  then-GoesOn result next (fw, made, sound) goes_on = rw made (goes_on fw sound)

  telemetry_round-GoesOn :
      (fw : Firmware F Matrix C D)
      → IsSound fw
      → GoesOn (telemetry_round floats payload linear algebra sensors estimates fw)
  unfolding telemetry_round
  telemetry_round-GoesOn fw (fits, (p, e, i), size) =
      then-GoesOn _ (write_diagnostics floats payload linear algebra sensors estimates)
        (formatted-GoesOn (record fw { publish_count = wrapping_next fw.publish_count }) _
          (fits, (omega arith, e, i), size)
          (format_state_estimate-IsBounded payload _ _ fw.payload_buf))
        (λ next next_sound.
          formatted-GoesOn next _ next_sound
            (format_diagnostics-IsBounded next.publish_count next.error_count next.payload_buf))

  -- The rounds of the estimator process what the channels hold, in the order of the channels.
  abbrev pub Processes : Firmware F Matrix C D → Firmware F Matrix C D → Type 0
  Processes fw next =
      let located = fold (on_gps floats linear) (sensors.contents fw.gps_chan) fw.ekf in
      let levelled = fold (on_baro floats linear) (sensors.contents fw.baro_chan) located in
      (next.ekf ≡ fold (on_imu floats linear) (sensors.contents fw.imu_chan) levelled)
      × (sensors.contents next.gps_chan ≡ [])
      × (sensors.contents next.baro_chan ≡ [])
      × (sensors.contents next.imu_chan ≡ [])
      × (estimates.contents next.est_chan
          ≡ offered estimator_channel_capacity next.ekf.state (estimates.contents fw.est_chan))

  estimator_round-Processes_of_fits :
      (fw : Firmware F Matrix C D)
      → IsSound fw
      → Processes fw (estimator_round floats payload linear algebra sensors estimates fw)
  unfolding estimator_round
  estimator_round-Processes_of_fits fw ((g, b, i, e), _, _) =
      let (located, no_gps) =
        drain-Drained readings (on_gps floats linear) 8 fw.gps_chan fw.ekf g in
      let (levelled, no_baro) = drain-Drained readings (on_baro floats linear) 8 fw.baro_chan _ b in
      let (moved, no_imu) = drain-Drained readings (on_imu floats linear) 8 fw.imu_chan _ i in
      (
        moved
            ∙ ap (fold (on_imu floats linear) (sensors.contents fw.imu_chan)) (
                levelled
                ∙ ap (fold (on_baro floats linear) (sensors.contents fw.baro_chan)) located),
        no_gps,
        no_baro,
        no_imu,
        states.send-contents _ fw.est_chan,
      )

  no_more : {A : Type 0} {queue : List A} (n : ℕ) → queue ≡ [] → length queue ≤ n
  no_more n e = rw e (omega arith)

  round-GoesOn :
      (task : Task) (fw : Firmware F Matrix C D)
      → IsSound fw
      → GoesOn (round floats payload linear algebra sensors estimates task fw)
  unfolding round gps_round baro_round imu_round controller_round controller_commands
      inference_round stub_read
  round-GoesOn gps_task fw ((g, b, i, e), counts, size) =
      (_, refl, ((send-fits readings _ fw.gps_chan g, b, i, e), counts, size))
  round-GoesOn baro_task fw ((g, b, i, e), counts, size) =
      (_, refl, ((g, send-fits readings _ fw.baro_chan b, i, e), counts, size))
  round-GoesOn imu_task fw ((g, b, i, e), counts, size) =
      (_, refl, ((g, b, send-fits readings _ fw.imu_chan i, e), counts, size))
  round-GoesOn estimator_task fw ((g, b, i, e), counts, size) =
      let (_, no_gps, no_baro, no_imu, _) =
        estimator_round-Processes_of_fits fw ((g, b, i, e), counts, size) in
      (
        _,
        refl,
        (
          (no_more 8 no_gps, no_more 8 no_baro, no_more 8 no_imu, send-fits states _ fw.est_chan e),
          counts,
          size,
        ),
      )
  round-GoesOn controller_task fw ((g, b, i, e), counts, size) =
      let (_, emptied) =
        drain-Drained states (on_estimate floats linear algebra fw.controller) 4 fw.est_chan [] e in
      (_, refl, ((g, b, i, no_more 4 emptied), counts, size))
  round-GoesOn telemetry_task fw sound = telemetry_round-GoesOn fw sound
  round-GoesOn inference_task fw (fits, (p, e, i), size) =
      (_, refl, (fits, (p, e, omega arith), size))
  round-GoesOn command_task fw sound = (fw, refl, sound)

  run-GoesOn :
      (tasks : List Task) (fw : Firmware F Matrix C D)
      → IsSound fw
      → GoesOn (run floats payload linear algebra sensors estimates tasks fw)
  unfolding run
  run-GoesOn [] fw sound = (fw, refl, sound)
  run-GoesOn (task ∷ tasks) fw sound =
      then-GoesOn _ (run floats payload linear algebra sensors estimates tasks)
        (round-GoesOn task fw sound) (run-GoesOn tasks)

  boot-IsSound : IsSound (boot floats payload linear algebra sensors estimates)
  unfolding boot
  boot-IsSound = (
    (
      no_more 8 readings.empty-contents,
      no_more 8 readings.empty-contents,
      no_more 8 readings.empty-contents,
      no_more 4 states.empty-contents,
    ),
    (omega arith, omega arith, omega arith),
    refl,
  )

  -- From boot, after rounds of the tasks in any order and number, no round has panicked, no channel
  -- holds more than its capacity, the payload buffer has its size, and the counters are below 2^32.
  pub run-IsSound :
      (tasks : List Task)
      → (fw : Firmware F Matrix C D) × (run floats payload linear algebra sensors estimates tasks
            (boot floats payload linear algebra sensors estimates)
          ≡ some fw)
        × IsSound fw
  run-IsSound tasks = run-GoesOn tasks _ boot-IsSound
