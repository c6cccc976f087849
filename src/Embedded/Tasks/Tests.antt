-- ===== src/Embedded/Tasks/Tests.antt =====
-- crates/themql-embedded/src/main.rs: runs of the firmware on channels that are lists, with a filter of
-- natural numbers whose gain adds 5 everywhere.
use the_mql.Base.{ℕ, ◌+◌, ◌-◌, ◌*◌, false, some, List, [], ◌∷◌, ◌≡◌, refl}
use the_mql.Base.Floats.{Floats, naturals}
use the_mql.Embedded.Payload
use the_mql.Embedded.Payload.{
  low_digits, write_str, write_u64_dec, write_u64_padded, write_f64, format_diagnostics,
  format_state_estimate,
}
use the_mql.Embedded.Sensors.{TaggedReading}
use the_mql.Embedded.Tasks.{
  Channel, Firmware, gps_task, imu_task, estimator_task, controller_task, telemetry_task,
}
use the_mql.Embedded.Tasks.Channels.{front, offered, seen, Fifo}
use the_mql.Embedded.Tasks.Rounds.{boot, gps_round, baro_round, imu_round, estimator_round, run}
use the_mql.Embedded.Tasks.Safety.{IsSound, run-IsSound}
use the_mql.Estimation.{Linear, EstimatorState}
use the_mql.Gnc.Controllers.{Nalgebra}

-- Every quotient is one, so that the time step is positive.
abbrev floats : Floats ℕ
floats = record naturals { div = λ a b. 1 }

abbrev payload : Payload.Floats ℕ
payload = record {
  is_negative = λ x. false;
  negate = λ x. x;
  to_u64 = λ x. x;
  of_u64 = λ x. x;
  minus = λ x y. x - y;
  times_million = λ x. x * 1_000_000;
}

abbrev linear : Linear ℕ ℕ
linear = record {
  cos = λ a. a;
  sin = λ a. a;
  norm4 = λ q. 1;
  norm3 = λ v. v 0;
  from_quaternion = λ q. q;
  rotate = λ q v. v;
  identity = λ n. 1;
  blank = λ m n. 0;
  plus = λ a b. a;
  minus = λ a b. a;
  times = λ a b. a;
  scale = λ a b. a;
  transpose = λ a. a;
  try_inverse = λ a. some a;
  times_vector = λ a v i. 5;
  trace = λ a. a;
  entry = λ a i j. a;
  set_entry = λ a i j v. a;
}

abbrev algebra : Nalgebra ℕ ℕ
algebra = record {
  minus = λ a b. a;
  plus = λ a b. a;
  scale = λ a n. a;
  norm = λ q. 1;
  times = λ m xs i. m;
  plus_column = λ u v i. u i + v i;
}

abbrev queues : {A : Type 0} → ℕ → Channel A (List A)
queues capacity = record {
  empty = [];
  try_send = offered capacity;
  try_receive = front;
  contents = λ queue. queue;
}

seen_whole : {A : Type 0} (queue : List A) → seen (λ rest. rest) (front queue) ≡ front queue
seen_whole [] = refl
seen_whole (a ∷ queue) = refl

queues-Fifo : {A : Type 0} (capacity : ℕ) → Fifo (queues {A = A} capacity) capacity
queues-Fifo capacity = record {
  empty-contents = refl;
  send-contents = λ a queue. refl;
  receive-front = seen_whole;
}

abbrev booted : Firmware ℕ ℕ (List TaggedReading) (List (EstimatorState ℕ ℕ))
unfolding boot
booted = boot floats payload linear algebra (queues 8) (queues 4)

run-IsSound_example :
    (fw : Firmware ℕ ℕ (List TaggedReading) (List (EstimatorState ℕ ℕ))) × (run floats payload
        linear algebra
        (queues 8)
        (queues 4)
        (gps_task ∷ imu_task ∷ telemetry_task ∷ estimator_task ∷ controller_task ∷ [])
        (boot floats payload linear algebra (queues 8) (queues 4))
      ≡ some fw)
    × IsSound floats payload linear algebra (queues-Fifo 8) (queues-Fifo 4) fw
run-IsSound_example =
    run-IsSound floats payload linear algebra (queues-Fifo 8) (queues-Fifo 4)
      (gps_task ∷ imu_task ∷ telemetry_task ∷ estimator_task ∷ controller_task ∷ [])

-- A reading of each sensor waits.
abbrev waiting : Firmware ℕ ℕ (List TaggedReading) (List (EstimatorState ℕ ℕ))
unfolding gps_round baro_round imu_round boot
waiting = imu_round floats payload linear algebra (queues 8) (queues 4) (
    baro_round floats payload linear algebra (queues 8) (queues 4)
      (gps_round floats payload linear algebra (queues 8) (queues 4) booted))

-- Two corrections of 5 each reach the height, and the prediction moves it on by the speed, which is 10.
estimated :
    (estimator_round floats payload linear algebra (queues 8) (queues 4) waiting).ekf.state.x 2 ≡ 20
unfolding estimator_round waiting
estimated = refl
