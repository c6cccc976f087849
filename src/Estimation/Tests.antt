-- ===== src/Estimation/Tests.antt =====
-- crates/themql-estimation/src/lib.rs: a filter of natural numbers, whose gain adds 5 everywhere.
use the_mql.Base.{ℕ, some, err, ◌≡◌, refl}
use the_mql.Base.Floats.{naturals}
use the_mql.Estimation.{Linear, BarometerReading, quaternion_not_unit_norm}
use the_mql.Estimation.Ekf.{new, update_baro}
use the_mql.Estimation.Failures.{reads_baro, run, Cases, run-Cases}

abbrev linear : Linear ℕ ℕ
linear = record {
  cos = λ a. a;
  sin = λ a. a;
  norm4 = λ q. q 0;
  norm3 = λ v. v 0;
  from_quaternion = λ q. q;
  rotate = λ q v. v;
  identity = λ n. 1;
  blank = λ m n. 0;
  plus = λ a b. a;
  minus = λ a b. a;
  times = λ a b. a;
  scale = λ a b. a;
  transpose = λ a. a;
  try_inverse = λ a. some a;
  times_vector = λ a v i. 5;
  trace = λ a. a;
  entry = λ a i j. a;
  set_entry = λ a i j v. a;
}

abbrev baro : BarometerReading ℕ
baro = record { altitude = 7; altitude_bias = 0 }

-- The update fails, and the filter has the corrected state.
failed :
    (update_baro naturals linear baro (new naturals linear)).0 ≡ err (quaternion_not_unit_norm 6)
unfolding update_baro new
failed = refl

kept : (update_baro naturals linear baro (new naturals linear)).1.state.x 6 ≡ 6
unfolding update_baro new
kept = refl

run-Cases_example :
    Cases naturals linear
      (new naturals linear)
      (run naturals linear (reads_baro baro) (new naturals linear))
run-Cases_example = run-Cases naturals linear (reads_baro baro) (new naturals linear)
