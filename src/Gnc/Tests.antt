-- ===== src/Gnc/Tests.antt =====
-- crates/themql-gnc/src/lib.rs: controllers of natural numbers.
use the_mql.Base.{ℕ, ◌+◌, ◌-◌, ◌*◌, [], ◌∷◌, All, ok, ◌≡◌, ◌↔◌, true, false, ltb, leb, refl, arith}
use the_mql.Base.Floats.{naturals}
use the_mql.Gnc.{Vector3, GncState, Setpoint, new_state, new_setpoint, zero_command, check, q_norm}
use the_mql.Gnc.Controllers.{
  Nalgebra, PidGains, LqriMatrices, HybridController, lqri_with_pid_fallback,
}
use the_mql.Gnc.Pid
use the_mql.Gnc.Lqri
use the_mql.Gnc.Hybrid
use the_mql.Gnc.Health.{IsSound, IsFinite, check_iff}
use the_mql.Gnc.Windup.{OrderLaws, IsBounded, steps, steps-IsBounded}
use the_mql.Gnc.Refusal.{Commands, Steppable, hybrid_step_iff}

-- A matrix is a number, and its product with a column is that number everywhere.
abbrev algebra : Nalgebra ℕ ℕ
algebra = record {
  minus = λ a b. record { x = a.x - b.x; y = a.y - b.y; z = a.z - b.z };
  plus = λ a b. record { x = a.x + b.x; y = a.y + b.y; z = a.z + b.z };
  scale = λ a n. record { x = a.x * n; y = a.y * n; z = a.z * n };
  norm = λ q. q.w;
  times = λ m xs i. m;
  plus_column = λ u v i. u i + v i;
}

reflexive : (a : ℕ) → leb a a ≡ true
reflexive a = ground arith

total : (a b : ℕ) → leb a a ≡ true → leb b b ≡ true → ltb a b ≡ false → leb b a ≡ true
total a b h k n = ground arith

laws : OrderLaws naturals
laws = record {
  total = total;
  ten = refl;
  ten_number = refl;
  minus_ten_number = refl;
  zero_below = refl;
  zero_above = refl;
  product = λ a dt h f p. reflexive (a * dt);
  sum = λ a b l u h. reflexive (a + b);
}

abbrev gains : PidGains ℕ
gains = let v : Vector3 ℕ = record { x = 2; y = 1; z = 1 } in record { kp = v; ki = v; kd = v }

abbrev resting : GncState ℕ
unfolding new_state
resting = new_state naturals

abbrev target : Setpoint ℕ
unfolding new_setpoint
target = record (new_setpoint naturals) { target_position = record { x = 3; y = 40; z = 0 } }

commanded :
    Pid.step naturals algebra (Pid.new naturals algebra gains) resting target 1
    ≡ ok (record { values = 18 ∷ 90 ∷ 0 ∷ 0 ∷ 0 ∷ 0 ∷ 0 ∷ 0 ∷ [] })
unfolding Pid.step Pid.new new_state new_setpoint
commanded = refl

steps-IsBounded_example :
    IsBounded laws algebra
      (steps laws algebra
        (Pid.new naturals algebra gains)
        ((resting, target, 1) ∷ (resting, target, 0) ∷ [])).integral
unfolding target resting
steps-IsBounded_example =
    steps-IsBounded laws algebra gains ((resting, target, 1) ∷ (resting, target, 0) ∷ [])
      ((refl, refl, refl), ((refl, refl, refl), tt))

abbrev matrices : LqriMatrices ℕ
matrices = record { feedback = 1; integral_action = 2; state_cost = 0; control_cost = 0 }

abbrev chooser : HybridController ℕ ℕ
unfolding Pid.new Lqri.new
chooser = record {
  policy = lqri_with_pid_fallback gains;
  pid_controller = Pid.new naturals algebra gains;
  lqri_controller = Lqri.new naturals algebra matrices;
}

hybrid_step_iff_example :
    Commands (Hybrid.step naturals algebra chooser resting target 1)
    ↔ Steppable naturals algebra resting 1
hybrid_step_iff_example = hybrid_step_iff naturals algebra chooser resting target 1

check_iff_example : (check naturals resting (zero_command naturals) ≡ ok tt) ↔ (
    All (IsSound naturals) (zero_command naturals).values
    × IsFinite naturals resting.position
    × IsFinite naturals resting.velocity
    × IsFinite naturals resting.angular_velocity
    × (ltb 0 (q_norm naturals resting.attitude - 1) ≡ false))
check_iff_example = check_iff naturals resting (zero_command naturals)
