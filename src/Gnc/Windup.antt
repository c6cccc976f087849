-- ===== src/Gnc/Windup.antt =====
-- crates/themql-gnc/src/lib.rs: the integral of the PID controller.
use the_mql.Base.{true, false, List, [], ◌∷◌, All, ◌≡◌, inl, inr, arith, Bool-cases}
use the_mql.Base.Floats.{Floats}
use the_mql.Gnc.{Vector3, GncState, Setpoint}
use the_mql.Gnc.Controllers.{Nalgebra, PidGains, PidController, max_integral, dt_refused}
use the_mql.Gnc.Pid
use the_mql.Gnc.Pid.{saturate_integral}

-- A value that is a number: `<=` fails of a NaN on either side.
abbrev pub IsNumber : {F : Type 0} → Floats F → F → Type 0
IsNumber floats a = floats.le a a ≡ true

-- What IEEE 754 says of numbers that are no NaN: one that is not below another is at least that; the
-- literals -10, 0 and 10 are in order; a product by a positive finite number is a number, and so is a
-- sum with a number between -10 and 10.
pub record OrderLaws {F : Type 0} (floats : Floats F) : Type 0 where
  pub total :
      (a b : F)
      → IsNumber floats a
      → IsNumber floats b
      → floats.lt a b ≡ false
      → floats.le b a ≡ true
  pub ten : floats.le (floats.neg (floats.lit 10 1)) (floats.lit 10 1) ≡ true
  pub ten_number : IsNumber floats (floats.lit 10 1)
  pub minus_ten_number : IsNumber floats (floats.neg (floats.lit 10 1))
  pub zero_below : floats.le (floats.lit 0 1) (floats.lit 10 1) ≡ true
  pub zero_above : floats.le (floats.neg (floats.lit 10 1)) (floats.lit 0 1) ≡ true
  pub product :
      (a dt : F)
      → IsNumber floats a
      → floats.is_finite dt ≡ true
      → floats.le dt (floats.lit 0 1) ≡ false
      → IsNumber floats (floats.mul a dt)
  pub sum :
      (a b : F)
      → floats.le (floats.neg (floats.lit 10 1)) a ≡ true
      → floats.le a (floats.lit 10 1) ≡ true
      → IsNumber floats b
      → IsNumber floats (floats.add a b)

module _ {F Matrix : Type 0} {floats : Floats F} (laws : OrderLaws floats)
    (algebra : Nalgebra F Matrix) where
  -- At least the negation of the greatest integral and at most that integral; a NaN is neither.
  abbrev pub IsWithin : F → Type 0
  IsWithin a =
      (floats.le (floats.neg (max_integral floats)) a ≡ true)
      × (floats.le a (max_integral floats) ≡ true)

  -- Every axis of the integral is within the bounds.
  abbrev pub IsBounded : Vector3 F → Type 0
  IsBounded v = IsWithin v.x × IsWithin v.y × IsWithin v.z

  -- The error of the position is a number on every axis.
  abbrev pub IsMeasured : GncState F → Setpoint F → Type 0
  IsMeasured state setpoint =
      let e = algebra.minus setpoint.target_position state.position in
      IsNumber floats e.x × IsNumber floats e.y × IsNumber floats e.z

  -- A sequence of steps, those that are refused among them.
  abbrev pub steps : PidController F → List (GncState F × Setpoint F × F) → PidController F
  steps c [] = c
  steps c ((state, setpoint, dt) ∷ inputs) =
      steps (Pid.step_mut floats algebra c state setpoint dt).1 inputs

  dt_accepted :
      (dt : F)
      → dt_refused floats dt ≡ false
      → (floats.is_finite dt ≡ true) × (floats.le dt (floats.lit 0 1) ≡ false)
  dt_accepted dt h = ground arith

  saturate-IsWithin :
      (current error dt : F)
      → IsWithin current
      → IsNumber floats error
      → dt_refused floats dt ≡ false
      → IsWithin (saturate_integral floats algebra current error dt)
  unfolding saturate_integral
  saturate-IsWithin current error dt h e d =
      let acc = floats.add current (floats.mul error dt) in
      let number : IsNumber floats acc =
        laws.sum current (floats.mul error dt) h.0 h.1
          (laws.product error dt e (dt_accepted dt d).0 (dt_accepted dt d).1) in
      elim (Bool-cases (floats.lt (max_integral floats) acc)) [
        | inl a ↦ rw a (laws.ten, laws.ten_number)
        | inr a ↦ elim (Bool-cases (floats.lt acc (floats.neg (max_integral floats)))) [
          | inl b ↦ rw (a, b) (laws.minus_ten_number, laws.ten)
          | inr b ↦
              rw (a, b)
                (
                  laws.total acc (floats.neg (max_integral floats)) number laws.minus_ten_number b,
                  laws.total (max_integral floats) acc laws.ten_number number a,
                )
        ]
      ]

  step_mut-IsBounded :
      (c : PidController F) (state : GncState F) (setpoint : Setpoint F) (dt : F)
      → IsMeasured state setpoint
      → IsBounded c.integral
      → IsBounded (Pid.step_mut floats algebra c state setpoint dt).1.integral
  unfolding Pid.step_mut
  step_mut-IsBounded c state setpoint dt m h =
      let e = algebra.minus setpoint.target_position state.position in
      elim (Bool-cases (dt_refused floats dt)) [
        | inl r ↦ rw r h
        | inr r ↦ rw r (
          saturate-IsWithin c.integral.x e.x dt h.0 m.0 r,
          saturate-IsWithin c.integral.y e.y dt h.1 m.1 r,
          saturate-IsWithin c.integral.z e.z dt h.2 m.2 r,
        )
      ]

  steps-keep :
      (c : PidController F) (inputs : List (GncState F × Setpoint F × F))
      → All (λ i. IsMeasured i.0 i.1) inputs
      → IsBounded c.integral
      → IsBounded (steps c inputs).integral
  steps-keep c [] m h = h
  steps-keep c ((state, setpoint, dt) ∷ inputs) m h =
      steps-keep (Pid.step_mut floats algebra c state setpoint dt).1 inputs m.1
        (step_mut-IsBounded c state setpoint dt m.0 h)

  -- The integral of a new controller is a number between its bounds after any sequence of steps in
  -- place, those that are refused among them, whatever the gains and the steps of time, if no axis of
  -- the error of a position is a NaN in any of them.
  pub steps-IsBounded :
      (gains : PidGains F) (inputs : List (GncState F × Setpoint F × F))
      → All (λ i. IsMeasured i.0 i.1) inputs
      → IsBounded (steps (Pid.new floats algebra gains) inputs).integral
  unfolding Pid.new
  steps-IsBounded gains inputs m =
      let o : IsWithin (floats.lit 0 1) = (laws.zero_above, laws.zero_below) in
      steps-keep _ inputs m (o, o, o)
