-- ===== src/Gnc/Health.antt =====
-- crates/themql-gnc/src/lib.rs: what the health check of a controller accepts.
use the_mql.Base.{
  ℕ, ◌+◌, Bool, true, false, List, [], ◌∷◌, All, Result, ok, err, ◌≡◌, ◌↔◌, refl, arith,
}
use the_mql.Base.Floats.{Floats}
use the_mql.Base.Results.{◌>>◌}
use the_mql.Base.Text.{Text}
use the_mql.Gnc.{
  Vector3, GncState, ActuatorCommand, check, check_actuators, check_axis, fail_if, q_norm,
  max_actuator_magnitude,
}

>>_iff {ℓ} :
    {E : Type ℓ} (m k : Result E (Unit {0})) → ((m >> k) ≡ ok tt) ↔ ((m ≡ ok tt) × (k ≡ ok tt))
>>_iff (ok tt) k = ((λ h. (refl, h)), (λ h. h.1))
>>_iff (err e) k = ((λ h. cc), (λ h. cc (h.0)))

module _ {F : Type 0} (floats : Floats F) where
  -- The value is finite, and its magnitude is not above that of an actuator.
  abbrev pub IsSound : F → Type 0
  IsSound v =
      (floats.is_finite v ≡ true)
      × (floats.lt (max_actuator_magnitude floats) (floats.magnitude v) ≡ false)

  abbrev pub IsFinite : Vector3 F → Type 0
  IsFinite v =
      (floats.is_finite v.x ≡ true) × (floats.is_finite v.y ≡ true) × (floats.is_finite v.z ≡ true)

  fail_if_iff :
      (test : Bool) (reason : Text) → (fail_if floats test reason ≡ ok tt) ↔ (test ≡ false)
  fail_if_iff test reason = ground arith

  check_axis_iff :
      (i : ℕ) (p v a : F)
      → (check_axis floats i p v a ≡ ok tt)
        ↔ ((floats.is_finite p ≡ true) × (floats.is_finite v ≡ true) × (floats.is_finite a ≡ true))
  check_axis_iff i p v a = ground arith

  check_actuators_iff :
      (i : ℕ) (values : List F) → (check_actuators floats i values ≡ ok tt) ↔ All IsSound values
  unfolding check_actuators
  check_actuators_iff i [] = ((λ _. tt), (λ _. refl))
  check_actuators_iff i (v ∷ values) = ground (arith, check_actuators_iff (i + 1) values)

  -- The check passes exactly if the values of the actuators are sound, the position, the velocity and
  -- the angular velocity are finite, and the norm of the attitude is not further from 1 than 1e-6.
  pub check_iff :
      (state : GncState F) (cmd : ActuatorCommand F)
      → (check floats state cmd ≡ ok tt) ↔ (
          All IsSound cmd.values
          × IsFinite state.position
          × IsFinite state.velocity
          × IsFinite state.angular_velocity
          × (floats.lt
                (floats.lit 1 1_000_000)
                (floats.magnitude (floats.sub (q_norm floats state.attitude) (floats.lit 1 1)))
              ≡ false))
  unfolding check
  check_iff state cmd =
      let a = check_actuators_iff 0 cmd.values in
      let x = check_axis_iff 0 state.position.x state.velocity.x state.angular_velocity.x in
      let y = check_axis_iff 1 state.position.y state.velocity.y state.angular_velocity.y in
      let z = check_axis_iff 2 state.position.z state.velocity.z state.angular_velocity.z in
      (
        (λ h.
            let (h, n) = (>>_iff _ _).0 h in
            let (h, hz) = (>>_iff _ _).0 h in
            let (h, hy) = (>>_iff _ _).0 h in
            let (ha, hx) = (>>_iff _ _).0 h in
            let (px, vx, ax) = x.0 hx in
            let (py, vy, ay) = y.0 hy in
            let (pz, vz, az) = z.0 hz in
            (a.0 ha, (px, py, pz), (vx, vy, vz), (ax, ay, az), (fail_if_iff _ _).0 n)),
        (λ (ha, (px, py, pz), (vx, vy, vz), (ax, ay, az), n). (>>_iff _ _).1 (
          (>>_iff _ _).1 (
            (>>_iff _ _).1 ((>>_iff _ _).1 (a.1 ha, x.1 (px, vx, ax)), y.1 (py, vy, ay)),
            z.1 (pz, vz, az),
          ),
          (fail_if_iff _ _).1 n,
        )),
      )
