-- ===== src/Estimation/Ekf.antt =====
-- crates/themql-estimation/src/lib.rs: the sensor models and the extended Kalman filter `Ekf`. A
-- method that changes the filter returns it beside its result.
use the_mql.Base.{
  ℕ, zero, suc, ◌+◌, not, ◌||◌, Option, none, some, List, [], ◌∷◌, if◌then◌else◌, Result, ok, err,
}
use the_mql.Base.Effects.{M, throw, ◌>>◌}
use the_mql.Base.Floats.{Floats}
use the_mql.Base.Text.{codes}
use the_mql.Estimation.{
  Vector, Linear, EstimatorState, ImuReading, GpsReading, BarometerReading, EstimationError,
  state_diverged, dt_not_positive, sensor_reading_invalid, matrix_not_positive_definite, set_at,
  vector3, vector4, cov_trace_limit, new_state, quaternion_of, attitude, fail_if,
  check_quaternion_norm,
}

pub record Ekf (F Matrix : Type 0) : Type 0 where
  pub state : EstimatorState F Matrix
  pub process_noise : Matrix
  pub gps_noise : Matrix
  pub baro_noise : Matrix
  pub imu_noise : Matrix

-- The components of a list, by their indices.
abbrev pub listed : {F : Type 0} → F → List F → Vector F
listed o [] i = o
listed o (v ∷ vs) zero = v
listed o (v ∷ vs) (suc i) = listed o vs i

module _ {F Matrix : Type 0} (floats : Floats F) (linear : Linear F Matrix) where
  open floats use {lit, add, sub, mul, div, sqrt, lt, le, is_finite}
  open linear use {
    cos, sin, norm3, norm4, identity, blank, plus, minus, times, scale, transpose, try_inverse,
    times_vector, trace, entry, set_entry,
  }

  -- `Ekf::new`
  unfoldable pub new : Ekf F Matrix
  unfolding new_state
  new = record {
    state = new_state floats linear;
    process_noise = scale (identity 21) (lit 1 1_000_000);
    gps_noise = scale (identity 7) (lit 1 1_000);
    baro_noise = scale (identity 2) (lit 1 100);
    imu_noise = scale (identity 6) (lit 1 10_000);
  }

  -- `GpsModel`, `BaroModel`: `predict_measurement`, `jacobian` and, for both, `innovation`
  unfoldable pub gps_predicted : EstimatorState F Matrix → Vector F
  gps_predicted s = listed (lit 0 1) (s.x 0 ∷ s.x 1 ∷ s.x 2 ∷ s.x 3 ∷ s.x 4 ∷ s.x 5 ∷ s.x 20 ∷ [])

  unfoldable pub gps_jacobian : Matrix
  gps_jacobian =
      let one = lit 1 1 in
      let h = set_entry (set_entry (blank 7 21) 0 0 one) 1 1 one in
      let h = set_entry (set_entry h 2 2 one) 3 3 one in
      set_entry (set_entry (set_entry h 4 4 one) 5 5 one) 6 20 one

  unfoldable pub baro_predicted : EstimatorState F Matrix → Vector F
  baro_predicted s = listed (lit 0 1) (s.x 2 ∷ s.x 19 ∷ [])

  unfoldable pub baro_jacobian : Matrix
  baro_jacobian = set_entry (set_entry (blank 2 21) 0 2 (lit 1 1)) 1 19 (lit 1 1)

  abbrev pub innovation : Vector F → Vector F → Vector F
  innovation measurement predicted i = sub (measurement i) (predicted i)

  -- A test that leaves the filter as it is, and a change of its state.
  abbrev pub ensure :
      (Ekf F Matrix → Result (EstimationError F) (Unit {0}))
      → M (Ekf F Matrix) (EstimationError F) (Unit {0})
  ensure test ekf = (test ekf, ekf)

  abbrev pub modify :
      (EstimatorState F Matrix → EstimatorState F Matrix)
      → M (Ekf F Matrix) (EstimationError F) (Unit {0})
  modify f ekf = (ok tt, record ekf { state = f ekf.state })

  -- `check_divergence`
  unfoldable pub check_divergence : Ekf F Matrix → Result (EstimationError F) (Unit {0})
  check_divergence ekf =
      let tr = trace ekf.state.covariance in
      fail_if floats linear (not (is_finite tr) || lt (cov_trace_limit floats linear) tr)
        (state_diverged tr)

  -- `!dt.is_finite() || dt <= 0.0`
  abbrev pub validate_dt : F → Result (EstimationError F) (Unit {0})
  validate_dt dt =
      fail_if floats linear (not (is_finite dt) || le dt (lit 0 1)) (dt_not_positive dt)

  abbrev pub after :
      Result (EstimationError F) (Unit {0})
      → Result (EstimationError F) (Unit {0})
      → Result (EstimationError F) (Unit {0})
  after (ok _) next = next
  after (err e) next = err e

  -- The loop over the axes of a reading, for two of its vectors.
  abbrev pub check_axes :
      Vector F → Vector F → EstimationError F → Result (EstimationError F) (Unit {0})
  check_axes a b e =
      let check_axis =
        λ (i : ℕ). fail_if floats linear (not (is_finite (a i)) || not (is_finite (b i))) e in
      after (check_axis 0) (after (check_axis 1) (check_axis 2))

  unfoldable pub validate_imu : ImuReading F → Result (EstimationError F) (Unit {0})
  validate_imu imu =
      check_axes imu.accel imu.gyro (sensor_reading_invalid (codes "imu reading not finite"))

  unfoldable pub validate_gps : GpsReading F → Result (EstimationError F) (Unit {0})
  validate_gps gps =
      after
        (check_axes gps.position gps.velocity
          (sensor_reading_invalid (codes "gps reading not finite")))
        (fail_if floats linear (not (is_finite gps.clock_bias))
          (sensor_reading_invalid (codes "gps clock bias not finite")))

  unfoldable pub validate_baro : BarometerReading F → Result (EstimationError F) (Unit {0})
  validate_baro baro =
      fail_if floats linear (not (is_finite baro.altitude) || not (is_finite baro.altitude_bias))
        (sensor_reading_invalid (codes "baro reading not finite"))

  -- `quaternion_multiply`
  unfoldable pub quaternion_multiply : Vector F → Vector F → Vector F
  quaternion_multiply a b =
      vector4
        (sub (sub (sub (mul (a 0) (b 0)) (mul (a 1) (b 1))) (mul (a 2) (b 2))) (mul (a 3) (b 3)))
        (sub (add (add (mul (a 0) (b 1)) (mul (a 1) (b 0))) (mul (a 2) (b 3))) (mul (a 3) (b 2)))
        (add (add (sub (mul (a 0) (b 2)) (mul (a 1) (b 3))) (mul (a 2) (b 0))) (mul (a 3) (b 1)))
        (add (sub (add (mul (a 0) (b 3)) (mul (a 1) (b 2))) (mul (a 2) (b 1))) (mul (a 3) (b 0)))

  -- `propagate_attitude`
  unfoldable pub propagate_attitude : Vector F → Vector F → F → Vector F
  unfolding quaternion_multiply
  propagate_attitude q omega dt =
      let half_angle = mul (mul (lit 1 2) dt) (norm3 omega) in
      let axis : Vector F = λ i. div (omega i) (norm3 omega) in
      let dq =
        vector4 (cos half_angle) (mul (axis 0) (sin half_angle)) (mul (axis 1) (sin half_angle))
          (mul (axis 2) (sin half_angle)) in
      if lt half_angle (lit 1 1_000_000_000_000) then q else quaternion_multiply q dq

  abbrev pub set_quaternion : Vector F → EstimatorState F Matrix → EstimatorState F Matrix
  set_quaternion q s = record s {
    x = set_at 9 (q 3) (set_at 8 (q 2) (set_at 7 (q 1) (set_at 6 (q 0) s.x)));
  }

  -- `renormalize_quaternion`
  unfoldable pub renormalize_quaternion : EstimatorState F Matrix → EstimatorState F Matrix
  renormalize_quaternion s =
      let q = quaternion_of floats linear s in
      let norm = norm4 q in if lt (lit 0 1) norm then set_quaternion (λ i. div (q i) norm) s else s

  -- A round of the loop of `propagate_position_velocity`.
  abbrev pub move_axis : Vector F → F → ℕ → Vector F → Vector F
  move_axis accel dt i x =
      let moved =
        set_at i (add (x i) (add (mul (x (i + 3)) dt) (mul (mul (mul (lit 1 2) (accel i)) dt) dt)))
          x in
      set_at (i + 3) (add (moved (i + 3)) (mul (accel i) dt)) moved

  -- `propagate_position_velocity`
  unfoldable pub propagate_position_velocity :
      F → Vector F → F → EstimatorState F Matrix → EstimatorState F Matrix
  unfolding attitude
  propagate_position_velocity dt accel_body gravity s =
      let accel_world = linear.rotate (attitude floats linear s) accel_body in
      let x =
        move_axis accel_world dt 2 (move_axis accel_world dt 1 (move_axis accel_world dt 0 s.x)) in
      let x = set_at 2 (sub (x 2) (mul (mul (mul (lit 1 2) gravity) dt) dt)) x in
      record s { x = set_at 5 (sub (x 5) (mul gravity dt)) x }

  -- `state_transition_jacobian`
  unfoldable pub state_transition_jacobian : F → Matrix
  state_transition_jacobian dt =
      set_entry (set_entry (set_entry (identity 21) 0 3 dt) 1 4 dt) 2 5 dt

  -- `propagate_covariance`, with the process noise of the filter.
  unfoldable pub propagate_covariance :
      Matrix → Matrix → F → EstimatorState F Matrix → EstimatorState F Matrix
  propagate_covariance noise f dt s = record s {
    covariance = plus (times (times f s.covariance) (transpose f)) (scale noise dt);
  }

  abbrev pub advance_time : F → EstimatorState F Matrix → EstimatorState F Matrix
  advance_time dt s = record s { t = add s.t dt }

  -- What `ekf_update_generic` makes of the state, with the inverse that it needs.
  unfoldable pub corrected :
      Matrix → Vector F → Matrix → Matrix → EstimatorState F Matrix → EstimatorState F Matrix
  corrected h y r s_inv s =
      let gain = times (times s.covariance (transpose h)) s_inv in
      let gain_y = times_vector gain y in
      let rest = minus (identity 21) (times gain h) in
      record s {
        x = λ i. add (s.x i) (gain_y i);
        covariance =
            plus (times (times rest s.covariance) (transpose rest))
              (times (times gain r) (transpose gain));
      }

  abbrev pub correct_by :
      Matrix → Vector F → Matrix → Option Matrix → M (Ekf F Matrix) (EstimationError F) (Unit {0})
  correct_by h y r none = throw matrix_not_positive_definite
  correct_by h y r (some s_inv) = modify (corrected h y r s_inv)

  -- `ekf_update_generic`
  unfoldable pub ekf_update_generic :
      Matrix → Vector F → Matrix → M (Ekf F Matrix) (EstimationError F) (Unit {0})
  unfolding corrected
  ekf_update_generic h y r ekf =
      correct_by h y r (try_inverse (plus (times (times h ekf.state.covariance) (transpose h)) r))
        ekf

  abbrev pub check_norm : M (Ekf F Matrix) (EstimationError F) (Unit {0})
  check_norm = ensure (λ ekf. check_quaternion_norm floats linear ekf.state)

  abbrev pub validate_noise : F → Result (EstimationError F) (Unit {0})
  validate_noise r_inflated =
      fail_if floats linear (le r_inflated (lit 0 1) || not (is_finite r_inflated))
        (sensor_reading_invalid (codes "ml correction noise must be positive finite"))

  -- `update_ml_correction`
  unfoldable pub update_ml_correction :
      Vector F → F → M (Ekf F Matrix) (EstimationError F) (Unit {0})
  unfolding check_divergence ekf_update_generic check_quaternion_norm
  update_ml_correction correction r_inflated = do
    ensure check_divergence
    ensure (λ _. validate_noise r_inflated)
    ekf_update_generic (identity 21) correction (scale (identity 21) r_inflated)
    check_norm

  -- What `predict` makes of the state, up to its last test.
  unfoldable pub predicted :
      Matrix → F → ImuReading F → EstimatorState F Matrix → EstimatorState F Matrix
  unfolding propagate_attitude renormalize_quaternion propagate_position_velocity
      state_transition_jacobian propagate_covariance
  predicted noise dt imu s =
      let x = s.x in
      let accel_body =
        vector3 (sub (imu.accel 0) (x 13)) (sub (imu.accel 1) (x 14)) (sub (imu.accel 2) (x 15)) in
      let omega =
        vector3 (sub (imu.gyro 0) (x 16)) (sub (imu.gyro 1) (x 17)) (sub (imu.gyro 2) (x 18)) in
      let q_new = propagate_attitude (quaternion_of floats linear s) omega dt in
      let s = renormalize_quaternion (set_quaternion q_new s) in
      let s = propagate_position_velocity dt accel_body (lit 980_665 100_000) s in
      advance_time dt (propagate_covariance noise (state_transition_jacobian dt) dt s)

  -- `predict`
  unfoldable pub predict : F → ImuReading F → M (Ekf F Matrix) (EstimationError F) (Unit {0})
  unfolding validate_imu check_divergence predicted check_quaternion_norm
  predict dt imu = do
    ensure (λ _. validate_dt dt)
    ensure (λ _. validate_imu imu)
    ensure check_divergence
    (λ ekf. modify (predicted ekf.process_noise dt imu) ekf)
    check_norm

  abbrev pub gps_measured : GpsReading F → Vector F
  gps_measured gps = listed (lit 0 1) (
      gps.position 0
      ∷ gps.position 1
      ∷ gps.position 2
      ∷ gps.velocity 0
      ∷ gps.velocity 1
      ∷ gps.velocity 2
      ∷ gps.clock_bias
      ∷ [])

  -- `update_gps`
  unfoldable pub update_gps : GpsReading F → M (Ekf F Matrix) (EstimationError F) (Unit {0})
  unfolding validate_gps check_divergence gps_predicted gps_jacobian ekf_update_generic
      check_quaternion_norm
  update_gps gps = do
    ensure (λ _. validate_gps gps)
    ensure check_divergence
    (λ ekf.
        ekf_update_generic gps_jacobian (innovation (gps_measured gps) (gps_predicted ekf.state))
          ekf.gps_noise ekf)
    check_norm

  -- `update_baro`
  unfoldable pub update_baro : BarometerReading F → M (Ekf F Matrix) (EstimationError F) (Unit {0})
  unfolding validate_baro check_divergence baro_predicted baro_jacobian ekf_update_generic
      check_quaternion_norm
  update_baro baro = do
    ensure (λ _. validate_baro baro)
    ensure check_divergence
    (λ ekf.
        ekf_update_generic baro_jacobian
          (innovation (listed (lit 0 1) (baro.altitude ∷ baro.altitude_bias ∷ []))
            (baro_predicted ekf.state))
          ekf.baro_noise ekf)
    check_norm

  -- `propagate_uncertainty`
  unfoldable pub propagate_uncertainty : F → M (Ekf F Matrix) (EstimationError F) (Unit {0})
  unfolding check_divergence propagate_covariance state_transition_jacobian
  propagate_uncertainty dt = do
    ensure (λ _. validate_dt dt)
    ensure check_divergence
    (λ ekf.
        modify
          (λ s.
            advance_time dt
              (propagate_covariance ekf.process_noise (state_transition_jacobian dt) dt s))
          ekf)

  -- `sample`, by how many are left.
  unfoldable pub sample : ℕ → Ekf F Matrix → List (EstimatorState F Matrix)
  sample zero ekf = []
  sample (suc n) ekf =
      let s = ekf.state in
      record s { x = λ i. add (s.x i) (mul (sqrt (entry s.covariance i i)) (lit 1 10)) }
      ∷ sample n ekf
