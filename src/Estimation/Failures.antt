-- ===== src/Estimation/Failures.antt =====
-- crates/themql-estimation/src/lib.rs: what an operation of the filter leaves, where it fails.
use the_mql.Base.{
  [], ◌∷◌, Option, none, some, Result, ok, err, ◌≡◌, ◌⊎◌, inl, inr, refl, Bool-cases, Result-cases,
}
use the_mql.Base.Effects.{M, ◌>>◌}
use the_mql.Base.Floats.{Floats}
use the_mql.Estimation.{
  Vector, Linear, EstimatorState, ImuReading, GpsReading, BarometerReading, EstimationError,
  quaternion_not_unit_norm, quaternion_of, check_quaternion_norm, quat_norm_tol,
}
use the_mql.Estimation.Ekf.{
  Ekf, ensure, modify, check_norm, correct_by, corrected, ekf_update_generic, predict, update_gps,
  update_baro, update_ml_correction, propagate_uncertainty, validate_dt, validate_imu, validate_gps,
  validate_baro, validate_noise, check_divergence, predicted, gps_jacobian, baro_jacobian,
  innovation, gps_measured, gps_predicted, baro_predicted, listed, advance_time,
  propagate_covariance, state_transition_jacobian,
}

-- The operations that change a filter, with their arguments.
pub data EkfOperation (F : Type 0) : Type 0 where
  predicts : F → ImuReading F → EkfOperation F
  reads_gps : GpsReading F → EkfOperation F
  reads_baro : BarometerReading F → EkfOperation F
  corrects : Vector F → F → EkfOperation F
  propagates : F → EkfOperation F

module _ {F Matrix : Type 0} (floats : Floats F) (linear : Linear F Matrix) where
  abbrev pub run : EkfOperation F → M (Ekf F Matrix) (EstimationError F) (Unit {0})
  run (predicts dt imu) = predict floats linear dt imu
  run (reads_gps gps) = update_gps floats linear gps
  run (reads_baro baro) = update_baro floats linear baro
  run (corrects correction r) = update_ml_correction floats linear correction r
  run (propagates dt) = propagate_uncertainty floats linear dt

  -- The outcome is an error and the filter as it was; or it is the error of the norm, of a new state;
  -- or it is a success, with a new state that passes the test of the norm or has the old vector.
  abbrev pub Cases : Ekf F Matrix → Result (EstimationError F) (Unit {0}) × Ekf F Matrix → Type 0
  Cases ekf r =
      ((e : EstimationError F) × (r ≡ (err e, ekf)))
      ⊎ (((s : EstimatorState F Matrix) × (r ≡ (
        err (quaternion_not_unit_norm (linear.norm4 (quaternion_of floats linear s))),
        record ekf { state = s },
      )))
          ⊎ ((s : EstimatorState F Matrix) × (r ≡ (ok tt, record ekf { state = s }))
              × ((check_quaternion_norm floats linear s ≡ ok tt) ⊎ (s.x ≡ ekf.state.x))))

  ensured :
      (test : Ekf F Matrix → Result (EstimationError F) (Unit {0}))
      (k : M (Ekf F Matrix) (EstimationError F) (Unit {0})) (ekf : Ekf F Matrix)
      → Cases ekf (k ekf)
      → Cases ekf ((ensure floats linear test >> k) ekf)
  ensured test k ekf c = elim (Result-cases (test ekf)) [
    | inl (tt, h) ↦ rw h c
    | inr (e, h) ↦ inl (e, rw h refl)
  ]

  guarded :
      (test : Ekf F Matrix → Result (EstimationError F) (Unit {0}))
      (k : M (Ekf F Matrix) (EstimationError F) (Unit {0})) (ekf : Ekf F Matrix)
      → Cases ekf (k ekf)
      → Cases ekf (
          (ensure floats linear test
              >> (ensure floats linear (check_divergence floats linear) >> k))
            ekf)
  guarded test k ekf c =
      ensured test (ensure floats linear (check_divergence floats linear) >> k) ekf
        (ensured (check_divergence floats linear) k ekf c)

  norm_check :
      (s : EstimatorState F Matrix)
      → (check_quaternion_norm floats linear s ≡ ok tt)
        ⊎ (check_quaternion_norm floats linear s
            ≡ err (quaternion_not_unit_norm (linear.norm4 (quaternion_of floats linear s))))
  unfolding check_quaternion_norm
  norm_check s =
      let norm = linear.norm4 (quaternion_of floats linear s) in
      elim (Bool-cases (
        floats.lt (quat_norm_tol floats linear)
          (floats.magnitude (floats.sub norm (floats.lit 1 1))))) [
            | inl e ↦ inr (rw e refl)
            | inr e ↦ inl (rw e refl)
          ]

  normed :
      (f : EstimatorState F Matrix → EstimatorState F Matrix) (ekf : Ekf F Matrix)
      → Cases ekf ((modify floats linear f >> check_norm floats linear) ekf)
  normed f ekf =
      let s = f ekf.state in
      elim (norm_check s) [
        | inl h ↦ inr (inr (s, rw h refl, inl h))
        | inr h ↦ inr (inl (s, rw h refl))
      ]

  correct_by-Cases :
      (h : Matrix) (y : Vector F) (r : Matrix) (inverse : Option Matrix) (ekf : Ekf F Matrix)
      → Cases ekf ((correct_by floats linear h y r inverse >> check_norm floats linear) ekf)
  correct_by-Cases h y r none ekf = inl (_, refl)
  correct_by-Cases h y r (some s_inv) ekf = normed (corrected floats linear h y r s_inv) ekf

  update-Cases :
      (h : Matrix) (y : Vector F) (r : Matrix) (ekf : Ekf F Matrix)
      → Cases ekf ((ekf_update_generic floats linear h y r >> check_norm floats linear) ekf)
  unfolding ekf_update_generic
  update-Cases h y r ekf = correct_by-Cases h y r _ ekf

  -- An operation of the filter fails and leaves it as it was, or fails on the norm of the quaternion of
  -- a new state that the filter keeps nevertheless, or succeeds with a new state, which passes that
  -- test or has the vector of the old one. The noise of the filter is never changed.
  pub run-Cases : (op : EkfOperation F) (ekf : Ekf F Matrix) → Cases ekf (run op ekf)
  unfolding predict update_gps update_baro update_ml_correction propagate_uncertainty predicted
      propagate_covariance
  run-Cases (predicts dt imu) ekf =
      let change : M (Ekf F Matrix) (EstimationError F) (Unit {0}) =
        λ w. modify floats linear (predicted floats linear w.process_noise dt imu) w in
      ensured (λ _. validate_dt floats linear dt)
        (ensure floats linear (λ _. validate_imu floats linear imu)
          >> (ensure floats linear (check_divergence floats linear)
              >> (change >> check_norm floats linear)))
        ekf
        (guarded (λ _. validate_imu floats linear imu) (change >> check_norm floats linear) ekf
          (normed (predicted floats linear ekf.process_noise dt imu) ekf))
  run-Cases (reads_gps gps) ekf =
      let h = gps_jacobian floats linear in
      let y : Ekf F Matrix → Vector F = λ w.
        innovation floats linear (gps_measured floats linear gps)
          (gps_predicted floats linear w.state) in
      guarded (λ _. validate_gps floats linear gps)
        ((λ w. ekf_update_generic floats linear h (y w) w.gps_noise w) >> check_norm floats linear)
        ekf (update-Cases h (y ekf) ekf.gps_noise ekf)
  run-Cases (reads_baro baro) ekf =
      let h = baro_jacobian floats linear in
      let y : Ekf F Matrix → Vector F = λ w.
        innovation floats linear (listed (floats.lit 0 1) (baro.altitude ∷ baro.altitude_bias ∷ []))
          (baro_predicted floats linear w.state) in
      guarded (λ _. validate_baro floats linear baro)
        ((λ w. ekf_update_generic floats linear h (y w) w.baro_noise w) >> check_norm floats linear)
        ekf (update-Cases h (y ekf) ekf.baro_noise ekf)
  run-Cases (corrects correction r) ekf =
      let one = linear.identity 21 in
      let update = ekf_update_generic floats linear one correction (linear.scale one r) in
      ensured (check_divergence floats linear)
        (ensure floats linear (λ _. validate_noise floats linear r)
          >> (update >> check_norm floats linear))
        ekf
        (ensured (λ _. validate_noise floats linear r) (update >> check_norm floats linear) ekf
          (update-Cases one correction (linear.scale one r) ekf))
  run-Cases (propagates dt) ekf =
      guarded (λ _. validate_dt floats linear dt)
        (λ w.
          modify floats linear
            (λ s. advance_time floats linear dt (
              propagate_covariance floats linear w.process_noise
                (state_transition_jacobian floats linear dt) dt s))
            w)
        ekf (inr (inr (_, refl, inr refl)))
