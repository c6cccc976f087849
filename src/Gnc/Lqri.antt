-- ===== src/Gnc/Lqri.antt =====
-- crates/themql-gnc/src/lib.rs: the LQRI controller. `step` works on a clone of the controller.
use the_mql.Base.{ℕ, List, [], ◌∷◌, if◌then◌else◌, Result, ok, err}
use the_mql.Base.Floats.{Floats}
use the_mql.Gnc.{
  GncState, Setpoint, ActuatorCommand, GncError, quaternion_not_unit_norm, dt_not_positive,
  zero_vector,
}
use the_mql.Gnc.Controllers.{Nalgebra, LqriMatrices, LqriController, dt_refused}

module _ {F Matrix : Type 0} (floats : Floats F) (algebra : Nalgebra F Matrix) where
  open floats use {is_finite}
  open algebra use {minus, plus, scale, norm, times, plus_column}

  -- `LqriController::new`
  unfoldable pub new : LqriMatrices Matrix → LqriController F Matrix
  new matrices = record { matrices = matrices; integral_state = zero_vector floats }

  -- `LqriController::pack_state`
  unfoldable pub pack_state : GncState F → List F
  pack_state state =
      state.position.x ∷ state.position.y ∷ state.position.z ∷ state.velocity.x ∷ state.velocity.y
      ∷ state.velocity.z ∷ state.attitude.w ∷ state.attitude.i ∷ state.attitude.j ∷ state.attitude.k
      ∷ state.angular_velocity.x ∷ state.angular_velocity.y ∷ state.angular_velocity.z
      ∷ state.accelerometer_bias.x ∷ state.accelerometer_bias.y ∷ state.accelerometer_bias.z
      ∷ state.gyroscope_bias.x ∷ state.gyroscope_bias.y ∷ state.gyroscope_bias.z
      ∷ state.baro_altitude_bias ∷ state.gps_clock_bias ∷ []

  -- The loop that copies the column to the actuators.
  abbrev pub copied : (ℕ → F) → List F
  copied u = u 0 ∷ u 1 ∷ u 2 ∷ u 3 ∷ u 4 ∷ u 5 ∷ u 6 ∷ u 7 ∷ []

  -- `LqriController::step_mut`
  unfoldable pub step_mut :
      LqriController F Matrix
      → GncState F
      → Setpoint F
      → F
      → Result (GncError F) (ActuatorCommand F) × LqriController F Matrix
  unfolding pack_state
  step_mut c state setpoint dt =
      let error = minus setpoint.target_position state.position in
      let integ = plus c.integral_state (scale error dt) in
      let u =
        plus_column (times c.matrices.feedback (pack_state state))
          (times c.matrices.integral_action (integ.x ∷ integ.y ∷ integ.z ∷ [])) in
      if dt_refused floats dt
      then (err (dt_not_positive dt), c)
      else (ok (record { values = copied u }), record c { integral_state = integ })

  -- `Controller::step`
  unfoldable pub step :
      LqriController F Matrix
      → GncState F
      → Setpoint F
      → F
      → Result (GncError F) (ActuatorCommand F)
  unfolding step_mut
  step c state setpoint dt =
      if is_finite (norm state.attitude)
      then (step_mut c state setpoint dt).0
      else err (quaternion_not_unit_norm (norm state.attitude))
