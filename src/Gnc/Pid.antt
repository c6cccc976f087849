-- ===== src/Gnc/Pid.antt =====
-- crates/themql-gnc/src/lib.rs: the PID controller. `step` works on a clone of the controller.
use the_mql.Base.{List, [], ◌∷◌, if◌then◌else◌, Result, ok, err}
use the_mql.Base.Floats.{Floats}
use the_mql.Base.Text.{codes}
use the_mql.Gnc.{
  Vector3, GncState, Setpoint, ActuatorCommand, GncError, state_invalid, dt_not_positive,
  zero_vector,
}
use the_mql.Gnc.Controllers.{Nalgebra, PidGains, PidController, max_integral, dt_refused}

module _ {F Matrix : Type 0} (floats : Floats F) (algebra : Nalgebra F Matrix) where
  open floats use {lit, add, sub, mul, div, neg, lt, is_finite}
  open algebra use {minus, norm}

  -- `PidController::new`
  unfoldable pub new : PidGains F → PidController F
  new gains = record {
    gains = gains;
    integral = zero_vector floats;
    prev_error = zero_vector floats;
  }

  -- `PidController::position_error`
  abbrev pub position_error : GncState F → Setpoint F → Vector3 F
  position_error state setpoint = minus setpoint.target_position state.position

  -- `PidController::saturate_integral`
  unfoldable pub saturate_integral : F → F → F → F
  saturate_integral current error dt =
      let acc = add current (mul error dt) in
      if lt (max_integral floats) acc
      then max_integral floats
      else if lt acc (neg (max_integral floats))
      then neg (max_integral floats)
      else acc

  -- `PidController::axis_output`, at the gains of the axis.
  unfoldable pub axis_output : F → F → F → F → F → F → F → F
  axis_output kp ki kd error integ prev dt =
      let d = if lt (lit 0 1) dt then div (mul kd (sub error prev)) dt else lit 0 1 in
      add (add (mul kp error) (mul ki integ)) d

  -- The integral after the round of each axis.
  abbrev pub integrate : Vector3 F → Vector3 F → F → Vector3 F
  integrate integral error dt = record {
    x = saturate_integral integral.x error.x dt;
    y = saturate_integral integral.y error.y dt;
    z = saturate_integral integral.z error.z dt;
  }

  -- The commands of the three axes; the other actuators get 0.
  abbrev pub outputs : PidGains F → Vector3 F → Vector3 F → Vector3 F → F → List F
  outputs g error integral prev dt =
      axis_output g.kp.x g.ki.x g.kd.x error.x integral.x prev.x dt
      ∷ axis_output g.kp.y g.ki.y g.kd.y error.y integral.y prev.y dt
      ∷ axis_output g.kp.z g.ki.z g.kd.z error.z integral.z prev.z dt
      ∷ lit 0 1
      ∷ lit 0 1
      ∷ lit 0 1
      ∷ lit 0 1
      ∷ lit 0 1
      ∷ []

  -- `PidController::step_mut`
  unfoldable pub step_mut :
      PidController F
      → GncState F
      → Setpoint F
      → F
      → Result (GncError F) (ActuatorCommand F) × PidController F
  unfolding saturate_integral axis_output
  step_mut c state setpoint dt =
      let error = position_error state setpoint in
      let integral = integrate c.integral error dt in
      if dt_refused floats dt then (err (dt_not_positive dt), c) else (
        ok (record { values = outputs c.gains error integral c.prev_error dt }),
        record c { integral = integral; prev_error = error },
      )

  -- `Controller::step`
  unfoldable pub step :
      PidController F → GncState F → Setpoint F → F → Result (GncError F) (ActuatorCommand F)
  unfolding step_mut
  step c state setpoint dt =
      if is_finite (norm state.attitude)
      then (step_mut c state setpoint dt).0
      else err (state_invalid (codes "attitude quaternion not finite"))
