-- ===== src/Gnc/Hybrid.antt =====
-- crates/themql-gnc/src/lib.rs: the controller that chooses between the other two.
use the_mql.Base.{if◌then◌else◌, Result, err}
use the_mql.Base.Floats.{Floats}
use the_mql.Gnc.{
  GncState, Setpoint, ActuatorCommand, ControllerKind, pid, lqri, hybrid, GncError, dt_not_positive,
}
use the_mql.Gnc.Controllers.{
  Nalgebra, HybridSwitchingPolicy, always_pid, always_lqri, lqri_with_pid_fallback,
  pid_with_lqri_outer, schedule, HybridController, dt_refused,
}
use the_mql.Gnc.Pid
use the_mql.Gnc.Lqri

module _ {F Matrix : Type 0} (floats : Floats F) (algebra : Nalgebra F Matrix) where
  -- `HybridController::resolve_kind`
  unfoldable pub resolve_kind : HybridSwitchingPolicy F Matrix → GncState F → ControllerKind
  resolve_kind always_pid state = pid
  resolve_kind always_lqri state = lqri
  resolve_kind (lqri_with_pid_fallback _) state = lqri
  resolve_kind (pid_with_lqri_outer _) state = pid
  resolve_kind (schedule f) state = f state

  abbrev pub step_of :
      ControllerKind
      → HybridController F Matrix
      → GncState F
      → Setpoint F
      → F
      → Result (GncError F) (ActuatorCommand F)
  step_of pid c = Pid.step floats algebra c.pid_controller
  step_of hybrid c = Pid.step floats algebra c.pid_controller
  step_of lqri c = Lqri.step floats algebra c.lqri_controller

  -- `Controller::step`
  unfoldable pub step :
      HybridController F Matrix
      → GncState F
      → Setpoint F
      → F
      → Result (GncError F) (ActuatorCommand F)
  unfolding resolve_kind Pid.step Lqri.step
  step c state setpoint dt =
      if dt_refused floats dt
      then err (dt_not_positive dt)
      else step_of (resolve_kind c.policy state) c state setpoint dt
