-- ===== src/Gnc/Controllers.antt =====
-- crates/themql-gnc/src/lib.rs: the state of the PID, the LQRI and the hybrid controller.
use the_mql.Base.{ℕ, Bool, not, ◌||◌, List}
use the_mql.Base.Floats.{Floats}
use the_mql.Gnc.{Vector3, Quaternion, GncState, ControllerKind}

-- `nalgebra`: vectors, the norm of a quaternion, and products of matrices with columns. A column of
-- eight is a function from its indices.
pub record Nalgebra (F Matrix : Type 0) : Type 0 where
  pub minus : Vector3 F → Vector3 F → Vector3 F
  pub plus : Vector3 F → Vector3 F → Vector3 F
  pub scale : Vector3 F → F → Vector3 F
  pub norm : Quaternion F → F
  pub times : Matrix → List F → ℕ → F
  pub plus_column : (ℕ → F) → (ℕ → F) → ℕ → F

pub record PidGains (F : Type 0) : Type 0 where
  pub kp : Vector3 F
  pub ki : Vector3 F
  pub kd : Vector3 F

pub record PidController (F : Type 0) : Type 0 where
  pub gains : PidGains F
  pub integral : Vector3 F
  pub prev_error : Vector3 F

pub record LqriMatrices (Matrix : Type 0) : Type 0 where
  pub feedback : Matrix
  pub integral_action : Matrix
  pub state_cost : Matrix
  pub control_cost : Matrix

pub record LqriController (F Matrix : Type 0) : Type 0 where
  pub matrices : LqriMatrices Matrix
  pub integral_state : Vector3 F

pub data HybridSwitchingPolicy (F Matrix : Type 0) : Type 0 where
  always_pid always_lqri : HybridSwitchingPolicy F Matrix
  lqri_with_pid_fallback : PidGains F → HybridSwitchingPolicy F Matrix
  pid_with_lqri_outer : LqriMatrices Matrix → HybridSwitchingPolicy F Matrix
  schedule : (GncState F → ControllerKind) → HybridSwitchingPolicy F Matrix

pub record HybridController (F Matrix : Type 0) : Type 0 where
  pub policy : HybridSwitchingPolicy F Matrix
  pub pid_controller : PidController F
  pub lqri_controller : LqriController F Matrix

module _ {F : Type 0} (floats : Floats F) where
  open floats use {lit, le, is_finite}

  abbrev pub max_integral : F
  max_integral = lit 10 1

  -- `!dt.is_finite() || dt <= 0.0`
  abbrev pub dt_refused : F → Bool
  dt_refused dt = not (is_finite dt) || le dt (lit 0 1)
