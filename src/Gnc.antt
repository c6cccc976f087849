-- ===== src/Gnc.antt =====
-- crates/themql-gnc/src/lib.rs: the state, the setpoints, the commands, the errors, and the health
-- check of a controller. Numbers are a parameter, and so are the operations of `nalgebra`.
use the_mql.Base.{
  ℕ, zero, suc, ◌+◌, Bool, true, false, not, List, [], ◌∷◌, ◌++◌, if◌then◌else◌, Result, ok, err,
}
use the_mql.Base.Decimal.{decimal}
use the_mql.Base.Floats.{Floats}
use the_mql.Base.Results.{◌>>◌}
use the_mql.Base.Text.{Text, codes}
use the_mql.Core.Error.{Error, internal_error}
pub mod Controllers
pub mod Pid
pub mod Lqri
pub mod Hybrid
pub mod Health
pub mod Windup
pub mod Refusal
mod Tests

pub record Vector3 (F : Type 0) : Type 0 where
  pub x : F
  pub y : F
  pub z : F

pub record Quaternion (F : Type 0) : Type 0 where
  pub w : F
  pub i : F
  pub j : F
  pub k : F

pub record GncState (F : Type 0) : Type 0 where
  pub position : Vector3 F
  pub velocity : Vector3 F
  pub attitude : Quaternion F
  pub angular_velocity : Vector3 F
  pub accelerometer_bias : Vector3 F
  pub gyroscope_bias : Vector3 F
  pub baro_altitude_bias : F
  pub gps_clock_bias : F

pub record Setpoint (F : Type 0) : Type 0 where
  pub target_position : Vector3 F
  pub target_velocity : Vector3 F
  pub target_attitude : Quaternion F
  pub target_angular_velocity : Vector3 F

-- `values` has 8 elements.
pub record ActuatorCommand (F : Type 0) : Type 0 where
  pub values : List F

pub data ControllerKind : Type 0 where
  pid lqri hybrid : ControllerKind

pub data GncError (F : Type 0) : Type 0 where
  state_invalid setpoint_invalid internal_failure health_check_failed : Text → GncError F
  quaternion_not_unit_norm dt_not_positive : F → GncError F
  actuator_saturation : GncError F

module _ {F : Type 0} (floats : Floats F) where
  open floats use {lit, display, is_finite, magnitude, lt, add, sub, mul, sqrt}

  abbrev pub zero_vector : Vector3 F
  zero_vector = record { x = lit 0 1; y = lit 0 1; z = lit 0 1 }

  -- `UnitQuaternion::identity`
  abbrev pub identity : Quaternion F
  identity = record { w = lit 1 1; i = lit 0 1; j = lit 0 1; k = lit 0 1 }

  -- `GncState::new`
  unfoldable pub new_state : GncState F
  new_state = record {
    position = zero_vector;
    velocity = zero_vector;
    attitude = identity;
    angular_velocity = zero_vector;
    accelerometer_bias = zero_vector;
    gyroscope_bias = zero_vector;
    baro_altitude_bias = lit 0 1;
    gps_clock_bias = lit 0 1;
  }

  -- `Setpoint::new`
  unfoldable pub new_setpoint : Setpoint F
  new_setpoint = record {
    target_position = zero_vector;
    target_velocity = zero_vector;
    target_attitude = identity;
    target_angular_velocity = zero_vector;
  }

  -- `ActuatorCommand::zero`
  unfoldable pub zero_command : ActuatorCommand F
  zero_command = let o = lit 0 1 in record { values = o ∷ o ∷ o ∷ o ∷ o ∷ o ∷ o ∷ o ∷ [] }

  -- The `#[error("…")]` texts.
  unfoldable pub gnc_error_text : GncError F → Text
  gnc_error_text (state_invalid reason) = codes "invalid state: " ++ reason
  gnc_error_text (quaternion_not_unit_norm norm) =
      codes "quaternion not unit norm: " ++ display norm
  gnc_error_text actuator_saturation = codes "actuator saturation"
  gnc_error_text (dt_not_positive dt) = codes "dt not positive: " ++ display dt
  gnc_error_text (setpoint_invalid reason) = codes "invalid setpoint: " ++ reason
  gnc_error_text (internal_failure reason) = codes "internal gnc error: " ++ reason
  gnc_error_text (health_check_failed reason) = codes "controller health check failed: " ++ reason

  -- `From<GncError> for themql_core::Error`
  unfoldable pub error_of_gnc_error : {J U : Type 0} → GncError F → Error J U
  unfolding gnc_error_text internal_error
  error_of_gnc_error e = internal_error (gnc_error_text e)

  abbrev pub max_actuator_magnitude : F
  max_actuator_magnitude = lit 100 1

  abbrev pub at : Text → ℕ → Text
  at name i = name ++ codes "[" ++ decimal i ++ codes "]"

  -- `if test { return Err(HealthCheckFailed { reason }) }`
  abbrev pub fail_if : Bool → Text → Result (GncError F) (Unit {0})
  fail_if test reason = if test then err (health_check_failed reason) else ok tt

  abbrev pub check_actuator : ℕ → F → Result (GncError F) (Unit {0})
  check_actuator i v =
      fail_if (not (is_finite v)) (at (codes "actuator") i ++ codes " not finite: " ++ display v)
      >> fail_if (lt max_actuator_magnitude (magnitude v)) (
          at (codes "actuator") i
          ++ codes " saturated: "
          ++ display v
          ++ codes " > "
          ++ display max_actuator_magnitude)

  -- The loop over the actuators, from the one of index `i`.
  unfoldable pub check_actuators : ℕ → List F → Result (GncError F) (Unit {0})
  check_actuators i [] = ok tt
  check_actuators i (v ∷ values) = check_actuator i v >> check_actuators (i + 1) values

  -- A round of the loop over the axes.
  abbrev pub check_axis : ℕ → F → F → F → Result (GncError F) (Unit {0})
  check_axis i p v a =
      fail_if (not (is_finite p)) (at (codes "position") i ++ codes " not finite")
      >> fail_if (not (is_finite v)) (at (codes "velocity") i ++ codes " not finite")
      >> fail_if (not (is_finite a)) (at (codes "angular_velocity") i ++ codes " not finite")

  abbrev pub q_norm : Quaternion F → F
  q_norm q = sqrt (add (add (add (mul q.w q.w) (mul q.i q.i)) (mul q.j q.j)) (mul q.k q.k))

  -- `ControllerHealth::check`
  unfoldable pub check : GncState F → ActuatorCommand F → Result (GncError F) (Unit {0})
  unfolding check_actuators
  check state cmd =
      check_actuators 0 cmd.values
      >> check_axis 0 state.position.x state.velocity.x state.angular_velocity.x
      >> check_axis 1 state.position.y state.velocity.y state.angular_velocity.y
      >> check_axis 2 state.position.z state.velocity.z state.angular_velocity.z
      >> fail_if (lt (lit 1 1_000_000) (magnitude (sub (q_norm state.attitude) (lit 1 1))))
          (codes "quaternion norm " ++ display (q_norm state.attitude) ++ codes " not unit")
