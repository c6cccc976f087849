-- ===== src/Estimation.antt =====
-- crates/themql-estimation/src/lib.rs: the state of the estimator, readings, errors and health checks.
-- Numbers are a parameter, and so are the matrices of `nalgebra`; a vector is a function from its
-- indices.
use the_mql.Base.{
  ℕ, zero, suc, ◌+◌, Bool, not, ◌||◌, Option, List, [], ◌∷◌, ◌++◌, ◌==◌, if◌then◌else◌, Result, ok,
  err, ◌>>◌,
}
use the_mql.Base.Decimal.{decimal}
use the_mql.Base.Floats.{Floats}
use the_mql.Base.Text.{Text, codes}
use the_mql.Core.Error.{Error, internal_error}
pub mod Ekf
pub mod Failures
mod Tests

abbrev pub Vector : Type 0 → Type 0
Vector F = ℕ → F

-- `cos`, `sin`, and `nalgebra`: the norm of four or of three components, the unit quaternion of one,
-- the rotation of a vector, and matrices.
pub record Linear (F Matrix : Type 0) : Type 0 where
  pub cos : F → F
  pub sin : F → F
  pub norm4 : Vector F → F
  pub norm3 : Vector F → F
  pub from_quaternion : Vector F → Vector F
  pub rotate : Vector F → Vector F → Vector F
  pub identity : ℕ → Matrix
  pub blank : ℕ → ℕ → Matrix
  pub plus : Matrix → Matrix → Matrix
  pub minus : Matrix → Matrix → Matrix
  pub times : Matrix → Matrix → Matrix
  pub scale : Matrix → F → Matrix
  pub transpose : Matrix → Matrix
  pub try_inverse : Matrix → Option Matrix
  pub times_vector : Matrix → Vector F → Vector F
  pub trace : Matrix → F
  pub entry : Matrix → ℕ → ℕ → F
  pub set_entry : Matrix → ℕ → ℕ → F → Matrix

pub record EstimatorState (F Matrix : Type 0) : Type 0 where
  pub x : Vector F
  pub covariance : Matrix
  pub t : F

pub record ImuReading (F : Type 0) : Type 0 where
  pub accel : Vector F
  pub gyro : Vector F

pub record GpsReading (F : Type 0) : Type 0 where
  pub position : Vector F
  pub velocity : Vector F
  pub clock_bias : F

pub record BarometerReading (F : Type 0) : Type 0 where
  pub altitude : F
  pub altitude_bias : F

pub data EstimationError (F : Type 0) : Type 0 where
  state_diverged quaternion_not_unit_norm dt_not_positive : F → EstimationError F
  sensor_reading_invalid internal_failure health_check_failed : Text → EstimationError F
  matrix_not_positive_definite : EstimationError F

-- `x[i] = v`
abbrev pub set_at : {F : Type 0} → ℕ → F → Vector F → Vector F
set_at i v x j = if j == i then v else x j

abbrev pub vector3 : {F : Type 0} → F → F → F → Vector F
vector3 a b c zero = a
vector3 a b c (suc zero) = b
vector3 a b c (suc (suc _)) = c

abbrev pub vector4 : {F : Type 0} → F → F → F → F → Vector F
vector4 a b c d zero = a
vector4 a b c d (suc i) = vector3 b c d i

module _ {F Matrix : Type 0} (floats : Floats F) (linear : Linear F Matrix) where
  open floats use {lit, add, sub, mul, div, magnitude, sqrt, lt, is_finite, display}

  abbrev pub quat_norm_tol : F
  quat_norm_tol = lit 1 1_000_000

  abbrev pub cov_trace_limit : F
  cov_trace_limit = lit 1_000_000_000_000 1

  abbrev pub max_innovation : F
  max_innovation = lit 1_000_000 1

  -- `EstimatorState::new`
  unfoldable pub new_state : EstimatorState F Matrix
  new_state = record {
    x = set_at 6 (lit 1 1) (λ i. lit 0 1);
    covariance = linear.identity 21;
    t = lit 0 1;
  }

  -- The quaternion of a state.
  abbrev pub quaternion_of : EstimatorState F Matrix → Vector F
  quaternion_of s = vector4 (s.x 6) (s.x 7) (s.x 8) (s.x 9)

  -- `EstimatorState::attitude`
  unfoldable pub attitude : EstimatorState F Matrix → Vector F
  attitude s =
      let q = quaternion_of s in
      let norm = linear.norm4 q in
      if lt norm quat_norm_tol
      then vector4 (lit 1 1) (lit 0 1) (lit 0 1) (lit 0 1)
      else linear.from_quaternion (λ i. div (q i) norm)

  -- `if test { return Err(e) }`
  abbrev pub fail_if : Bool → EstimationError F → Result (EstimationError F) (Unit {0})
  fail_if test e = if test then err e else ok tt

  -- `EstimatorState::check_quaternion_norm`
  unfoldable pub check_quaternion_norm :
      EstimatorState F Matrix → Result (EstimationError F) (Unit {0})
  check_quaternion_norm s =
      let norm = linear.norm4 (quaternion_of s) in
      fail_if (lt quat_norm_tol (magnitude (sub norm (lit 1 1)))) (quaternion_not_unit_norm norm)

  -- The `#[error("…")]` texts.
  unfoldable pub estimation_error_text : EstimationError F → Text
  estimation_error_text (state_diverged covariance_trace) =
      codes "state diverged: covariance trace " ++ display covariance_trace
  estimation_error_text (quaternion_not_unit_norm norm) =
      codes "quaternion not unit norm: " ++ display norm
  estimation_error_text (sensor_reading_invalid reason) = codes "invalid sensor reading: " ++ reason
  estimation_error_text matrix_not_positive_definite = codes "matrix not positive definite"
  estimation_error_text (dt_not_positive dt) = codes "dt not positive: " ++ display dt
  estimation_error_text (internal_failure reason) = codes "internal estimation error: " ++ reason
  estimation_error_text (health_check_failed reason) =
      codes "estimator health check failed: " ++ reason

  -- `From<EstimationError> for themql_core::Error`
  unfoldable pub error_of_estimation_error : {J U : Type 0} → EstimationError F → Error J U
  unfolding estimation_error_text internal_error
  error_of_estimation_error e = internal_error (estimation_error_text e)

  -- The loop over the components, from `i`, by how many are left.
  unfoldable pub check_components : Vector F → ℕ → ℕ → Result (EstimationError F) (Unit {0})
  check_components x zero i = ok tt
  check_components x (suc left) i =
      fail_if (not (is_finite (x i)))
        (health_check_failed (codes "state[" ++ decimal i ++ codes "] not finite"))
      >> check_components x left (i + 1)

  -- The loop over the diagonal.
  unfoldable pub check_diagonal : Matrix → ℕ → ℕ → Result (EstimationError F) (Unit {0})
  check_diagonal p zero i = ok tt
  check_diagonal p (suc left) i =
      fail_if (lt (linear.entry p i i) (lit 0 1)) (
        health_check_failed (
          codes "covariance diagonal P["
          ++ decimal i
          ++ codes ","
          ++ decimal i
          ++ codes "] negative"))
      >> check_diagonal p left (i + 1)

  abbrev pub q_norm : Vector F → F
  q_norm x =
      sqrt (add (add (add (mul (x 6) (x 6)) (mul (x 7) (x 7))) (mul (x 8) (x 8))) (mul (x 9) (x 9)))

  -- `EstimatorHealth::check_state`
  unfoldable pub check_state : EstimatorState F Matrix → Result (EstimationError F) (Unit {0})
  unfolding check_components check_diagonal
  check_state state =
      let trace = linear.trace state.covariance in
      check_components state.x 21 0
      >> fail_if (not (is_finite trace))
          (health_check_failed (codes "covariance trace not finite: " ++ display trace))
      >> fail_if (lt cov_trace_limit trace) (
          health_check_failed (
            codes "covariance trace "
            ++ display trace
            ++ codes " > limit "
            ++ display cov_trace_limit))
      >> check_diagonal state.covariance 21 0
      >> fail_if (lt (lit 1 1_000_000) (magnitude (sub (q_norm state.x) (lit 1 1)))) (
          health_check_failed
            (codes "quaternion norm " ++ display (q_norm state.x) ++ codes " not unit"))

  -- `EstimatorHealth::check_innovation`
  unfoldable pub check_innovation : F → Result (EstimationError F) (Unit {0})
  check_innovation innovation =
      fail_if (not (is_finite innovation))
        (health_check_failed (codes "innovation not finite: " ++ display innovation))
      >> fail_if (lt max_innovation (magnitude innovation)) (
          health_check_failed (
            codes "innovation "
            ++ display innovation
            ++ codes " exceeds gate "
            ++ display max_innovation))
