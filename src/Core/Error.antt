-- ===== src/Core/Error.antt =====
-- crates/themql-core/src/lib.rs: `Error`, with its constructors by code, its setters, its `Display`
-- and its conversion from `SubjectError`. `J` is `serde_json::Value`, `U` is `uuid::Uuid`.
use the_mql.Base.{Option, none, some, ◌++◌}
use the_mql.Base.Text.{Text, codes}
use the_mql.Core.ErrorCode.{ErrorCode, error_code_text}
use the_mql.Core.Identity.{CorrelationId, CausationId}
use the_mql.Core.Subject.{Subject, SubjectError, subject_error_text}

pub record Error (J U : Type 0) : Type 0 where
  pub code : ErrorCode
  pub message : Text
  pub subject : Option Subject
  pub correlation_id : Option (CorrelationId U)
  pub causation_id : Option (CausationId U)
  pub details : Option J

module _ {J U : Type 0} where
  -- `Error::new`
  abbrev pub new_error : ErrorCode → Text → Error J U
  new_error code message = record {
    code = code;
    message = message;
    subject = none;
    correlation_id = none;
    causation_id = none;
    details = none;
  }

  unfoldable pub transport_error : Text → Error J U
  transport_error msg = new_error ErrorCode.transport_error msg

  unfoldable pub resolver_error : Text → Error J U
  resolver_error msg = new_error ErrorCode.resolver_error msg

  unfoldable pub cache_miss : Text → Error J U
  cache_miss msg = new_error ErrorCode.cache_miss msg

  unfoldable pub validation_error : Text → Error J U
  validation_error msg = new_error ErrorCode.validation_error msg

  unfoldable pub timeout : Text → Error J U
  timeout msg = new_error ErrorCode.timeout msg

  unfoldable pub internal_error : Text → Error J U
  internal_error msg = new_error ErrorCode.internal_error msg

  -- `with_subject`, `with_correlation`, `with_causation`, `with_details`
  unfoldable pub with_subject : Error J U → Subject → Error J U
  with_subject e s = record e { subject = some s }

  unfoldable pub with_correlation : Error J U → CorrelationId U → Error J U
  with_correlation e id = record e { correlation_id = some id }

  unfoldable pub with_causation : Error J U → CausationId U → Error J U
  with_causation e id = record e { causation_id = some id }

  unfoldable pub with_details : Error J U → J → Error J U
  with_details e details = record e { details = some details }

  -- `Display for Error`
  unfoldable pub error_text : Error J U → Text
  error_text e = error_code_text e.code ++ (codes ": " ++ e.message)

  -- `From<SubjectError> for Error`
  unfoldable pub error_of_subject_error : SubjectError → Error J U
  unfolding validation_error
  error_of_subject_error e = validation_error (subject_error_text e)
