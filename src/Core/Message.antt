-- ===== src/Core/Message.antt =====
-- crates/themql-core/src/lib.rs: `Operation`, `Payload`, `Metadata` and `Message`. The map of
-- extensions is the association list of a `BTreeMap`, sorted by its keys.
use the_mql.Base.{
  ℕ, Bool, true, false, Option, none, some, List, [], ◌∷◌, Result, ok, err, ◌>>=◌, ltb, ◌==◌,
  if◌then◌else◌,
}
use the_mql.Base.Text.{Text, codes, text_eq}
use the_mql.Core.Context.{Principal}
use the_mql.Core.Identity.{MessageId, CorrelationId, CausationId, TraceId}
use the_mql.Core.Query.{FormatTag}
use the_mql.Core.Subject.{Subject, SubjectError, parse_subject}
use the_mql.Core.Time.{Timestamp, now_monotonic}
pub mod Extensions

pub data Operation : Type 0 where
  query command event stream response telemetry error : Operation

-- `Display for Operation`
unfoldable pub operation_text : Operation → Text
operation_text query = codes "query"
operation_text command = codes "command"
operation_text event = codes "event"
operation_text stream = codes "stream"
operation_text response = codes "response"
operation_text telemetry = codes "telemetry"
operation_text error = codes "error"

pub data Payload (J : Type 0) : Type 0 where
  json_value : J → Payload J
  bytes : List ℕ → FormatTag → Payload J
  unit : Payload J

-- The order of `String`: by the first character that differs, a prefix first.
unfoldable pub text_lt : Text → Text → Bool
text_lt s [] = false
text_lt [] (d ∷ t) = true
text_lt (c ∷ s) (d ∷ t) = let rest = text_lt s t in if c == d then rest else ltb c d

module _ {V : Type 0} where
  -- `BTreeMap::insert`: the entries stay sorted, and an old value of the key is replaced.
  unfoldable pub insert : Text → V → List (Text × V) → List (Text × V)
  insert key value [] = (key, value) ∷ []
  insert key value ((k, v) ∷ entries) =
      if text_lt key k
      then (key, value) ∷ (k, v) ∷ entries
      else if text_eq key k
      then (key, value) ∷ entries
      else (k, v) ∷ insert key value entries

  -- `BTreeMap::get`
  unfoldable pub lookup : Text → List (Text × V) → Option V
  lookup key [] = none
  lookup key ((k, v) ∷ entries) = if text_eq key k then some v else lookup key entries

pub record Metadata (J U : Type 0) : Type 0 where
  pub correlation_id : Option (CorrelationId U)
  pub causation_id : Option (CausationId U)
  pub trace_id : Option (TraceId U)
  pub auth_principal : Option Principal
  pub format : Option FormatTag
  pub extensions : List (Text × J)

pub record Message (J U : Type 0) : Type 0 where
  pub id : MessageId U
  pub timestamp : Timestamp
  pub subject : Subject
  pub operation : Operation
  pub payload : Payload J
  pub metadata : Metadata J U

module _ {J U : Type 0} where
  -- `Metadata::new`
  abbrev pub new_metadata : Metadata J U
  new_metadata = record {
    correlation_id = none;
    causation_id = none;
    trace_id = none;
    auth_principal = none;
    format = none;
    extensions = [];
  }

  -- `with_correlation`, `with_causation`, `with_trace`, `with_extension`
  unfoldable pub with_correlation : Metadata J U → CorrelationId U → Metadata J U
  with_correlation m id = record m { correlation_id = some id }

  unfoldable pub with_causation : Metadata J U → CausationId U → Metadata J U
  with_causation m id = record m { causation_id = some id }

  unfoldable pub with_trace : Metadata J U → TraceId U → Metadata J U
  with_trace m id = record m { trace_id = some id }

  unfoldable pub with_extension : Metadata J U → Text → J → Metadata J U
  unfolding insert
  with_extension m key value = record m { extensions = insert key value m.extensions }

  -- `Message::new`; `fresh` is the value of `Uuid::now_v7`.
  unfoldable pub new_message : U → Text → Operation → Result SubjectError (Message J U)
  unfolding parse_subject
  new_message fresh subject_str operation = do
    subject ← parse_subject subject_str
    ok (record {
      id = record { uuid = fresh };
      timestamp = now_monotonic;
      subject = subject;
      operation = operation;
      payload = unit;
      metadata = new_metadata;
    })
