-- ===== src/Sse.antt =====
-- crates/themql-sse/src/lib.rs: `SseEvent` and `SseError`; the wire format, the replay log and the
-- publisher are the children.
use the_mql.Base.{ℕ, Option, none, some, List, [], ◌++◌, Result, map_err, ◌>>=◌, ok, err}
use the_mql.Base.Text.{Text, codes}
use the_mql.Core.Error.{Error, transport_error}
pub mod Handler
pub mod Log
pub mod Publisher
pub mod Wire
mod Tests

-- A `u32` is a number here; no operation does arithmetic on it.
pub record SseEvent : Type 0 where
  pub id : Option Text
  pub event : Option Text
  pub payload : Text
  pub retry : Option ℕ

-- `SseEvent::from_data`
abbrev pub from_data : Text → SseEvent
from_data payload = record { id = none; event = none; payload = payload; retry = none }

unfoldable pub with_id : SseEvent → Text → SseEvent
with_id e id = record e { id = some id }

unfoldable pub with_event : SseEvent → Text → SseEvent
with_event e event = record e { event = some event }

unfoldable pub with_retry : SseEvent → ℕ → SseEvent
with_retry e retry = record e { retry = some retry }

pub data SseError : Type 0 where
  connection_closed timed_out client_disconnected : SseError
  serialization_error internal_failure : Text → SseError

-- The `#[error("…")]` texts.
unfoldable pub sse_error_text : SseError → Text
sse_error_text connection_closed = codes "sse connection closed"
sse_error_text (serialization_error e) = codes "sse serialization error: " ++ e
sse_error_text timed_out = codes "sse timeout"
sse_error_text client_disconnected = codes "sse client disconnected"
sse_error_text (internal_failure e) = codes "sse internal error: " ++ e

-- `From<SseError> for Error`
unfoldable pub error_of_sse_error : {J U : Type 0} → SseError → Error J U
unfolding transport_error sse_error_text
error_of_sse_error e = transport_error (sse_error_text e)
