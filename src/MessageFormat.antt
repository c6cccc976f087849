-- ===== src/MessageFormat.antt =====
-- crates/themql-message/src/lib.rs: `JsonSerializer` and `MessageError`. The crate `serde_json` is a
-- parameter; the names that the crate passes on are those of Core.
use the_mql.Base.{ℕ, List, ◌++◌, Result, map_err}
use the_mql.Base.Text.{Text, codes}
use the_mql.Core.Error.{Error, transport_error}
use the_mql.Core.Message.{Message}
use the_mql.Core.Query.{FormatTag, format_tag_text}

pub data MessageError : Type 0 where
  serialization_error deserialization_error : Text → MessageError
  unsupported_format : FormatTag → MessageError
  payload_mismatch : MessageError

-- The `#[error("…")]` texts.
unfoldable pub message_error_text : MessageError → Text
unfolding format_tag_text
message_error_text (serialization_error e) = codes "serialization error: " ++ e
message_error_text (deserialization_error e) = codes "deserialization error: " ++ e
message_error_text (unsupported_format format) =
    codes "unsupported format: " ++ format_tag_text format
message_error_text payload_mismatch = codes "payload mismatch"

-- `From<MessageError> for Error`
unfoldable pub error_of_message_error : {J U : Type 0} → MessageError → Error J U
unfolding transport_error message_error_text
error_of_message_error e = transport_error (message_error_text e)

-- `serde_json::to_vec` and `from_slice` on messages; an error is its text.
pub record SerdeJson (J U : Type 0) : Type 0 where
  pub to_vec : Message J U → Result Text (List ℕ)
  pub from_slice : List ℕ → Result Text (Message J U)

module _ {J U : Type 0} (serde : SerdeJson J U) where
  -- `JsonSerializer::serialize`, which does not look at the format.
  unfoldable pub serialize : Message J U → FormatTag → Result MessageError (List ℕ)
  serialize msg format = map_err serialization_error (serde.to_vec msg)

  -- `JsonSerializer::deserialize`
  unfoldable pub deserialize : List ℕ → FormatTag → Result MessageError (Message J U)
  deserialize bytes format = map_err deserialization_error (serde.from_slice bytes)
