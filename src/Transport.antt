-- ===== src/Transport.antt =====
-- crates/themql-transport/src/lib.rs: the types of bridges and their errors. The trait `Bridge` has no
-- implementation in the repository.
use the_mql.Base.{Option, ◌++◌}
use the_mql.Base.Text.{Text, codes}
use the_mql.Core.Error.{Error, transport_error}
use the_mql.Core.Pattern.{SubjectPattern}
use the_mql.Core.Subject.{Subject}

pub data TransportKind : Type 0 where
  mqtt graphql sse : TransportKind

pub data SubjectRewrite : Type 0 where
  prefix replace : Subject → SubjectRewrite

pub record BridgeRoute : Type 0 where
  pub source : TransportKind
  pub target : TransportKind
  pub source_pattern : SubjectPattern
  pub target_subject : Option Subject
  pub rewrite : Option SubjectRewrite

pub data TransportError : Type 0 where
  source_closed loopback_forbidden : TransportError
  target_publish_failed subject_rewrite_failed serialization_error : Text → TransportError

-- The `#[error("…")]` texts.
unfoldable pub transport_error_text : TransportError → Text
transport_error_text source_closed = codes "source transport closed"
transport_error_text (target_publish_failed e) = codes "target publish failed: " ++ e
transport_error_text (subject_rewrite_failed e) = codes "subject rewrite failed: " ++ e
transport_error_text (serialization_error e) = codes "serialization error: " ++ e
transport_error_text loopback_forbidden =
    codes "loopback forbidden: a bridge may not route back to the source transport"

-- `From<TransportError> for CoreError`
unfoldable pub error_of_transport_error : {J U : Type 0} → TransportError → Error J U
unfolding transport_error transport_error_text
error_of_transport_error e = transport_error (transport_error_text e)
