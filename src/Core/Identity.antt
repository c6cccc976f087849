-- ===== src/Core/Identity.antt =====
-- crates/themql-core/src/lib.rs: the identifiers of messages. The type of UUIDs, `U`, and the
-- generator `Uuid::now_v7`, whose value a caller passes in, belong to the `uuid` crate.
pub record MessageId (U : Type 0) : Type 0 where
  pub uuid : U

pub record CorrelationId (U : Type 0) : Type 0 where
  pub uuid : U

pub record CausationId (U : Type 0) : Type 0 where
  pub uuid : U

pub record TraceId (U : Type 0) : Type 0 where
  pub uuid : U

-- `CorrelationId::for_request`
unfoldable pub for_request : {U : Type 0} → MessageId U → CorrelationId U
for_request request = record { uuid = request.uuid }
