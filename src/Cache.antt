-- ===== src/Cache.antt =====
-- crates/themql-cache/src/lib.rs: cache entries, hits and errors; the tiers and their orchestrator
-- are the children.
use the_mql.Base.{ℕ, Bool, Option, none, some, List, ◌++◌}
use the_mql.Base.Text.{Text, codes}
use the_mql.Core.Context.{CacheTier, Duration}
use the_mql.Core.Error.{Error, internal_error, transport_error, validation_error}
use the_mql.Core.Query.{ResponseValue}
use the_mql.Core.Subject.{SubjectError, subject_error_text}
use the_mql.Core.Time.{Timestamp}
pub mod Tiers
pub mod Tiered
pub mod Writes
pub mod Reading
pub mod Invalidation
pub mod Unindexed
pub mod Hidden
mod Tests

pub record CacheEntry (J : Type 0) : Type 0 where
  pub value : ResponseValue J
  pub inserted_at : Timestamp
  pub ttl : Option Duration
  pub source_tier : CacheTier
  pub etag : Option Text

pub data CacheHit (J : Type 0) : Type 0 where
  hit : CacheEntry J → CacheTier → CacheHit J
  miss : CacheHit J

pub data CacheError : Type 0 where
  tier_unavailable : CacheTier → CacheError
  deserialization_error serialization_error : Text → CacheError
  invalid_policy : CacheError
  pattern_invalid : SubjectError → CacheError

-- `{:?}` of a tier.
abbrev tier_text : CacheTier → Text
tier_text CacheTier.l1 = codes "L1"
tier_text CacheTier.l2 = codes "L2"
tier_text CacheTier.l3 = codes "L3"
tier_text CacheTier.l4 = codes "L4"

-- The `#[error("…")]` texts.
unfoldable pub cache_error_text : CacheError → Text
unfolding subject_error_text
cache_error_text (tier_unavailable tier) = codes "cache tier unavailable: " ++ tier_text tier
cache_error_text (deserialization_error e) = codes "cache deserialization error: " ++ e
cache_error_text (serialization_error e) = codes "cache serialization error: " ++ e
cache_error_text invalid_policy = codes "invalid cache policy"
cache_error_text (pattern_invalid e) = codes "invalid subject pattern: " ++ subject_error_text e

-- `From<CacheError> for CoreError`
unfoldable pub error_of_cache_error : {J U : Type 0} → CacheError → Error J U
unfolding internal_error transport_error validation_error cache_error_text
error_of_cache_error (tier_unavailable tier) =
    internal_error (cache_error_text (tier_unavailable tier))
error_of_cache_error (deserialization_error e) =
    transport_error (cache_error_text (deserialization_error e))
error_of_cache_error (serialization_error e) =
    transport_error (cache_error_text (serialization_error e))
error_of_cache_error invalid_policy = validation_error (cache_error_text invalid_policy)
error_of_cache_error (pattern_invalid e) = validation_error (cache_error_text (pattern_invalid e))
