-- ===== src/Core/Context.antt =====
-- crates/themql-core/src/lib.rs: `CacheTier`, `InvalidationHint`, `CachePolicy`, `Cancellation`,
-- `Principal` and `Context`. A `Duration` is its number of nanoseconds.
use the_mql.Base.{ℕ, Bool, true, false, Option, none, some, List}
use the_mql.Base.Text.{Text}
use the_mql.Core.Identity.{TraceId}
use the_mql.Core.Pattern.{SubjectPattern}
use the_mql.Core.Time.{Deadline}

abbrev pub Duration : Type 0
Duration = ℕ

pub data CacheTier : Type 0 where
  l1 l2 l3 l4 : CacheTier

pub data InvalidationHint : Type 0 where
  on_subject_change : SubjectPattern → InvalidationHint
  after_ttl : Duration → InvalidationHint
  explicit : InvalidationHint

pub record CachePolicy : Type 0 where
  pub enabled : Bool
  pub ttl : Option Duration
  pub tier_hint : Option CacheTier
  pub bypass : Bool
  pub invalidation_hint : Option InvalidationHint

-- `CachePolicy::new` and `Default`
abbrev pub default_policy : CachePolicy
default_policy = record {
  enabled = true;
  ttl = none;
  tier_hint = none;
  bypass = false;
  invalidation_hint = none;
}

-- `CachePolicy::disabled`
abbrev pub disabled_policy : CachePolicy
disabled_policy = record {
  enabled = false;
  ttl = none;
  tier_hint = none;
  bypass = false;
  invalidation_hint = none;
}

unfoldable pub with_ttl : CachePolicy → Duration → CachePolicy
with_ttl policy ttl = record policy { ttl = some ttl }

unfoldable pub with_tier : CachePolicy → CacheTier → CachePolicy
with_tier policy tier = record policy { tier_hint = some tier }

unfoldable pub with_bypass : CachePolicy → Bool → CachePolicy
with_bypass policy bypass = record policy { bypass = bypass }

pub record Cancellation : Type 0 where
  pub cancelled : Bool

abbrev pub new_cancellation : Cancellation
new_cancellation = record { cancelled = false }

unfoldable pub is_cancelled : Cancellation → Bool
is_cancelled c = c.cancelled

unfoldable pub cancel : Cancellation → Cancellation
cancel c = record c { cancelled = true }

pub record Principal : Type 0 where
  pub id : Text
  pub scopes : List Text

pub record Context (U : Type 0) : Type 0 where
  pub deadline : Option Deadline
  pub principal : Option Principal
  pub trace_id : Option (TraceId U)
  pub cache_policy : CachePolicy
  pub cancellation : Cancellation

module _ {U : Type 0} where
  -- `Context::new`
  abbrev pub new_context : Context U
  new_context = record {
    deadline = none;
    principal = none;
    trace_id = none;
    cache_policy = default_policy;
    cancellation = new_cancellation;
  }

  unfoldable pub with_deadline : Context U → Deadline → Context U
  with_deadline ctx d = record ctx { deadline = some d }

  unfoldable pub with_principal : Context U → Principal → Context U
  with_principal ctx p = record ctx { principal = some p }

  unfoldable pub with_trace : Context U → TraceId U → Context U
  with_trace ctx t = record ctx { trace_id = some t }

  unfoldable pub with_cache_policy : Context U → CachePolicy → Context U
  with_cache_policy ctx p = record ctx { cache_policy = p }
