-- ===== src/QueryEngine/Executor.antt =====
-- crates/themql-query/src/lib.rs: `QueryError`, `QueryCache` and `DefaultQueryExecutor`. The resolver
-- and the cache are traits, here functions that may change a state `W` and fail; the state is what
-- their implementations keep.
use the_mql.Base.{
  Bool, true, false, not, ◌&&◌, Option, none, some, Result, ok, err, if◌then◌else◌, ◌++◌,
}
use the_mql.Base.Effects.{M, return, throw, ◌>>=◌, ◌>>◌, discard}
use the_mql.Base.Text.{codes}
use the_mql.Core.Context.{CachePolicy, Cancellation, is_cancelled, Context}
use the_mql.Core.Error.{Error, error_text, timeout, internal_error}
use the_mql.Core.Query.{Query, Response}
use the_mql.Core.Time.{Deadline, Timestamp, now_monotonic, is_expired}
use the_mql.QueryEngine.Key.{Encoding, CacheKey, key}
pub mod Runs
pub mod Caching

pub data QueryError (J U : Type 0) : Type 0 where
  deadline_expired cancelled cache_lookup_failed batch_dispatch_failed : QueryError J U
  resolver_returned : Error J U → QueryError J U

-- `From<QueryError> for Error`
unfoldable pub error_of_query_error : {J U : Type 0} → QueryError J U → Error J U
unfolding timeout internal_error
error_of_query_error deadline_expired = timeout (codes "deadline expired")
error_of_query_error cancelled = timeout (codes "cancelled")
error_of_query_error cache_lookup_failed = internal_error (codes "cache lookup failed")
error_of_query_error batch_dispatch_failed = internal_error (codes "batch dispatch failed")
error_of_query_error (resolver_returned e) = e

pub record QueryCache (J U W : Type 0) : Type 0 where
  pub get : CacheKey → M W (Error J U) (Option (Response J U))
  pub put : CacheKey → Response J U → M W (Error J U) (Unit {0})

pub record DefaultQueryExecutor (J U W : Type 0) : Type 0 where
  pub resolver : Query J U → Context U → M W (Error J U) (Response J U)
  pub cache : Option (QueryCache J U W)
  pub keyer : Encoding J

-- `deadline.is_expired(&now)`, of a deadline that may be absent.
unfoldable pub past_deadline : Option Deadline → Timestamp → Bool
past_deadline none now = false
past_deadline (some deadline) now = is_expired deadline now

module _ {J U W : Type 0} where
  -- The read of the cache: `none` also where there is no cache, or the policy forbids the read.
  unfoldable pub read_cache :
      DefaultQueryExecutor J U W → Query J U → Context U → M W (Error J U) (Option (Response J U))
  read_cache exec query ctx = elim exec.cache [
    | none ↦ return none
    | some cache ↦
        if ctx.cache_policy.enabled && not ctx.cache_policy.bypass
        then cache.get (key exec.keyer query)
        else return none
  ]

  -- The write-through: the outcome of the write is ignored.
  unfoldable pub write_cache :
      DefaultQueryExecutor J U W → Query J U → Context U → Response J U → M W (Error J U) (Unit {0})
  write_cache exec query ctx response = elim exec.cache [
    | none ↦ return tt
    | some cache ↦
        if ctx.cache_policy.enabled
        then discard (cache.put (key exec.keyer query) response)
        else return tt
  ]

  -- What follows a miss.
  unfoldable pub resolve_through :
      DefaultQueryExecutor J U W → Query J U → Context U → M W (Error J U) (Response J U)
  unfolding write_cache
  resolve_through exec query ctx = do
    response ← exec.resolver query ctx
    write_cache exec query ctx response
    return response

  abbrev pub answer :
      M W (Error J U) (Response J U) → Option (Response J U) → M W (Error J U) (Response J U)
  answer miss (some response) = return response
  answer miss none = miss

  -- `DefaultQueryExecutor::execute`
  unfoldable pub execute :
      DefaultQueryExecutor J U W → Query J U → Context U → M W (Error J U) (Response J U)
  unfolding read_cache resolve_through past_deadline is_cancelled timeout
  execute exec query ctx =
      if is_cancelled ctx.cancellation
      then throw (timeout (codes "cancelled"))
      else if past_deadline ctx.deadline now_monotonic
      then throw (timeout (codes "deadline expired"))
      else (do hit ← read_cache exec query ctx; answer (resolve_through exec query ctx) hit)
