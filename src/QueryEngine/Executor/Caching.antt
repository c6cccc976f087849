-- ===== src/QueryEngine/Executor/Caching.antt =====
-- crates/themql-query/src/lib.rs: how `execute` uses the cache.
use the_mql.Base.{true, false, none, some, ok, err, ◌≡◌, refl, arith, ap, ◌∙◌}
use the_mql.Base.Effects.{◌>>=◌}
use the_mql.Core.Context.{Context, is_cancelled}
use the_mql.Core.Error.{Error}
use the_mql.Core.Query.{Query, Response, Projection, with_projection}
use the_mql.Core.Time.{now_monotonic}
use the_mql.QueryEngine.Key.{CacheKey, Encoding, key}
use the_mql.QueryEngine.Executor.{
  QueryCache, DefaultQueryExecutor, past_deadline, read_cache, write_cache, resolve_through, answer,
  execute,
}

module _ {J U W : Type 0} (exec : DefaultQueryExecutor J U W) (query : Query J U) (ctx : Context U)
    (w : W) where
  -- `execute` passes its guards.
  abbrev pub IsLive : Type 0
  IsLive =
      (is_cancelled ctx.cancellation ≡ false) × (past_deadline ctx.deadline now_monotonic ≡ false)

  live :
      IsLive
      → execute exec query ctx w
        ≡ (read_cache exec query ctx >>= answer (resolve_through exec query ctx)) w
  unfolding execute
  live h = rw (h.0, h.1)

  -- When the guards pass and the policy disables caching, the outcome and the state are the
  -- resolver's: the cache is neither read nor written.
  pub execute_disabled :
      IsLive
      → ctx.cache_policy.enabled ≡ false
      → execute exec query ctx w ≡ exec.resolver query ctx w
  unfolding read_cache resolve_through
  execute_disabled h off = live h ∙ ground arith

  -- When the guards pass and the policy has the bypass flag, the cache is not read: `execute` is the
  -- resolver followed by the write-through.
  pub execute_bypass :
      IsLive
      → ctx.cache_policy.bypass ≡ true
      → execute exec query ctx w ≡ resolve_through exec query ctx w
  unfolding read_cache
  execute_bypass h on = live h ∙ ground arith

-- The cache is there, and the policy lets it be read and written.
pub record IsCached {J U W : Type 0} (exec : DefaultQueryExecutor J U W) (cache : QueryCache J U W)
    (ctx : Context U) : Type 0 where
  pub there : exec.cache ≡ some cache
  pub enabled : ctx.cache_policy.enabled ≡ true
  pub read : ctx.cache_policy.bypass ≡ false

module _ {J U W : Type 0} (exec : DefaultQueryExecutor J U W) (cache : QueryCache J U W)
    (query : Query J U) (ctx : Context U) (w : W) (h : IsLive exec query ctx w)
    (c : IsCached exec cache ctx) where
  reads : read_cache exec query ctx w ≡ cache.get (key exec.keyer query) w
  unfolding read_cache
  reads = rw (c.there, c.enabled, c.read)

  -- When the guards pass and the policy allows the cache, a hit is returned and the state is that after
  -- the read: the resolver is not called.
  pub execute_hit :
      (response : Response J U) (w₁ : W)
      → cache.get (key exec.keyer query) w ≡ (ok (some response), w₁)
      → execute exec query ctx w ≡ (ok response, w₁)
  execute_hit response w₁ hit = live exec query ctx w h ∙ rw (reads, hit)

  -- When the guards pass and the policy allows the cache, after a miss the response of a resolver that
  -- succeeds is returned, and the state is that after its write, whether the write failed or not.
  pub execute_miss :
      (response : Response J U) (w₁ w₂ : W)
      → cache.get (key exec.keyer query) w ≡ (ok none, w₁)
      → exec.resolver query ctx w₁ ≡ (ok response, w₂)
      → execute exec query ctx w ≡ (ok response, (cache.put (key exec.keyer query) response w₂).1)
  unfolding resolve_through write_cache
  execute_miss response w₁ w₂ miss resolved =
      live exec query ctx w h ∙ rw (reads, miss, resolved, c.there, c.enabled)

  -- When the guards pass and the policy allows the cache, an error of the resolver after a miss is
  -- returned as it is, and nothing is written.
  pub execute_resolver_error :
      (e : Error J U) (w₁ w₂ : W)
      → cache.get (key exec.keyer query) w ≡ (ok none, w₁)
      → exec.resolver query ctx w₁ ≡ (err e, w₂)
      → execute exec query ctx w ≡ (err e, w₂)
  unfolding resolve_through
  execute_resolver_error e w₁ w₂ miss failed = live exec query ctx w h ∙ rw (reads, miss, failed)

-- A query that differs in its projection only has the same cache key.
key-with_projection :
    {J U : Type 0} (enc : Encoding J) (query : Query J U) (p : Projection)
    → key enc (with_projection query p) ≡ key enc query
unfolding key with_projection
key-with_projection enc query p = refl

-- After an execution that missed the cache and resolved, with a cache that returns what was written,
-- an execution in the state left behind returns the same response and does not call the resolver,
-- also when the second query asks for another projection.
pub execute_again :
    {J U W : Type 0} (exec : DefaultQueryExecutor J U W) (cache : QueryCache J U W)
    (query : Query J U) (p : Projection) (ctx : Context U) (w w₁ w₂ : W) (response : Response J U)
    → ((k : CacheKey) (r : Response J U) (v : W)
        → (cache.get k (cache.put k r v).1).0 ≡ ok (some r))
    → IsLive exec query ctx w
    → IsCached exec cache ctx
    → cache.get (key exec.keyer query) w ≡ (ok none, w₁)
    → exec.resolver query ctx w₁ ≡ (ok response, w₂)
    → execute exec (with_projection query p) ctx (execute exec query ctx w).1
      ≡ (ok response, (cache.get (key exec.keyer query) (execute exec query ctx w).1).1)
execute_again exec cache query p ctx w w₁ w₂ response reads_back h c miss resolved =
    let w₃ = (execute exec query ctx w).1 in
    let written : w₃ ≡ (cache.put (key exec.keyer query) response w₂).1 =
      ap (λ t. t.1) (execute_miss exec cache query ctx w h c response w₁ w₂ miss resolved) in
    let found : (cache.get (key exec.keyer query) w₃).0 ≡ ok (some response) =
      rw written (reads_back (key exec.keyer query) response w₂) in
    execute_hit exec cache (with_projection query p) ctx w₃ h c response
      (cache.get (key exec.keyer query) w₃).1
      (rw (key-with_projection exec.keyer query p)
        (λ i. (found i, (cache.get (key exec.keyer query) w₃).1)))
