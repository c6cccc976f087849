-- ===== src/QueryEngine/Executor/Runs/Exact.antt =====
-- crates/themql-query/src/lib.rs: the relation of the executions is exactly what `execute` computes.
use the_mql.Base.{
  true, false, Option, none, some, Result, ok, ◌≡◌, ◌↔◌, inl, inr, refl, ◌∙◌, subst, arith,
}
use the_mql.Base.Effects.{continue}
use the_mql.Core.Context.{Context}
use the_mql.Core.Error.{Error}
use the_mql.Core.Query.{Query, Response}
use the_mql.Core.Time.{Deadline, now_monotonic, is_expired, kind_eq}
use the_mql.QueryEngine.Executor.{
  DefaultQueryExecutor, past_deadline, read_cache, write_cache, resolve_through, answer, execute,
}
use the_mql.QueryEngine.Executor.Runs.{
  IsDue, IsOnTime, IsOpen, Looked, Offered, Runs, no_cache, unread, looked_up, not_there, disabled,
  put_back, cancelled, expired, lookup_failed, hit, unresolved, resolved, opened, execute-Runs,
}

on_time : (o : Option Deadline) → IsOnTime o → past_deadline o now_monotonic ≡ false
unfolding past_deadline is_expired now_monotonic kind_eq
on_time none h = refl
on_time (some d) (inl e) = rw e
on_time (some d) (inr le) = ground arith

due : (d : Deadline) → IsDue d → past_deadline (some d) now_monotonic ≡ true
unfolding past_deadline is_expired now_monotonic kind_eq
due d (k, le) = rw k (ground arith)

module _ {J U W : Type 0} (exec : DefaultQueryExecutor J U W) (query : Query J U)
    (ctx : Context U) where
  Looked-read :
      {w w₁ : W} {r : Result (Error J U) (Option (Response J U))}
      → Looked exec query ctx w r w₁
      → read_cache exec query ctx w ≡ (r, w₁)
  unfolding read_cache
  Looked-read (no_cache n) = rw n
  Looked-read (unread b) = ground arith
  Looked-read (looked_up cache c on b got) = rw (c, on, b) got

  Offered-write :
      {w : W} {response : Response J U} {w₁ : W}
      → Offered exec query ctx response w w₁
      → write_cache exec query ctx response w ≡ (ok tt, w₁)
  unfolding write_cache
  Offered-write (not_there n) = rw n
  Offered-write (disabled off) = ground arith
  Offered-write (put_back cache c on) = rw (c, on)

  -- Past the guards, after the look in the cache.
  after_look :
      {w w₁ : W} {r : Result (Error J U) (Option (Response J U))}
      → IsOpen exec query ctx
      → Looked exec query ctx w r w₁
      → execute exec query ctx w ≡ continue (answer (resolve_through exec query ctx)) r w₁
  after_look o l = opened exec query ctx _ o.0 (on_time _ o.1) ∙ rw (Looked-read l)

  Runs-execute :
      {w last : W} {out : Result (Error J U) (Response J U)}
      → Runs exec query ctx w out last
      → execute exec query ctx w ≡ (out, last)
  unfolding execute resolve_through
  Runs-execute (cancelled c) = rw c
  Runs-execute (expired {d} c there h) = rw (c, there, due d h)
  Runs-execute (lookup_failed o l) = after_look o l
  Runs-execute (hit o l) = after_look o l
  Runs-execute (unresolved o l failed) = after_look o l ∙ rw failed
  Runs-execute (resolved o l made f) = after_look o l ∙ rw (made, Offered-write f)

  -- An execution from a state has an outcome and leaves a state exactly in these ways: it is refused
  -- without an effect, because the context is cancelled or its deadline is one of the monotonic clock
  -- that is not after zero (the clock that is read stands there, so that no other deadline expires); or
  -- the cache, where there is one and the policy lets it be read, fails or answers, and the resolver is
  -- not called; or the resolver's error is returned and nothing is written; or its response is
  -- returned, after it was offered to the cache under the key of the query if there is one and the
  -- policy is enabled, and whether that write failed does not matter.
  pub execute_iff :
      (w last : W) (out : Result (Error J U) (Response J U))
      → (execute exec query ctx w ≡ (out, last)) ↔ Runs exec query ctx w out last
  execute_iff w last out = (
    (λ e. subst (λ p. Runs exec query ctx w p.0 p.1) e (execute-Runs exec query ctx w)),
    Runs-execute,
  )
