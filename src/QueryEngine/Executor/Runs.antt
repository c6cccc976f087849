-- ===== src/QueryEngine/Executor/Runs.antt =====
-- crates/themql-query/src/lib.rs: every way in which an execution can go, as a relation between a state
-- and the outcome with the state that is left.
use the_mql.Base.{
  true, false, Option, none, some, Result, ok, err, ◌≡◌, ◌⊎◌, inl, inr, refl, sym, ◌∙◌, subst,
  arith, Bool-cases, Option-cases, Result-cases,
}
use the_mql.Base.Effects.{continue, ◌>>=◌}
use the_mql.Base.Int.{ℤ, pos, ◌≤ℤ◌, leb_ℤ}
use the_mql.Base.Text.{codes}
use the_mql.Core.Context.{Context, is_cancelled}
use the_mql.Core.Error.{Error, timeout}
use the_mql.Core.Query.{Query, Response}
use the_mql.Core.Time.{
  TimestampKind, Deadline, monotonic, wall_clock, now_monotonic, is_expired, kind_eq,
}
use the_mql.QueryEngine.Key.{key}
use the_mql.QueryEngine.Executor.{
  QueryCache, DefaultQueryExecutor, past_deadline, read_cache, write_cache, resolve_through, answer,
  execute,
}
pub mod Exact

-- A deadline of the monotonic clock that is not after zero.
abbrev pub IsDue : Deadline → Type 0
IsDue d = (d.kind ≡ monotonic) × (d.nanos_since_epoch ≤ℤ pos 0)

-- No deadline, or one of the wall clock, or one after zero.
abbrev pub IsOnTime : Option Deadline → Type 0
IsOnTime none = Unit
IsOnTime (some d) = (d.kind ≡ wall_clock) ⊎ (pos 1 ≤ℤ d.nanos_since_epoch)

kind_cases :
    (k : TimestampKind) (n : ℤ)
    → let d : Deadline = record { kind = k; nanos_since_epoch = n } in
      (IsDue d × (past_deadline (some d) now_monotonic ≡ true))
      ⊎ (IsOnTime (some d) × (past_deadline (some d) now_monotonic ≡ false))
unfolding past_deadline is_expired now_monotonic kind_eq
kind_cases wall_clock n = inr (inl refl, refl)
kind_cases monotonic n = elim (Bool-cases (leb_ℤ n (pos 0))) [
  | inl h ↦ inl ((refl, ground arith), h)
  | inr h ↦ inr (inr (ground arith), h)
]

-- A deadline is past at the timestamp that `now_monotonic` returns exactly if it is due.
deadline_cases :
    (o : Option Deadline)
    → ((d : Deadline) × (o ≡ some d) × IsDue d × (past_deadline o now_monotonic ≡ true))
      ⊎ (IsOnTime o × (past_deadline o now_monotonic ≡ false))
deadline_cases none = inr (tt, unfold past_deadline in refl)
deadline_cases (some d) = elim (kind_cases d.kind d.nanos_since_epoch) [
  | inl (due, h) ↦ inl (d, refl, due, h)
  | inr h ↦ inr h
]

module _ {J U W : Type 0} (exec : DefaultQueryExecutor J U W) (query : Query J U)
    (ctx : Context U) where
  -- Neither a cancelled context nor a deadline stops the execution.
  abbrev pub IsOpen : Type 0
  IsOpen = (is_cancelled ctx.cancellation ≡ false) × IsOnTime ctx.deadline

  -- What is known from the cache before the query is resolved, and the state then: nothing, where
  -- there is no cache or the policy does not let it be read; else what the cache answers.
  pub data Looked (w : W) : Result (Error J U) (Option (Response J U)) → W → Type 0 where
    no_cache : exec.cache ≡ none → Looked w (ok none) w
    unread :
        (ctx.cache_policy.enabled ≡ false) ⊎ (ctx.cache_policy.bypass ≡ true) → Looked w (ok none) w
    looked_up :
        (cache : QueryCache J U W) {r : Result (Error J U) (Option (Response J U))} {w₁ : W}
        → exec.cache ≡ some cache
        → ctx.cache_policy.enabled ≡ true
        → ctx.cache_policy.bypass ≡ false
        → cache.get (key exec.keyer query) w ≡ (r, w₁)
        → Looked w r w₁

  -- The state after a response was offered to the cache: whether the write fails does not matter.
  pub data Offered (response : Response J U) (w : W) : W → Type 0 where
    not_there : exec.cache ≡ none → Offered response w w
    disabled : ctx.cache_policy.enabled ≡ false → Offered response w w
    put_back :
        (cache : QueryCache J U W)
        → exec.cache ≡ some cache
        → ctx.cache_policy.enabled ≡ true
        → Offered response w (cache.put (key exec.keyer query) response w).1

  -- An execution from a state, its outcome and the state that it leaves.
  pub data Runs (w : W) : Result (Error J U) (Response J U) → W → Type 0 where
    cancelled : is_cancelled ctx.cancellation ≡ true → Runs w (err (timeout (codes "cancelled"))) w
    expired :
        {d : Deadline}
        → is_cancelled ctx.cancellation ≡ false
        → ctx.deadline ≡ some d
        → IsDue d
        → Runs w (err (timeout (codes "deadline expired"))) w
    lookup_failed : {e : Error J U} {w₁ : W} → IsOpen → Looked w (err e) w₁ → Runs w (err e) w₁
    hit :
        {response : Response J U} {w₁ : W}
        → IsOpen
        → Looked w (ok (some response)) w₁
        → Runs w (ok response) w₁
    unresolved :
        {e : Error J U} {w₁ w₂ : W}
        → IsOpen
        → Looked w (ok none) w₁
        → exec.resolver query ctx w₁ ≡ (err e, w₂)
        → Runs w (err e) w₂
    resolved :
        {response : Response J U} {w₁ w₂ w₃ : W}
        → IsOpen
        → Looked w (ok none) w₁
        → exec.resolver query ctx w₁ ≡ (ok response, w₂)
        → Offered response w₂ w₃
        → Runs w (ok response) w₃

  read_cache-Looked :
      (w : W)
      → (r : Result (Error J U) (Option (Response J U))) × (w₁ : W) × (read_cache exec query ctx w
          ≡ (r, w₁))
        × Looked w r w₁
  unfolding read_cache
  read_cache-Looked w = elim (Option-cases exec.cache) [
    | inl n ↦ (ok none, w, rw n, no_cache n)
    | inr (cache, c) ↦ elim (Bool-cases ctx.cache_policy.enabled) [
      | inr off ↦ (ok none, w, rw (c, off), unread (inl off))
      | inl on ↦ elim (Bool-cases ctx.cache_policy.bypass) [
        | inl b ↦ (ok none, w, rw (c, on, b), unread (inr b))
        | inr b ↦ (_, _, rw (c, on, b), looked_up cache c on b refl)
      ]
    ]
  ]

  write_cache-Offered :
      (response : Response J U) (w : W)
      → (w₁ : W) × (write_cache exec query ctx response w ≡ (ok tt, w₁)) × Offered response w w₁
  unfolding write_cache
  write_cache-Offered response w = elim (Option-cases exec.cache) [
    | inl n ↦ (w, rw n, not_there n)
    | inr (cache, c) ↦ elim (Bool-cases ctx.cache_policy.enabled) [
      | inr off ↦ (w, rw (c, off), disabled off)
      | inl on ↦ (_, rw (c, on), put_back cache c on)
    ]
  ]

  -- Past the guards: what the cache knows, or what the resolver makes of the query.
  answered-Runs :
      (w w₁ : W) (r : Result (Error J U) (Option (Response J U)))
      → IsOpen
      → Looked w r w₁
      → (out : Result (Error J U) (Response J U)) × (last : W) × (continue
            (answer (resolve_through exec query ctx))
            r
            w₁
          ≡ (out, last))
        × Runs w out last
  unfolding resolve_through
  answered-Runs w w₁ (err e) o l = (err e, w₁, refl, lookup_failed o l)
  answered-Runs w w₁ (ok (some response)) o l = (ok response, w₁, refl, hit o l)
  answered-Runs w w₁ (ok none) o l =
      let (outcome, w₂) = exec.resolver query ctx w₁ in
      elim (Result-cases outcome) [
        | inr (e, f) ↦
            let failed : exec.resolver query ctx w₁ ≡ (err e, w₂) = λ i. (f i, w₂) in
            (err e, w₂, rw failed, unresolved o l failed)
        | inl (response, f) ↦
            let made : exec.resolver query ctx w₁ ≡ (ok response, w₂) = λ i. (f i, w₂) in
            let (w₃, wrote, offered) = write_cache-Offered response w₂ in
            (ok response, w₃, rw (made, wrote), resolved o l made offered)
      ]

  opened-Runs :
      (w : W)
      → IsOpen
      → (out : Result (Error J U) (Response J U)) × (last : W) × ((read_cache exec query ctx
              >>= answer (resolve_through exec query ctx))
            w
          ≡ (out, last))
        × Runs w out last
  opened-Runs w o =
      let (r, w₁, looked, l) = read_cache-Looked w in
      let (out, last, same, run) = answered-Runs w w₁ r o l in (out, last, rw looked same, run)

  pub opened :
      (w : W)
      → is_cancelled ctx.cancellation ≡ false
      → past_deadline ctx.deadline now_monotonic ≡ false
      → execute exec query ctx w
        ≡ (read_cache exec query ctx >>= answer (resolve_through exec query ctx)) w
  unfolding execute
  opened w c p = rw (c, p)

  executed :
      (w : W)
      → (out : Result (Error J U) (Response J U)) × (last : W) × (execute exec query ctx w
          ≡ (out, last))
        × Runs w out last
  unfolding execute
  executed w = elim (Bool-cases (is_cancelled ctx.cancellation)) [
    | inl c ↦ (err (timeout (codes "cancelled")), w, rw c, cancelled c)
    | inr c ↦ elim (deadline_cases ctx.deadline) [
      | inl (d, there, due, p) ↦
          (err (timeout (codes "deadline expired")), w, rw (c, p), expired c there due)
      | inr (o, p) ↦
          let (out, last, same, run) = opened-Runs w (c, o) in (out, last, opened w c p ∙ same, run)
    ]
  ]

  -- Every execution goes in one of these ways.
  pub execute-Runs : (w : W) → Runs w (execute exec query ctx w).0 (execute exec query ctx w).1
  execute-Runs w =
      let (out, last, same, run) = executed w in subst (λ p. Runs w p.0 p.1) (sym same) run
