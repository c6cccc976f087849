-- ===== src/Runtime/Wakeup.antt =====
-- crates/themql-runtime/src/lib.rs: no wake-up of a waiter is lost, whatever the order of the threads.
use the_mql.Base.{
  ℕ, zero, suc, ◌+◌, true, List, [], ◌∷◌, ◌≡◌, refl, ◌↔◌, subst, arith, Bool-cases, inl, inr,
}
use the_mql.Runtime.{
  Notify, CancellationToken, Waiter, entered, looping, woken, returned, holding, awaiting, System,
  Action, store, notify, turn, store_flag, notify_all, notify_pending, advance, act, run, start,
}

-- What tokio says of `notify_waiters`: it wakes every future that was made before, polled or not.
pub record Wakes {N Ticket : Type 0} (tokio : Notify N Ticket) : Type 1 where
  pub IsIssued : N → Ticket → Type 0
  pub issues : (n : N) → IsIssued n (tokio.notified n)
  pub keeps : (n : N) (t : Ticket) → IsIssued n t → IsIssued (tokio.notify_waiters n) t
  pub wakes : (n : N) (t : Ticket) → IsIssued n t → tokio.is_ready (tokio.notify_waiters n) t ≡ true

module _ {N Ticket : Type 0} {tokio : Notify N Ticket} (laws : Wakes tokio) where
  open laws use {IsIssued, issues, keeps, wakes}

  -- A future that is awaited is ready once the flag is stored and every such call has notified.
  Fits : CancellationToken N → ℕ → Waiter Ticket → Type 0
  Fits token pending entered = Unit {0}
  Fits token pending looping = Unit {0}
  Fits token pending woken = Unit {0}
  Fits token pending returned = token.cancelled ≡ true
  Fits token pending (holding t) = IsIssued token.notify t
  Fits token pending (awaiting t) =
      IsIssued token.notify t
      × (token.cancelled ≡ true → pending ≡ 0 → tokio.is_ready token.notify t ≡ true)

  advance-Fits :
      (token : CancellationToken N) (pending : ℕ) (w : Waiter Ticket)
      → Fits token pending w
      → Fits token pending (advance tokio token w)
  unfolding Fits advance
  advance-Fits token p looping h = issues token.notify
  advance-Fits token p returned h = h
  advance-Fits token p entered h = elim (Bool-cases token.cancelled) [
    | inl c ↦ rw c refl
    | inr c ↦ rw c tt
  ]
  advance-Fits token p woken h = elim (Bool-cases token.cancelled) [
    | inl c ↦ rw c refl
    | inr c ↦ rw c tt
  ]
  advance-Fits token p (holding t) h = elim (Bool-cases token.cancelled) [
    | inl c ↦ rw c refl
    | inr c ↦ rw c (h, λ d _. cc)
  ]
  advance-Fits token p (awaiting t) h = elim (Bool-cases (tokio.is_ready token.notify t)) [
    | inl r ↦ rw r tt
    | inr r ↦ rw r h
  ]

  store-Fits :
      (token : CancellationToken N) (pending : ℕ) (w : Waiter Ticket)
      → Fits token pending w
      → Fits (store_flag tokio token) (pending + 1) w
  unfolding Fits store_flag
  store-Fits token p entered h = tt
  store-Fits token p looping h = tt
  store-Fits token p woken h = tt
  store-Fits token p returned h = refl
  store-Fits token p (holding t) h = h
  store-Fits token p (awaiting t) (i, _) = (i, λ _ none. absurd (omega arith))

  notify-Fits :
      (token : CancellationToken N) (pending left : ℕ) (w : Waiter Ticket)
      → Fits token pending w
      → Fits (notify_all tokio token) left w
  unfolding Fits notify_all
  notify-Fits token p q entered h = tt
  notify-Fits token p q looping h = tt
  notify-Fits token p q woken h = tt
  notify-Fits token p q returned h = h
  notify-Fits token p q (holding t) h = keeps token.notify t h
  notify-Fits token p q (awaiting t) (i, _) =
      (keeps token.notify t i, λ _ _. wakes token.notify t i)

  notify_pending-Fits :
      (n : ℕ) (s : System N Ticket)
      → n ≡ s.pending
      → Fits s.token s.pending s.waiter
      → (let s₁ = notify_pending tokio n s in Fits s₁.token s₁.pending s₁.waiter)
  unfolding notify_pending
  notify_pending-Fits zero s e h = h
  notify_pending-Fits (suc n) s e h = notify-Fits s.token s.pending n s.waiter h

  run-Fits :
      (actions : List Action) (s : System N Ticket)
      → Fits s.token s.pending s.waiter
      → (let s₁ = run tokio actions s in Fits s₁.token s₁.pending s₁.waiter)
  unfolding run act
  run-Fits [] s h = h
  run-Fits (store ∷ actions) s h = run-Fits actions _ (store-Fits s.token s.pending s.waiter h)
  run-Fits (notify ∷ actions) s h = run-Fits actions _ (notify_pending-Fits s.pending s refl h)
  run-Fits (turn ∷ actions) s h = run-Fits actions _ (advance-Fits s.token s.pending s.waiter h)

  returns_soon :
      (token : CancellationToken N) (w : Waiter Ticket)
      → Fits token 0 w
      → token.cancelled ≡ true
      → advance tokio token (advance tokio token w) ≡ returned
  unfolding Fits advance
  returns_soon token entered h c = rw c refl
  returns_soon token looping h c = rw c refl
  returns_soon token woken h c = rw c refl
  returns_soon token returned h c = refl
  returns_soon token (holding t) h c = rw c refl
  returns_soon token (awaiting t) (_, ready) c = rw (ready c refl, c) refl

  start-Fits : Fits (start tokio).token (start tokio).pending (start tokio).waiter
  unfolding Fits start
  start-Fits = tt

  -- After any order of the statements of any number of calls of `cancel` and of the steps of one call
  -- of `cancelled`, on a new token: if no call of `cancel` stands between its two statements, then
  -- two more steps end the call of `cancelled` exactly if the token is cancelled.
  pub cancelled-returns_iff :
      (actions : List Action)
      → (run tokio actions (start tokio)).pending ≡ 0
      → (act tokio turn (act tokio turn (run tokio actions (start tokio)))).waiter ≡ returned
        ↔ (run tokio actions (start tokio)).token.cancelled ≡ true
  unfolding act Fits
  cancelled-returns_iff actions none =
      let s = run tokio actions (start tokio) in
      let fits : Fits s.token s.pending s.waiter = run-Fits actions (start tokio) start-Fits in
      let later = advance-Fits s.token s.pending _ (advance-Fits s.token s.pending s.waiter fits) in
      (
        λ e. subst (Fits s.token s.pending) e later,
        returns_soon s.token s.waiter (subst (λ p. Fits s.token p s.waiter) none fits),
      )
