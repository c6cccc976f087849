-- ===== src/Runtime/Tests.antt =====
-- crates/themql-runtime/src/lib.rs: runs of a token, whose `Notify` counts the calls that woke all.
use the_mql.Base.{ℕ, ◌+◌, ◌≤◌, [], ◌∷◌, true, ltb, ◌≡◌, refl, ◌↔◌, arith}
use the_mql.Runtime.{Notify, returned, awaiting, store, notify, turn, act, run, start}
use the_mql.Runtime.Wakeup.{Wakes, cancelled-returns_iff}

abbrev counter : Notify ℕ ℕ
counter = record {
  fresh = 0;
  notified = λ n. n;
  notify_waiters = λ n. n + 1;
  is_ready = λ n t. ltb t n;
}

counter-Wakes : Wakes counter
counter-Wakes = record {
  IsIssued = λ n t. t ≤ n;
  issues = λ n. omega arith;
  keeps = λ n t h. omega arith;
  wakes = λ n t h. ground arith;
}

-- The waiter sleeps for as long as nothing is cancelled, and the flag alone does not wake it.
asleep :
    (run counter (turn ∷ turn ∷ turn ∷ turn ∷ store ∷ turn ∷ []) (start counter)).waiter
    ≡ awaiting 0
unfolding run start
asleep = refl

cancelled-returns_iff_example :
    (act counter turn (
        act counter turn
          (run counter (turn ∷ turn ∷ store ∷ notify ∷ turn ∷ []) (start counter)))).waiter
      ≡ returned
    ↔ (run counter (turn ∷ turn ∷ store ∷ notify ∷ turn ∷ []) (start counter)).token.cancelled
      ≡ true
unfolding run start
cancelled-returns_iff_example =
    cancelled-returns_iff counter-Wakes (turn ∷ turn ∷ store ∷ notify ∷ turn ∷ []) refl
