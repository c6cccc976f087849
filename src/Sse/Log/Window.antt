-- ===== src/Sse/Log/Window.antt =====
-- crates/themql-sse/src/lib.rs: the bounded log against the whole history of a subject.
use the_mql.Base.{
  ℕ, zero, suc, ◌+◌, ◌-◌, ◌≤◌, ◌<◌, true, false, some, List, [], ◌∷◌, ◌++◌, append-nil,
  append_assoc, length, length-append, drop, leb, ◌≡◌, sym, ap, ◌∙◌, arith, All, Bool-cases, inl,
  inr,
}
use the_mql.Base.Slices.{drop-append, drop-drop, length-drop, drop_past}
use the_mql.Base.Text.{Text}
use the_mql.Sse.{SseEvent}
use the_mql.Sse.Log.{replay_log_capacity, push, has_id, position, replay_after}

full_le : {n : ℕ} → leb 256 n ≡ true → 256 ≤ n
full_le h = ground arith

room_lt : {n : ℕ} → leb 256 n ≡ false → n < 256
room_lt h = ground arith

module _ {A : Type 0} where
  -- The last `n` of a history.
  abbrev pub recent : ℕ → List A → List A
  recent n xs = drop (length xs - n) xs

  -- The log after the events were pushed, the first of them onto a given log.
  abbrev pub push_all : List A → List A → List A
  push_all log [] = log
  push_all log (e ∷ events) = push_all (push e log) events

  recent-append :
      (xs ys : List A)
      → length xs + length ys - 256 ≤ length xs
      → recent 256 (xs ++ ys) ≡ drop (length xs + length ys - 256) xs ++ ys
  recent-append xs ys h =
      ap (λ n. drop (n - 256) (xs ++ ys)) (length-append xs ys) ∙ drop-append _ xs ys h

  pub push-recent : (e : A) (xs : List A) → push e (recent 256 xs) ≡ recent 256 (xs ++ e ∷ [])
  unfolding push
  push-recent e xs =
      let n = length xs in
      let size : length (drop (n - 256) xs) ≡ n - (n - 256) = length-drop (n - 256) xs in
      elim (Bool-cases (leb 256 (length (drop (n - 256) xs)))) [
        | inl full ↦
            rw (full, drop-drop 1 (n - 256) xs)
              (sym (
                recent-append xs (e ∷ []) (omega arith)
                ∙ ap (λ k. drop k xs ++ e ∷ []) (omega (arith, size, full_le full))))
        | inr room ↦ rw room (
            sym (
              recent-append xs (e ∷ []) (omega arith)
              ∙ ap (λ k. drop k xs ++ e ∷ []) (omega (arith, size, room_lt room))))
      ]

push_all-recent_from :
    {A : Type 0} (past events : List A)
    → push_all (recent 256 past) events ≡ recent 256 (past ++ events)
push_all-recent_from past [] = ap (recent 256) (sym (append-nil past))
push_all-recent_from past (e ∷ events) =
    ap (λ l. push_all l events) (push-recent e past)
    ∙ push_all-recent_from (past ++ e ∷ []) events
    ∙ ap (recent 256) (append_assoc past (e ∷ []) events)

-- The log of a subject is the last 256 events of its whole history, in their order.
pub push_all-recent :
    {A : Type 0} (events : List A) → push_all [] events ≡ recent replay_log_capacity events
push_all-recent events = push_all-recent_from [] events

module _ (last_id : Text) where
  position-append :
      (xs ys : List SseEvent) (e : SseEvent)
      → All (λ x. has_id last_id x ≡ false) xs
      → has_id last_id e ≡ true
      → position last_id (xs ++ e ∷ ys) ≡ some (length xs)
  unfolding position
  position-append [] ys e h k = rw k
  position-append (x ∷ xs) ys e h k = rw (h.0, position-append xs ys e h.1 k)

  All-drop :
      (k : ℕ) (xs : List SseEvent)
      → All (λ x. has_id last_id x ≡ false) xs
      → All (λ x. has_id last_id x ≡ false) (drop k xs)
  All-drop zero xs h = h
  All-drop (suc k) [] h = tt
  All-drop (suc k) (x ∷ xs) h = All-drop k xs h.1

  replay_found :
      (xs ys : List SseEvent) (e : SseEvent)
      → All (λ x. has_id last_id x ≡ false) xs
      → has_id last_id e ≡ true
      → replay_after last_id (xs ++ e ∷ ys) ≡ ys
  unfolding replay_after
  replay_found xs ys e h k = rw (position-append xs ys e h k) (drop_past xs ys e)

  -- If the event with the last identifier that a client saw is the first with it, and fewer than 256
  -- events came after it, then the replay from the log is exactly the events after it in the history.
  pub replay_after-push_all :
      (past later : List SseEvent) (e : SseEvent)
      → All (λ x. has_id last_id x ≡ false) past
      → has_id last_id e ≡ true
      → length later < replay_log_capacity
      → replay_after last_id (push_all [] (past ++ e ∷ later)) ≡ later
  replay_after-push_all past later e h k room =
      let size : length (e ∷ later) ≤ 256 = omega arith in
      let window =
        push_all-recent (past ++ e ∷ later) ∙ recent-append past (e ∷ later) (omega arith) in
      ap (replay_after last_id) window
      ∙ replay_found (drop (length past + length (e ∷ later) - 256) past) later e
          (All-drop _ past h) k
