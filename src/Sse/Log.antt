-- ===== src/Sse/Log.antt =====
-- crates/themql-sse/src/lib.rs: the replay log of `SubjectState`. Its channel is a part of the publisher.
use the_mql.Base.{
  ℕ, zero, suc, ◌+◌, ◌-◌, ◌≤◌, ◌<◌, Bool, true, false, Option, none, some, List, [], ◌∷◌, ◌++◌,
  length, drop, leb, if◌then◌else◌, ◌≡◌, refl, arith,
}
use the_mql.Base.Text.{Text, text_eq}
use the_mql.Sse.{SseEvent}
pub mod Window

abbrev pub replay_log_capacity : ℕ
replay_log_capacity = 256

-- `VecDeque::pop_front`, of which the element is dropped.
abbrev pub pop_front : {A : Type 0} → List A → List A
pop_front = drop 1

-- `SubjectState::push`
unfoldable pub push : {A : Type 0} → A → List A → List A
push event log = (if leb replay_log_capacity (length log) then pop_front log else log) ++ event ∷ []

-- `e.id.as_deref() == Some(last_id)`
unfoldable pub has_id : Text → SseEvent → Bool
has_id last_id e = elim e.id [ none ↦ false | some id ↦ text_eq id last_id ]

-- `position` with the test above.
unfoldable pub position : Text → List SseEvent → Option ℕ
unfolding has_id
position last_id [] = none
position last_id (e ∷ log) =
    let rest = position last_id log in
    if has_id last_id e then some 0 else elim rest [ none ↦ none | some p ↦ some (suc p) ]

-- `pos.map_or(0, |p| p + 1)`
abbrev pub start_at : Option ℕ → ℕ
start_at none = 0
start_at (some p) = p + 1

-- `SubjectState::replay_after`
unfoldable pub replay_after : Text → List SseEvent → List SseEvent
unfolding position
replay_after last_id log = drop (start_at (position last_id log)) log
