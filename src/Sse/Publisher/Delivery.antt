-- ===== src/Sse/Publisher/Delivery.antt =====
-- crates/themql-sse/src/lib.rs: what a broadcast leaves for the clients of each subject.
use the_mql.Base.{
  true, false, List, [], ◌∷◌, ◌++◌, Result, ok, err, if◌then◌else◌, ◌≡◌, refl, sym, ◌∙◌, ap, arith,
  Bool-cases, inl, inr, append-nil, append_assoc, All, length, ◌<◌,
}
use the_mql.Base.Text.{Text, text_eq, text_eq_iff, text_eq_refl}
use the_mql.Core.Message.{Message}
use the_mql.Core.Subject.{Subject, subject_text}
use the_mql.Sse.{SseEvent, SseError}
use the_mql.Sse.Log
use the_mql.Sse.Log.{push, has_id, replay_log_capacity}
use the_mql.Sse.Log.Window.{recent, push-recent, push_all-recent, replay_after-push_all}
use the_mql.Sse.Publisher.{
  Channels, Texts, from_message, SubjectState, Subjects, state_for, set_state, new_state,
  replay_after, published, broadcast,
}

module _ {C R : Type 0} (channels : Channels C R) where
  state_for-set_state :
      (key j : Text) (s : SubjectState C) (subjects : Subjects C)
      → state_for channels j (set_state channels key s subjects)
        ≡ (if text_eq key j then s else state_for channels j subjects)
  unfolding state_for set_state
  state_for-set_state key j s [] = refl
  state_for-set_state key j s ((k, t) ∷ subjects) = ground (
    arith,
    text_eq_iff k key,
    text_eq_iff k j,
    text_eq_iff key j,
    state_for-set_state key j s subjects,
  )

  -- The state of a subject that was just entered.
  pub state_for-set_state_self :
      (key : Text) (s : SubjectState C) (subjects : Subjects C)
      → state_for channels key (set_state channels key s subjects) ≡ s
  state_for-set_state_self key s subjects =
      state_for-set_state key key s subjects ∙ rw (text_eq_refl key)

  module _ {J U : Type 0} (texts : Texts J U) where
    -- The broadcasts of a publisher, one after another; the outcomes are not looked at.
    abbrev pub broadcast_all : List (Subject × Message J U) → Subjects C → Subjects C
    broadcast_all [] subjects = subjects
    broadcast_all ((subject, msg) ∷ calls) subjects =
        broadcast_all calls (broadcast channels texts subject msg subjects).1

    -- The events of one subject, in the order of the broadcasts: each message that has a JSON form.
    abbrev pub event_of : Result SseError SseEvent → List SseEvent
    event_of (ok event) = event ∷ []
    event_of (err e) = []

    abbrev pub history : Text → List (Subject × Message J U) → List SseEvent
    history key [] = []
    history key ((subject, msg) ∷ calls) =
        (if text_eq (subject_text subject) key then event_of (from_message texts msg) else [])
        ++ history key calls

    published-log :
        (r : Result SseError SseEvent) (s : SubjectState C) (past : List SseEvent)
        → s.log ≡ recent 256 past
        → (published channels r s).log ≡ recent 256 (past ++ event_of r)
    unfolding published
    published-log (ok event) s past h = ap (push event) h ∙ push-recent event past
    published-log (err e) s past h = h ∙ ap (recent 256) (sym (append-nil past))

    log-broadcast :
        (subject : Subject) (msg : Message J U) (key : Text) (subjects : Subjects C)
        (past : List SseEvent)
        → (state_for channels key subjects).log ≡ recent 256 past
        → (state_for channels key (broadcast channels texts subject msg subjects).1).log
          ≡ recent 256 (
              past
              ++ (if text_eq (subject_text subject) key
                  then event_of (from_message texts msg)
                  else []))
    unfolding broadcast
    log-broadcast subject msg key subjects past h =
        elim (Bool-cases (text_eq (subject_text subject) key)) [
          | inl e ↦
              let same : subject_text subject ≡ key = (text_eq_iff _ _).0 e in
              rw
                (
                  state_for-set_state (subject_text subject) key
                      (published channels (from_message texts msg)
                        (state_for channels (subject_text subject) subjects))
                      subjects,
                  e,
                  same,
                )
                (published-log (from_message texts msg) (state_for channels key subjects) past h)
          | inr n ↦
              rw
                (
                  state_for-set_state (subject_text subject) key
                      (published channels (from_message texts msg)
                        (state_for channels (subject_text subject) subjects))
                      subjects,
                  n,
                  append-nil past,
                )
                h
        ]

    log-broadcast_all :
        (key : Text) (calls : List (Subject × Message J U)) (subjects : Subjects C)
        (past : List SseEvent)
        → (state_for channels key subjects).log ≡ recent 256 past
        → (state_for channels key (broadcast_all calls subjects)).log
          ≡ recent 256 (past ++ history key calls)
    log-broadcast_all key [] subjects past h = h ∙ ap (recent 256) (sym (append-nil past))
    log-broadcast_all key ((subject, msg) ∷ calls) subjects past h =
        let new =
          if text_eq (subject_text subject) key then event_of (from_message texts msg) else [] in
        log-broadcast_all key calls _ (past ++ new) (log-broadcast subject msg key subjects past h)
        ∙ ap (recent 256) (append_assoc past new (history key calls))

    -- After any broadcasts from a new publisher, the log of each subject is the last 256 events of that
    -- subject's own history: subjects do not disturb one another.
    pub log-recent :
        (subject : Subject) (calls : List (Subject × Message J U))
        → (state_for channels (subject_text subject) (broadcast_all calls [])).log
          ≡ recent replay_log_capacity (history (subject_text subject) calls)
    unfolding state_for new_state
    log-recent subject calls = log-broadcast_all (subject_text subject) calls [] [] refl

    -- After any broadcasts from a new publisher: if the event with the last identifier that a client saw
    -- is the first with it in the history of the subject, and fewer than 256 events of the subject came
    -- after it, the replay is exactly those, in their order.
    pub replay_after-broadcast_all :
        (subject : Subject) (last_id : Text) (calls : List (Subject × Message J U))
        (past later : List SseEvent) (e : SseEvent)
        → history (subject_text subject) calls ≡ past ++ e ∷ later
        → All (λ x. has_id last_id x ≡ false) past
        → has_id last_id e ≡ true
        → length later < replay_log_capacity
        → (replay_after channels subject last_id (broadcast_all calls [])).0 ≡ ok later
    unfolding replay_after
    replay_after-broadcast_all subject last_id calls past later e split fresh seen room =
        ap (λ l. ok (Log.replay_after last_id l))
          (log-recent subject calls
            ∙ ap (recent 256) split
            ∙ sym (push_all-recent (past ++ e ∷ later)))
        ∙ ap ok (replay_after-push_all last_id past later e fresh seen room)
