-- ===== src/Sse/Handler/Replay.antt =====
-- crates/themql-sse/src/lib.rs: what a client that reconnects reads from `events_handler`.
use the_mql.Base.{
  ◌<◌, some, List, [], ◌∷◌, ◌++◌, map, length, ok, ◌≡◌, refl, ap, ◌∙◌, All, true, false,
}
use the_mql.Base.Text.{Text}
use the_mql.Core.Message.{Message}
use the_mql.Core.Subject.{Subject, subject_text}
use the_mql.Sse.{SseEvent}
use the_mql.Sse.Handler.{
  AxumEvents, to_axum_event, EventBody, body_of, or_empty, replayed, events_handler, poll_next,
  polls,
}
use the_mql.Sse.Log.{has_id, replay_log_capacity}
use the_mql.Sse.Publisher.{
  Channels, Texts, Received, Subjects, state_for, replay_after, add_subscriber,
}
use the_mql.Sse.Publisher.Delivery.{
  state_for-set_state_self, broadcast_all, history, replay_after-broadcast_all,
}

module _ {C R E : Type 0} (channels : Channels C R) (recv : R → Received × R)
    (axum : AxumEvents E) where
  -- The events that are replayed come before any live event.
  polls-replay :
      (events : List SseEvent) (receiver : R)
      → polls channels recv axum (length events) (record { replay = events; live = receiver })
        ≡ (map (λ ev. some (to_axum_event axum ev)) events, record { replay = []; live = receiver })
  unfolding poll_next
  polls-replay [] receiver = refl
  polls-replay (ev ∷ events) receiver =
      ap (λ p. (some (to_axum_event axum ev) ∷ p.0, p.1)) (polls-replay events receiver)

  -- A replay leaves the state of the subject as it was.
  replay_after-state_for :
      (subject : Subject) (last_id : Text) (subjects : Subjects C)
      → state_for channels (subject_text subject) (replay_after channels subject last_id subjects).1
        ≡ state_for channels (subject_text subject) subjects
  unfolding replay_after
  replay_after-state_for subject last_id subjects =
      state_for-set_state_self channels (subject_text subject) _ subjects

  -- After any broadcasts from a new publisher, a client that connects with the last identifier it saw
  -- gets a body whose first answers are exactly the events of the subject after the one with that
  -- identifier, in their order; then nothing is left to replay and the body reads the receiver of a
  -- subscription to the channel of the subject, and the channel on record for the subject is the one
  -- with that subscription. This is so if that event is the first with its identifier in the history
  -- of the subject, and fewer than 256 came after it.
  pub events_handler-replays :
      {J U : Type 0} (texts : Texts J U) (subject : Subject) (last_id : Text)
      (calls : List (Subject × Message J U)) (past later : List SseEvent) (e : SseEvent)
      → history channels texts (subject_text subject) calls ≡ past ++ e ∷ later
      → All (λ x. has_id last_id x ≡ false) past
      → has_id last_id e ≡ true
      → length later < replay_log_capacity
      → let served = broadcast_all channels texts calls [] in
        let subscribed = channels.subscribe (state_for channels (subject_text subject) served).tx in
        let answered = events_handler channels recv subject (some last_id) served in
        (body : EventBody R) × (answered.0 ≡ ok body)
        × ((polls channels recv axum (length later) body).0
            ≡ map (λ ev. some (to_axum_event axum ev)) later)
        × ((polls channels recv axum (length later) body).1
            ≡ record { replay = []; live = subscribed.0 })
        × ((state_for channels (subject_text subject) answered.1).tx ≡ subscribed.1)
  unfolding events_handler replayed add_subscriber
  events_handler-replays texts subject last_id calls past later e split fresh seen room =
      let key = subject_text subject in
      let served = broadcast_all channels texts calls [] in
      let next = (replay_after channels subject last_id served).1 in
      let kept = replay_after-state_for subject last_id served in
      let receiver : R = (channels.subscribe (state_for channels key next).tx).0 in
      let polled = polls-replay later receiver in
      (
        record { replay = later; live = receiver },
        ap (λ r. body_of channels recv (or_empty channels recv r) (ok (receiver, subject)))
            (replay_after-broadcast_all channels texts subject last_id calls past later e split
              fresh seen room),
        ap (λ p. p.0) polled,
        ap (λ p. p.1) polled
            ∙ ap (λ s. record { replay = []; live = (channels.subscribe s.tx).0 }) kept,
        ap (λ s. s.tx) (state_for-set_state_self channels key _ next)
            ∙ ap (λ s. (channels.subscribe s.tx).1) kept,
      )
