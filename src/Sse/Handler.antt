-- ===== src/Sse/Handler.antt =====
-- crates/themql-sse/src/lib.rs: `events_handler`, `to_axum_event` and `EventBody`. The events of axum
-- are a parameter, and the keep-alive lines that axum adds are not modelled.
use the_mql.Base.{
  ℕ, zero, suc, Option, none, some, List, [], ◌∷◌, ◌++◌, Result, ok, err, is_empty, if◌then◌else◌,
  map, length, ◌≡◌, refl, ap, ◌∙◌, sym, All, true, false,
}
use the_mql.Base.Effects.{M}
use the_mql.Base.Text.{Text}
use the_mql.Core.Message.{Message}
use the_mql.Core.Subject.{Subject, subject_text}
use the_mql.Sse.{SseEvent, SseError}
use the_mql.Sse.Log.{has_id, replay_log_capacity}
use the_mql.Sse.Publisher.{
  Channels, Texts, Received, next_event, Subjects, replay_after, add_subscriber,
}
use the_mql.Sse.Publisher.Delivery.{broadcast_all, history, replay_after-broadcast_all}
pub mod Replay

-- `axum::response::sse::Event` and its builder.
pub record AxumEvents (E : Type 0) : Type 0 where
  pub empty : E
  pub id : Text → E → E
  pub event : Text → E → E
  pub payload : Text → E → E
  pub retry : ℕ → E → E

abbrev pub set_field : {A E : Type 0} → (A → E → E) → Option A → E → E
set_field set none e = e
set_field set (some a) e = set a e

-- `to_axum_event`
unfoldable pub to_axum_event : {E : Type 0} → AxumEvents E → SseEvent → E
to_axum_event axum ev =
    let e = set_field axum.event ev.event (set_field axum.id ev.id axum.empty) in
    set_field axum.retry ev.retry (if is_empty ev.payload then e else axum.payload ev.payload e)

-- `EventBody`, of which the live stream is the receiver that it reads.
pub record EventBody (R : Type 0) : Type 0 where
  pub replay : List SseEvent
  pub live : R

module _ {C R : Type 0} (channels : Channels C R) (recv : R → Received × R) where
  -- `unwrap_or_default`
  abbrev pub or_empty : Result SseError (List SseEvent) → List SseEvent
  or_empty (ok events) = events
  or_empty (err e) = []

  -- What is replayed, by the header `Last-Event-ID`.
  unfoldable pub replayed : Subject → Option Text → Subjects C → List SseEvent × Subjects C
  unfolding replay_after
  replayed subject none subjects = ([], subjects)
  replayed subject (some id) subjects =
      let (outcome, next) = replay_after channels subject id subjects in (or_empty outcome, next)

  abbrev pub body_of : List SseEvent → Result SseError (R × Subject) → Result SseError (EventBody R)
  body_of events (ok (receiver, subject)) = ok (record { replay = events; live = receiver })
  body_of events (err e) = err e

  -- `events_handler`; an error is answered with the status 500.
  unfoldable pub events_handler : Subject → Option Text → M (Subjects C) SseError (EventBody R)
  unfolding replayed add_subscriber
  events_handler subject last_event_id subjects =
      let (events, next) = replayed subject last_event_id subjects in
      let (receiver, last) = add_subscriber channels subject next in (body_of events receiver, last)

  abbrev live_event : Result SseError (Option SseEvent) → Option SseEvent
  live_event (ok o) = o
  live_event (err e) = none

  -- `poll_next` of `EventBody`, when the receiver has an answer.
  unfoldable pub poll_next : {E : Type 0} → AxumEvents E → EventBody R → Option E × EventBody R
  unfolding to_axum_event next_event
  poll_next axum body = elim body.replay [
    | ev ∷ rest ↦ (some (to_axum_event axum ev), record body { replay = rest })
    | [] ↦
        let (received, live) = recv body.live in
        (
          elim (live_event (next_event received)) [
            | none ↦ none
            | some ev ↦ some (to_axum_event axum ev)
          ],
          record body { live = live },
        )
  ]

  -- The answers of the first polls, and the body after them.
  abbrev pub polls : {E : Type 0} → AxumEvents E → ℕ → EventBody R → List (Option E) × EventBody R
  polls axum zero body = ([], body)
  polls axum (suc n) body =
      let (answer, next) = poll_next axum body in
      let (answers, last) = polls axum n next in (answer ∷ answers, last)
