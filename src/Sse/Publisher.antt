-- ===== src/Sse/Publisher.antt =====
-- crates/themql-sse/src/lib.rs: `TokioSsePublisher` and `TokioSseStream`. The channels of
-- `tokio::sync::broadcast`, `serde_json` and the text of a UUID are parameters; a lock is never
-- poisoned here.
use the_mql.Base.{
  ℕ, Bool, true, false, Option, none, some, List, [], ◌∷◌, ◌++◌, Result, ok, err, map_err, ◌>>=◌,
  if◌then◌else◌, ltb,
}
use the_mql.Base.Decimal.{decimal}
use the_mql.Base.Effects.{M}
use the_mql.Base.Text.{Text, codes, text_eq}
use the_mql.Core.Message.{Message, operation_text}
use the_mql.Core.Subject.{Subject, subject_text}
use the_mql.Sse.{SseEvent, from_data, SseError, serialization_error}
use the_mql.Sse.Log
use the_mql.Sse.Log.{push}
pub mod Delivery

-- `broadcast::channel`, `Sender` and `Receiver`; what `send` returns is not looked at.
pub record Channels (C R : Type 0) : Type 0 where
  pub channel : ℕ → C
  pub receiver_count : C → ℕ
  pub send : SseEvent → C → C
  pub subscribe : C → R × C

-- `broadcast::Receiver::recv`
pub data Received : Type 0 where
  value : SseEvent → Received
  closed : Received
  lagged : ℕ → Received

-- `serde_json::to_string` of a message, of which an error is its text, and `Uuid::to_string`.
pub record Texts (J U : Type 0) : Type 0 where
  pub message_json : Message J U → Result Text Text
  pub uuid_text : U → Text

-- `SseEvent::from_message`
unfoldable pub from_message : {J U : Type 0} → Texts J U → Message J U → Result SseError SseEvent
unfolding operation_text
from_message texts msg = do
  json ← map_err serialization_error (texts.message_json msg)
  ok (record {
    id = some (texts.uuid_text msg.id.uuid);
    event = some (operation_text msg.operation);
    payload = json;
    retry = none;
  })

pub record SubjectState (C : Type 0) : Type 0 where
  pub tx : C
  pub log : List SseEvent

-- `SubjectState::new`
unfoldable pub new_state : {C R : Type 0} → Channels C R → SubjectState C
new_state channels = record { tx = channels.channel 256; log = [] }

-- The map from the texts of subjects to their states, of which entries are added and replaced.
abbrev pub Subjects : Type 0 → Type 0
Subjects C = List (Text × SubjectState C)

module _ {C R : Type 0} (channels : Channels C R) where
  -- `state_for`: the state of a subject, which is a new one on its first use.
  unfoldable pub state_for : Text → Subjects C → SubjectState C
  unfolding new_state text_eq
  state_for key [] = new_state channels
  state_for key ((k, s) ∷ subjects) =
      let rest = state_for key subjects in if text_eq k key then s else rest

  -- The state behind the handle that `state_for` returns is replaced, or entered.
  unfoldable pub set_state : Text → SubjectState C → Subjects C → Subjects C
  unfolding text_eq
  set_state key state [] = (key, state) ∷ []
  set_state key state ((k, s) ∷ subjects) =
      let rest = set_state key state subjects in
      if text_eq k key then (k, state) ∷ subjects else (k, s) ∷ rest

  -- `TokioSsePublisher::replay_after`
  unfoldable pub replay_after : Subject → Text → M (Subjects C) SseError (List SseEvent)
  unfolding state_for set_state subject_text
  replay_after subject last_id subjects =
      let key = subject_text subject in
      let state = state_for key subjects in
      (ok (Log.replay_after last_id state.log), set_state key state subjects)

  -- `if tx.receiver_count() > 0 { let _ = tx.send(event); }`
  unfoldable pub send_live : SseEvent → C → C
  send_live event tx = if ltb 0 (channels.receiver_count tx) then channels.send event tx else tx

  -- What `broadcast` does to the state of the subject, by what `from_message` returns.
  unfoldable pub published : Result SseError SseEvent → SubjectState C → SubjectState C
  unfolding push send_live
  published (err e) state = state
  published (ok event) state = record { tx = send_live event state.tx; log = push event state.log }

  abbrev outcome : Result SseError SseEvent → Result SseError (Unit {0})
  outcome (err e) = err e
  outcome (ok event) = ok tt

  -- `broadcast`
  unfoldable pub broadcast :
      {J U : Type 0} → Texts J U → Subject → Message J U → M (Subjects C) SseError (Unit {0})
  unfolding state_for set_state from_message published subject_text
  broadcast texts subject msg subjects =
      let key = subject_text subject in
      (
        outcome (from_message texts msg),
        set_state key (published (from_message texts msg) (state_for key subjects)) subjects,
      )

  -- `add_subscriber`, of which the stream is the receiver and the subject.
  unfoldable pub add_subscriber : Subject → M (Subjects C) SseError (R × Subject)
  unfolding state_for set_state subject_text
  add_subscriber subject subjects =
      let key = subject_text subject in
      let state = state_for key subjects in
      (
        ok ((channels.subscribe state.tx).0, subject),
        set_state key (record state { tx = (channels.subscribe state.tx).1 }) subjects,
      )

-- `next_event`, by what the receiver returned.
unfoldable pub next_event : Received → Result SseError (Option SseEvent)
unfolding decimal
next_event (value event) = ok (some event)
next_event closed = ok none
next_event (lagged skipped) =
    ok (some (from_data (codes "{\"lagged\":" ++ decimal skipped ++ codes "}")))
