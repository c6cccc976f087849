-- ===== src/Sse/Tests.antt =====
-- crates/themql-sse/src/lib.rs: runs of the publisher, the handler and the wire format.
use the_mql.Base.{ℕ, none, some, List, [], ◌∷◌, ◌++◌, length, map, ok, ◌≡◌, refl, arith}
use the_mql.Base.Decimal.{decimal}
use the_mql.Base.Text.{Text, codes, text_eq, split}
use the_mql.Core.Message.{Message, new_metadata, unit, telemetry}
use the_mql.Core.Subject.{Subject, subject_text}
use the_mql.Core.Time.{now_monotonic}
use the_mql.Sse.{SseEvent, from_data, with_id, with_event, with_retry}
use the_mql.Sse.Handler.{AxumEvents, to_axum_event, EventBody, events_handler, polls}
use the_mql.Sse.Handler.Replay.{events_handler-replays}
use the_mql.Sse.Log.{has_id, replay_log_capacity}
use the_mql.Sse.Log.Window.{recent}
use the_mql.Sse.Publisher.{
  Channels, Received, lagged, Texts, from_message, state_for, broadcast, next_event,
}
use the_mql.Sse.Publisher.Delivery.{broadcast_all, history, log-recent}
use the_mql.Sse.Wire.{to_wire_string}
use the_mql.Sse.Wire.Client.{resting, read_stream}
use the_mql.Sse.Wire.RoundTrip.{IsWireSafe, stream, deliveries, read_stream-stream}

program : Unit {0}
unfolding with_id with_event with_retry to_wire_string read_stream split decimal text_eq broadcast
    from_message has_id next_event to_axum_event
program = tt

abbrev rpm : Subject
rpm = record { segments = record { text = codes "car" } ∷ record { text = codes "rpm" } ∷ [] }

abbrev fuel : Subject
fuel = record { segments = record { text = codes "car" } ∷ record { text = codes "fuel" } ∷ [] }

abbrev message : ℕ → Subject → Message ℕ ℕ
message n subject = record {
  id = record { uuid = n };
  timestamp = now_monotonic;
  subject = subject;
  operation = telemetry;
  payload = unit;
  metadata = new_metadata;
}

abbrev texts : Texts ℕ ℕ
texts = record { message_json = λ m. ok (codes "{}"); uuid_text = λ u. u ∷ [] }

-- A channel is what was sent on it, and a receiver the number of events it does not see.
abbrev channels : Channels (List SseEvent) ℕ
channels = record {
  channel = λ n. [];
  receiver_count = λ c. 1;
  send = λ e c. e ∷ c;
  subscribe = λ c. (length c, c);
}

abbrev recv : ℕ → Received × ℕ
recv n = (lagged n, n)

abbrev axum : AxumEvents Text
axum = record {
  empty = [];
  id = λ t e. e ++ t;
  event = λ t e. e ++ t;
  payload = λ t e. e ++ t;
  retry = λ n e. n ∷ e;
}

abbrev sent : ℕ → SseEvent
sent n = record {
  id = some (n ∷ []);
  event = some (codes "telemetry");
  payload = codes "{}";
  retry = none;
}

abbrev calls : List (Subject × Message ℕ ℕ)
calls =
    (rpm, message 1 rpm) ∷ (fuel, message 2 fuel) ∷ (rpm, message 3 rpm) ∷ (rpm, message 4 rpm) ∷ []

lagging : next_event (lagged 12) ≡ ok (some (from_data (codes "{\"lagged\":12}")))
unfolding program
lagging = refl

abbrev full_event : SseEvent
full_event = record {
  id = some (codes "7");
  event = some (codes "note");
  payload = codes "a\n\nb";
  retry = some 5000;
}

sent_text :
    to_wire_string full_event ≡ codes "id:7\nevent:note\ndata:a\ndata:\ndata:b\nretry:5000\n\n"
unfolding program
sent_text = refl

full_event-IsWireSafe : IsWireSafe full_event
unfolding split
full_event-IsWireSafe = record {
  id = (((((λ e. cc), tt), ((λ e. cc), tt)), refl), ((λ e. cc), tt));
  event = ((omega arith, omega arith), refl);
  payload = omega arith;
  flush = (refl, (refl, (refl, tt)));
  retry = omega arith;
}

-- A payload without any text, and an event without a name.
abbrev silent : SseEvent
silent = record { id = some (codes "8"); event = none; payload = []; retry = none }

silent-IsWireSafe : IsWireSafe silent
unfolding split
silent-IsWireSafe = record {
  id = (((((λ e. cc), tt), ((λ e. cc), tt)), refl), ((λ e. cc), tt));
  event = tt;
  payload = tt;
  flush = (refl, tt);
  retry = tt;
}

-- A carriage return in a payload ends the line of data, and what follows is read as another field.
injected : read_stream (resting [] none) (to_wire_string (from_data (codes "a\rid:evil"))) ≡ (
  resting (codes "evil") none,
  record { last_event_id = codes "evil"; event_type = codes "message"; payload = codes "a" } ∷ [],
)
unfolding program
injected = refl

log-recent_example :
    (state_for channels (subject_text rpm) (broadcast_all channels texts calls [])).log
    ≡ recent replay_log_capacity (history channels texts (subject_text rpm) calls)
log-recent_example = log-recent channels texts rpm calls

events_handler-replays_example :
    let served = broadcast_all channels texts calls [] in
    let subscribed = channels.subscribe (state_for channels (subject_text rpm) served).tx in
    let answered = events_handler channels recv rpm (some (1 ∷ [])) served in
    (body : EventBody ℕ) × (answered.0 ≡ ok body)
    × ((polls channels recv axum (length (sent 3 ∷ sent 4 ∷ [])) body).0
        ≡ map (λ ev. some (to_axum_event axum ev)) (sent 3 ∷ sent 4 ∷ []))
    × ((polls channels recv axum (length (sent 3 ∷ sent 4 ∷ [])) body).1
        ≡ record { replay = []; live = subscribed.0 })
    × ((state_for channels (subject_text rpm) answered.1).tx ≡ subscribed.1)
unfolding program
events_handler-replays_example =
    events_handler-replays channels recv axum texts rpm (1 ∷ []) calls [] (sent 3 ∷ sent 4 ∷ [])
      (sent 1) refl tt refl (omega arith)

read_stream-stream_example :
    read_stream (resting [] none) (stream (full_event ∷ silent ∷ full_event ∷ []))
    ≡ (resting (codes "7") (some 5000), deliveries [] (full_event ∷ silent ∷ full_event ∷ []))
read_stream-stream_example =
    read_stream-stream [] none (full_event ∷ silent ∷ full_event ∷ [])
      (full_event-IsWireSafe, (silent-IsWireSafe, (full_event-IsWireSafe, tt)))
