-- ===== src/Sse/Wire/RoundTrip.antt =====
-- crates/themql-sse/src/lib.rs: a stream of events and what a client reads of it.
use the_mql.Base.{
  ℕ, ◌^◌, ◌<◌, Option, List, [], ◌∷◌, ◌++◌, append_assoc, if◌then◌else◌, is_empty, ◌≡◌, ◌≢◌, refl,
  ap, ◌∙◌, All,
}
use the_mql.Base.Split.{join-split, split-Without, split-keeps, split-ne-nil}
use the_mql.Base.Text.{Text, codes, split, join, Without}
use the_mql.Sse.{SseEvent}
use the_mql.Sse.Wire.{newline, opt_field, data_fields, retry_field, to_wire_string}
use the_mql.Sse.Wire.Client.{Delivered, Reader, resting, or_message, dispatched, read_stream}
use the_mql.Sse.Wire.Fields.{
  IsFlush, IsValue, OptAll, or_else, newer, read-id, read-event, read-data, read-retry, read-end,
}
use the_mql.Sse.Wire.Lines.{amid, IsLine}

-- What an event may hold to be read as it is: the payload may have several lines.
pub record IsWireSafe (e : SseEvent) : Type 0 where
  pub id : OptAll (λ v. IsValue v × Without 0 v) e.id
  pub event : OptAll IsValue e.event
  pub payload : Without 13 e.payload
  pub flush : All IsFlush (split e.payload newline)
  pub retry : OptAll (λ n. n < 2 ^ 64) e.retry

-- What a stream of events is on the wire.
abbrev pub stream : List SseEvent → Text
stream [] = []
stream (e ∷ es) = to_wire_string e ++ stream es

-- The last identifier and the reconnection time of a client after these events.
abbrev pub last_id_after : Text → List SseEvent → Text
last_id_after id [] = id
last_id_after id (e ∷ es) = last_id_after (or_else e.id id) es

abbrev pub reconnection_after : Option ℕ → List SseEvent → Option ℕ
reconnection_after retry [] = retry
reconnection_after retry (e ∷ es) = reconnection_after (newer e.retry retry) es

-- What the program of a client is to see of an event: its payload, its name or `message`, and the last
-- identifier up to it; nothing of an event without a payload.
abbrev pub delivered : Text → SseEvent → List Delivered
delivered id e =
    if is_empty e.payload
    then []
    else record {
      last_event_id = or_else e.id id;
      event_type = or_message (or_else e.event []);
      payload = e.payload;
    }
      ∷ []

abbrev pub deliveries : Text → List SseEvent → List Delivered
deliveries id [] = []
deliveries id (e ∷ es) = delivered id e ++ deliveries (or_else e.id id) es

-- The lines of data that a payload is sent as.
abbrev data_lines : Text → List Text
data_lines payload = if is_empty payload then [] else split payload newline

lines-IsLine :
    (lines : List Text) → All (Without 10) lines → All (Without 13) lines → All IsLine lines
lines-IsLine [] h k = tt
lines-IsLine (l ∷ lines) h k = ((h.0, k.0), lines-IsLine lines h.1 k.1)

dispatched-join :
    (r : Reader) (lines : List Text)
    → lines ≢ []
    → dispatched r lines
      ≡ record {
        last_event_id = r.last_id;
        event_type = or_message r.event_type;
        payload = join lines newline;
      }
        ∷ []
dispatched-join r [] n = absurd (n refl)
dispatched-join r (l ∷ lines) n = refl

dispatched-data_lines :
    (id kind payload : Text) (retry : Option ℕ)
    → dispatched (amid id kind (data_lines payload) retry []) (data_lines payload) ≡ (
        if is_empty payload
        then []
        else record { last_event_id = id; event_type = or_message kind; payload = payload } ∷ [])
dispatched-data_lines id kind [] retry = refl
dispatched-data_lines id kind (c ∷ s) retry =
    dispatched-join (amid id kind (data_lines (c ∷ s)) retry []) (split (c ∷ s) newline)
      (split-ne-nil (c ∷ s) newline)
    ∙ ap (λ t. record { last_event_id = id; event_type = or_message kind; payload = t } ∷ [])
        (join-split (c ∷ s) newline)

read-payload :
    (id kind payload : Text) (retry : Option ℕ) (rest : Text)
    → Without 13 payload
    → All IsFlush (split payload newline)
    → read_stream
        (amid id kind [] retry [])
        ((if is_empty payload then [] else data_fields (split payload newline)) ++ rest)
      ≡ read_stream (amid id kind (data_lines payload) retry []) rest
read-payload id kind [] retry rest w h = refl
read-payload id kind (c ∷ s) retry rest w h =
    read-data id kind [] (split (c ∷ s) newline) retry rest
      (lines-IsLine _ (split-Without (c ∷ s) newline) (split-keeps (c ∷ s) 13 newline w)) h

-- The text of the fields, by where each begins.
assoc_fields :
    (a b c d e rest : Text)
    → (a ++ b ++ c ++ d ++ e) ++ rest ≡ a ++ (b ++ (c ++ (d ++ (e ++ rest))))
assoc_fields a b c d e rest =
    append_assoc (a ++ b ++ c ++ d) e rest
    ∙ append_assoc (a ++ b ++ c) d (e ++ rest)
    ∙ append_assoc (a ++ b) c (d ++ (e ++ rest))
    ∙ append_assoc a b (c ++ (d ++ (e ++ rest)))

read_stream-to_wire_string :
    (id : Text) (retry : Option ℕ) (e : SseEvent) (rest : Text)
    → IsWireSafe e
    → read_stream (resting id retry) (to_wire_string e ++ rest) ≡ (
      (read_stream (resting (or_else e.id id) (newer e.retry retry)) rest).0,
      delivered id e ++ (read_stream (resting (or_else e.id id) (newer e.retry retry)) rest).1,
    )
unfolding to_wire_string
read_stream-to_wire_string id retry e rest h =
    let payload : Text = if is_empty e.payload then [] else data_fields (split e.payload newline) in
    let id' : Text = or_else e.id id in
    let kind : Text = or_else e.event [] in
    let retry' : Option ℕ = newer e.retry retry in
    let after = read_stream (resting id' retry') rest in
    ap (read_stream (resting id retry)) (
      assoc_fields (opt_field (codes "id:") e.id) (opt_field (codes "event:") e.event) payload
        (retry_field e.retry) (newline ∷ []) rest)
    ∙ read-id id [] [] retry e.id _ h.id
    ∙ read-event id' [] [] retry e.event _ h.event
    ∙ read-payload id' kind e.payload retry _ h.payload h.flush
    ∙ read-retry id' kind (data_lines e.payload) retry e.retry _ h.retry
    ∙ read-end id' kind (data_lines e.payload) retry' rest
    ∙ ap (λ d. (after.0, d ++ after.1)) (dispatched-data_lines id' kind e.payload retry')

-- A client of the event stream format that reads the wire text of any number of events, one after
-- another, delivers each event that has a payload, in their order, with that payload, with its event
-- name (`message` if it has none), and with the last identifier up to it, and nothing for an event
-- without a payload; it then waits for the next event with the last identifier and the last retry of
-- the events. This is so if no identifier, event name or payload holds a carriage return, no
-- identifier and no event name holds a line feed, no identifier holds a null character, no identifier,
-- no event name and no line of a payload begins with a space, and each retry is below 2 ^ 64, as every
-- `u32` is.
pub read_stream-stream :
    (id : Text) (retry : Option ℕ) (es : List SseEvent)
    → All IsWireSafe es
    → read_stream (resting id retry) (stream es)
      ≡ (resting (last_id_after id es) (reconnection_after retry es), deliveries id es)
read_stream-stream id retry [] h = unfold read_stream in refl
read_stream-stream id retry (e ∷ es) h =
    read_stream-to_wire_string id retry e (stream es) h.0
    ∙ ap (λ (p : Reader × List Delivered). (p.0, delivered id e ++ p.1))
        (read_stream-stream (or_else e.id id) (newer e.retry retry) es h.1)
