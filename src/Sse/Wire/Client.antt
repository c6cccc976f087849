-- ===== src/Sse/Wire/Client.antt =====
-- crates/themql-sse/src/lib.rs: what a client makes of the wire text. This is no code of the crate: it
-- is the event stream format of the HTML standard, which `to_wire_string` writes, read one character
-- after another. A byte order mark at the beginning of a stream is not treated.
use the_mql.Base.{
  ℕ, Bool, true, false, not, ◌&&◌, Option, some, List, [], ◌∷◌, ◌++◌, if◌then◌else◌, ◌==◌, leb,
  is_empty,
}
use the_mql.Base.Decimal.{read_digits}
use the_mql.Base.Text.{Text, codes, text_eq, join}

-- An event that reaches the program of the client.
pub record Delivered : Type 0 where
  pub last_event_id : Text
  pub event_type : Text
  pub payload : Text

-- What a client keeps: the last identifier, the event type and the lines of data of the event that it
-- reads, the time after which it reconnects, and the line that it reads, with whether the character
-- before that line was a carriage return.
pub record Reader : Type 0 where
  pub last_id : Text
  pub event_type : Text
  pub lines : List Text
  pub reconnection : Option ℕ
  pub line : Text
  pub after_cr : Bool

-- A client between two events.
abbrev pub resting : Text → Option ℕ → Reader
resting last_id reconnection = record {
  last_id = last_id;
  event_type = [];
  lines = [];
  reconnection = reconnection;
  line = [];
  after_cr = false;
}

-- The name of a field is what stands before the first colon, and its value what follows.
unfoldable pub split_colon : Text → Text × Text
split_colon [] = ([], [])
split_colon (c ∷ s) =
    let (name, value) = split_colon s in if c == b':' then ([], s) else (c ∷ name, value)

-- One space after the colon is ignored.
abbrev pub unspaced : Text → Text
unspaced [] = []
unspaced (c ∷ s) = if c == b' ' then s else c ∷ s

abbrev pub has_null : Text → Bool
has_null [] = false
has_null (c ∷ s) = let rest = has_null s in if c == 0 then true else rest

abbrev pub all_digits : Text → Bool
all_digits [] = true
all_digits (c ∷ s) = (leb 48 c && leb c 57) && all_digits s

-- An identifier with a null character is ignored, and so is a retry that is no number, and a field with
-- another name.
unfoldable pub read_field : Text × Text → Reader → Reader
unfolding text_eq read_digits
read_field (name, value) r =
    if text_eq name (codes "event")
    then record r { event_type = value }
    else if text_eq name (codes "data")
    then record r { lines = r.lines ++ value ∷ [] }
    else if text_eq name (codes "id")
    then (if has_null value then r else record r { last_id = value })
    else if text_eq name (codes "retry") && (all_digits value && not (is_empty value))
    then record r { reconnection = some (read_digits 0 value) }
    else r

abbrev pub or_message : Text → Text
or_message [] = codes "message"
or_message (c ∷ s) = c ∷ s

-- An empty line ends the event, which reaches the program if it has data.
abbrev pub dispatched : Reader → List Text → List Delivered
dispatched r [] = []
dispatched r (l ∷ lines) =
    record {
      last_event_id = r.last_id;
      event_type = or_message r.event_type;
      payload = join (l ∷ lines) 10;
    }
    ∷ []

unfoldable pub end_line : Reader → Text → Reader × List Delivered
unfolding split_colon read_field join
end_line r [] = (resting r.last_id r.reconnection, dispatched r r.lines)
end_line r (c ∷ line) =
    let (name, value) = split_colon (c ∷ line) in (read_field (name, unspaced value) r, [])

-- A line ends at a line feed, at a carriage return, or at both one after the other.
unfoldable pub read_char : Reader → ℕ → Reader × List Delivered
unfolding end_line
read_char r c =
    let fresh = record r { line = []; after_cr = false } in
    if c == 10
    then if r.after_cr then (fresh, []) else end_line fresh r.line
    else if c == 13
    then (let (next, out) = end_line fresh r.line in (record next { after_cr = true }, out))
    else (record r { line = r.line ++ c ∷ []; after_cr = false }, [])

-- The client after a text, and what reached its program.
unfoldable pub read_stream : Reader → Text → Reader × List Delivered
unfolding read_char
read_stream r [] = (r, [])
read_stream r (c ∷ s) =
    let (next, out) = read_char r c in let (last, outs) = read_stream next s in (last, out ++ outs)
