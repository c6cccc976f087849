-- ===== src/Sse/Wire.antt =====
-- crates/themql-sse/src/lib.rs: `SseEvent::to_wire_string`.
use the_mql.Base.{ℕ, Option, none, some, List, [], ◌∷◌, ◌++◌, if◌then◌else◌, is_empty}
use the_mql.Base.Decimal.{decimal}
use the_mql.Base.Text.{Text, codes, split}
use the_mql.Sse.{SseEvent}
pub mod Client
pub mod Lines
pub mod Fields
pub mod RoundTrip

abbrev pub newline : ℕ
newline = 10

-- `out.push_str(name); out.push_str(value); out.push('\n');`
abbrev pub field_line : Text → Text → Text
field_line name value = name ++ value ++ newline ∷ []

abbrev pub opt_field : Text → Option Text → Text
opt_field name none = []
opt_field name (some value) = field_line name value

abbrev pub data_fields : List Text → Text
data_fields [] = []
data_fields (l ∷ lines) = field_line (codes "data:") l ++ data_fields lines

abbrev pub retry_field : Option ℕ → Text
retry_field none = []
retry_field (some retry) = field_line (codes "retry:") (decimal retry)

-- `SseEvent::to_wire_string`
unfoldable pub to_wire_string : SseEvent → Text
unfolding split decimal
to_wire_string e =
    opt_field (codes "id:") e.id
    ++ opt_field (codes "event:") e.event
    ++ (if is_empty e.payload then [] else data_fields (split e.payload newline))
    ++ retry_field e.retry
    ++ newline ∷ []
