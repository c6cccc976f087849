-- ===== src/Sse/Wire/Fields.antt =====
-- crates/themql-sse/src/lib.rs: how a client reads each field of the wire text.
use the_mql.Base.{
  ℕ, ◌^◌, ◌<◌, true, false, Option, none, some, List, [], ◌∷◌, ◌++◌, append_assoc, append-nil,
  is_empty, ◌≡◌, ◌≢◌, refl, sym, ap, ◌∙◌, arith, All, All-append,
}
use the_mql.Base.Decimal.{decimal, read_digits-decimal, decimal-IsDigit, decimal-ne-nil, IsDigit}
use the_mql.Base.Text.{Text, codes, text_eq, Without}
use the_mql.Sse.Wire.{newline, field_line, opt_field, data_fields, retry_field}
use the_mql.Sse.Wire.Client.{
  resting, split_colon, unspaced, has_null, all_digits, read_field, dispatched, end_line, read_char,
  read_stream,
}
use the_mql.Sse.Wire.Lines.{amid, IsLine, read-line}

-- The text does not begin with a space.
abbrev pub IsFlush : Text → Type 0
IsFlush s = unspaced s ≡ s

-- A text that a field can carry: one line, which does not begin with a space.
abbrev pub IsValue : Text → Type 0
IsValue s = IsLine s × IsFlush s

abbrev pub OptAll : {A : Type 0} → (A → Type 0) → Option A → Type 0
OptAll P none = Unit
OptAll P (some a) = P a

-- `o.unwrap_or(a)`
abbrev pub or_else : {A : Type 0} → Option A → A → A
or_else none a = a
or_else (some b) a = b

-- The newer of two reconnection times.
abbrev pub newer : Option ℕ → Option ℕ → Option ℕ
newer none old = old
newer (some n) old = some n

prefixed : (name v : Text) → IsLine name → IsLine v → IsLine (name ++ v)
prefixed name v n h = (All-append _ name v n.0 h.0, All-append _ name v n.1 h.1)

has_null_of_Without : (s : Text) → Without 0 s → has_null s ≡ false
has_null_of_Without [] h = refl
has_null_of_Without (c ∷ s) h = ground (arith, h.0, has_null_of_Without s h.1)

all_digits_of : (s : Text) → All IsDigit s → all_digits s ≡ true
all_digits_of [] h = refl
all_digits_of (c ∷ s) h = ground (arith, h.0, all_digits_of s h.1)

digits-IsLine : (s : Text) → All IsDigit s → IsLine s
digits-IsLine [] h = (tt, tt)
digits-IsLine (c ∷ s) h =
    let rest = digits-IsLine s h.1 in
    ((ground (arith, h.0.0), rest.0), (ground (arith, h.0.0), rest.1))

digits-IsFlush : (s : Text) → All IsDigit s → IsFlush s
digits-IsFlush [] h = refl
digits-IsFlush (c ∷ s) h = let low = h.0.0 in ground arith

is_empty_of_ne : (s : Text) → s ≢ [] → is_empty s ≡ false
is_empty_of_ne [] n = absurd (n refl)
is_empty_of_ne (c ∷ s) n = refl

module _ (id kind : Text) (lines : List Text) (retry : Option ℕ) where
  field-id :
      (v : Text)
      → IsFlush v
      → Without 0 v
      → (end_line (amid id kind lines retry []) (codes "id:" ++ v)).0 ≡ amid v kind lines retry []
  unfolding end_line split_colon read_field text_eq
  field-id v f n = rw (f, has_null_of_Without v n)

  field-event :
      (v : Text)
      → IsFlush v
      → (end_line (amid id kind lines retry []) (codes "event:" ++ v)).0 ≡ amid id v lines retry []
  unfolding end_line split_colon read_field text_eq
  field-event v f = rw f

  field-data :
      (v : Text)
      → IsFlush v
      → (end_line (amid id kind lines retry []) (codes "data:" ++ v)).0
        ≡ amid id kind (lines ++ v ∷ []) retry []
  unfolding end_line split_colon read_field text_eq
  field-data v f = rw f

  field-retry :
      (n : ℕ)
      → n < 2 ^ 64
      → (end_line (amid id kind lines retry []) (codes "retry:" ++ decimal n)).0
        ≡ amid id kind lines (some n) []
  unfolding end_line split_colon read_field text_eq
  field-retry n h =
      let digits = decimal-IsDigit n in
      rw (
        digits-IsFlush (decimal n) digits,
        all_digits_of (decimal n) digits,
        is_empty_of_ne (decimal n) (decimal-ne-nil n),
        read_digits-decimal n h,
      )

  pub read-id :
      (o : Option Text) (rest : Text)
      → OptAll (λ v. IsValue v × Without 0 v) o
      → read_stream (amid id kind lines retry []) (opt_field (codes "id:") o ++ rest)
        ≡ read_stream (amid (or_else o id) kind lines retry []) rest
  read-id none rest h = refl
  read-id (some v) rest h =
      ap (read_stream (amid id kind lines retry []))
        (append_assoc (codes "id:" ++ v) (newline ∷ []) rest)
      ∙ read-line id kind lines retry b'i' (codes "d:" ++ v) rest (
        ((λ e. cc), ((λ e. cc), ((λ e. cc), h.0.0.0))),
        ((λ e. cc), ((λ e. cc), ((λ e. cc), h.0.0.1))),
      )
      ∙ ap (λ r. read_stream r rest) (field-id v h.0.1 h.1)

  pub read-event :
      (o : Option Text) (rest : Text)
      → OptAll IsValue o
      → read_stream (amid id kind lines retry []) (opt_field (codes "event:") o ++ rest)
        ≡ read_stream (amid id (or_else o kind) lines retry []) rest
  read-event none rest h = refl
  read-event (some v) rest h =
      ap (read_stream (amid id kind lines retry []))
        (append_assoc (codes "event:" ++ v) (newline ∷ []) rest)
      ∙ read-line id kind lines retry b'e' (codes "vent:" ++ v) rest
          (prefixed (codes "event:") v (omega arith, omega arith) h.0)
      ∙ ap (λ r. read_stream r rest) (field-event v h.1)

  pub read-retry :
      (o : Option ℕ) (rest : Text)
      → OptAll (λ n. n < 2 ^ 64) o
      → read_stream (amid id kind lines retry []) (retry_field o ++ rest)
        ≡ read_stream (amid id kind lines (newer o retry) []) rest
  read-retry none rest h = refl
  read-retry (some n) rest h =
      ap (read_stream (amid id kind lines retry []))
        (append_assoc (codes "retry:" ++ decimal n) (newline ∷ []) rest)
      ∙ read-line id kind lines retry b'r' (codes "etry:" ++ decimal n) rest (
          prefixed (codes "retry:") (decimal n) (omega arith, omega arith)
            (digits-IsLine (decimal n) (decimal-IsDigit n)))
      ∙ ap (λ r. read_stream r rest) (field-retry n h)

  -- An empty line ends the event.
  pub read-end :
      (rest : Text)
      → read_stream (amid id kind lines retry []) (newline ∷ rest) ≡ (
        (read_stream (resting id retry) rest).0,
        dispatched (amid id kind lines retry []) lines ++ (read_stream (resting id retry) rest).1,
      )
  unfolding read_stream read_char end_line
  read-end rest = refl

pub read-data :
    (id kind : Text) (seen lines : List Text) (retry : Option ℕ) (rest : Text)
    → All IsLine lines
    → All IsFlush lines
    → read_stream (amid id kind seen retry []) (data_fields lines ++ rest)
      ≡ read_stream (amid id kind (seen ++ lines) retry []) rest
read-data id kind seen [] retry rest w h =
    ap (λ l. read_stream (amid id kind l retry []) rest) (sym (append-nil seen))
read-data id kind seen (l ∷ lines) retry rest w h =
    ap (read_stream (amid id kind seen retry [])) (
      append_assoc (field_line (codes "data:") l) (data_fields lines) rest
      ∙ append_assoc (codes "data:" ++ l) (newline ∷ []) (data_fields lines ++ rest))
    ∙ read-line id kind seen retry b'd' (codes "ata:" ++ l) (data_fields lines ++ rest)
        (prefixed (codes "data:") l (omega arith, omega arith) w.0)
    ∙ ap (λ r. read_stream r (data_fields lines ++ rest)) (field-data id kind seen retry l h.0)
    ∙ read-data id kind (seen ++ l ∷ []) lines retry rest w.1 h.1
    ∙ ap (λ t. read_stream (amid id kind t retry []) rest) (append_assoc seen (l ∷ []) lines)
