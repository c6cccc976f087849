-- ===== src/Sse/Wire/Lines.antt =====
-- crates/themql-sse/src/lib.rs: how a client reads the lines of the wire text.
use the_mql.Base.{
  ℕ, false, Option, List, [], ◌∷◌, ◌++◌, append_assoc, append-nil, ◌≡◌, ◌≢◌, refl, sym, ap, ◌∙◌,
  arith,
}
use the_mql.Base.Text.{Text, Without}
use the_mql.Sse.Wire.{newline}
use the_mql.Sse.Wire.Client.{Delivered, Reader, end_line, read_char, read_stream}

-- A client that has read a part of a line.
abbrev pub amid : Text → Text → List Text → Option ℕ → Text → Reader
amid id kind lines retry line = record {
  last_id = id;
  event_type = kind;
  lines = lines;
  reconnection = retry;
  line = line;
  after_cr = false;
}

-- Neither a line feed nor a carriage return.
abbrev pub IsLine : Text → Type 0
IsLine s = Without 10 s × Without 13 s

module _ (id kind : Text) (lines : List Text) (retry : Option ℕ) where
  read-plain :
      (c : ℕ) (line : Text)
      → c ≢ 10
      → c ≢ 13
      → read_char (amid id kind lines retry line) c
        ≡ (amid id kind lines retry (line ++ c ∷ []), [])
  unfolding read_char
  read-plain c line n m = ground arith

  read-text :
      (line s rest : Text)
      → IsLine s
      → read_stream (amid id kind lines retry line) (s ++ rest)
        ≡ read_stream (amid id kind lines retry (line ++ s)) rest
  unfolding read_stream
  read-text line [] rest h =
      ap (λ l. read_stream (amid id kind lines retry l) rest) (sym (append-nil line))
  read-text line (c ∷ s) rest h =
      ap
        (λ (p : Reader × List Delivered).
          ((read_stream p.0 (s ++ rest)).0, p.1 ++ (read_stream p.0 (s ++ rest)).1))
        (read-plain c line h.0.0 h.1.0)
      ∙ read-text (line ++ c ∷ []) s rest (h.0.1, h.1.1)
      ∙ ap (λ l. read_stream (amid id kind lines retry l) rest) (append_assoc line (c ∷ []) s)

  -- A line with a field is read as that field.
  pub read-line :
      (c : ℕ) (s rest : Text)
      → IsLine (c ∷ s)
      → read_stream (amid id kind lines retry []) ((c ∷ s) ++ newline ∷ rest)
        ≡ read_stream (end_line (amid id kind lines retry []) (c ∷ s)).0 rest
  read-line c s rest h =
      read-text [] (c ∷ s) (newline ∷ rest) h ∙ unfold read_stream read_char end_line in refl
