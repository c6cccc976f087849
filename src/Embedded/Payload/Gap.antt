-- ===== src/Embedded/Payload/Gap.antt =====
-- crates/themql-embedded/src/mqtt.rs: what `format_diagnostics` leaves between its fields.
use the_mql.Base.{
  ℕ, ◌+◌, ◌≤◌, min, false, some, none, List, [], ◌∷◌, ◌++◌, length, length-append, drop, leb, ltb,
  ◌≡◌, ◌≢◌, refl, sym, ap, ◌∙◌, arith,
}
use the_mql.Base.Decimal.{decimal}
use the_mql.Base.Slices.{take, take_past, take-take, length-drop, drop-drop}
use the_mql.Base.Text.{Text, codes}
use the_mql.Embedded.Payload.{
  Written, placed, ◌then_write◌, write_str, write_u64_dec, write_u32, add_len, capped,
  format_diagnostics,
}
use the_mql.Embedded.Payload.Bounds.{
  Fits, then-Fits, write_str-IsSafe, write_u64_dec-IsSafe, add_len-IsSafe,
}
use the_mql.Embedded.Payload.Digits.{copy_at-eq-some, write_u64_dec-decimal}

abbrev head : Text
head = codes "{\"cycles\":"

-- What is before an offset stays there, and is within the length that is returned.
capped_kept :
    (offset : ℕ) (buf : List ℕ) (r : Written)
    → offset ≤ length buf
    → Fits offset buf r
    → (len : ℕ) × (out : List ℕ) × (r then_write capped ≡ some (len, out))
      × (offset ≤ len)
      × (take offset out ≡ take offset buf)
capped_kept offset buf none h f = absurd f
capped_kept offset buf (some (o, out)) h f =
    (min o (length out), out, refl, omega (arith, f.0, f.1), f.2)

write_head :
    (buf : List ℕ) → 32 ≤ length buf → write_str head 0 buf ≡ some (10, head ++ drop 10 buf)
unfolding write_str
write_head buf h =
    let room : leb (length buf) 0 ≡ false = ground arith in
    let enough : ltb (length buf) 10 ≡ false = ground arith in
    rw (room, enough) (ap (placed 10) (copy_at-eq-some 0 head buf (omega arith)))

drop-head : (k : ℕ) (buf : List ℕ) → drop (10 + k) (head ++ drop 10 buf) ≡ drop (10 + k) buf
drop-head k buf = sym (drop-drop k 10 (head ++ drop 10 buf)) ∙ drop-drop k 10 buf

write_cycles :
    (c : ℕ) (buf : List ℕ)
    → 20 + length (decimal c) ≤ length buf
    → write_u64_dec c 10 (head ++ drop 10 buf)
      ≡ some (10 + length (decimal c), head ++ decimal c ++ drop (10 + length (decimal c)) buf)
write_cycles c buf h =
    write_u64_dec-decimal c 10 (head ++ drop 10 buf)
      (omega (arith, length-append head (drop 10 buf), length-drop 10 buf))
    ∙ ap (λ rest. some (10 + length (decimal c), head ++ decimal c ++ rest))
        (drop-head (length (decimal c)) buf)

take_cycles :
    (c : ℕ) (rest : List ℕ)
    → take (20 + length (decimal c)) (head ++ decimal c ++ rest) ≡ head ++ decimal c ++ take 10 rest
take_cycles c rest =
    let size : 20 + length (decimal c) ≡ length (head ++ decimal c) + 10 =
      omega (arith, length-append head (decimal c)) in
    ap (λ n. take n (head ++ decimal c ++ rest)) size ∙ take_past 10 (head ++ decimal c) rest

-- The rest of the writes, from the offset on that the first two leave.
abbrev finish : ℕ → Written → Written
finish e r =
    r
    then_write add_len (write_str (codes ",\"errors\":"))
    then_write add_len (write_u32 e)
    then_write add_len (write_str (codes "}"))
    then_write capped

begun :
    (c : ℕ) (buf : List ℕ)
    → 32 ≤ length buf
    → 20 + length (decimal c) ≤ length buf
    → (add_len (write_str head) 0 buf then_write add_len (write_u32 c))
      ≡ some (20 + length (decimal c), head ++ decimal c ++ drop (10 + length (decimal c)) buf)
begun c buf room h =
    let shift : 10 + (10 + length (decimal c)) ≡ 20 + length (decimal c) = omega arith in
    rw (write_head buf room, write_cycles c buf h, shift) refl

-- Between the number of cycles and what is written after it, ten bytes of the buffer are left as they
-- were, and are counted in the length that is returned.
format_diagnostics-gap :
    (cycle_count error_count : ℕ) (buf : List ℕ)
    → 32 ≤ length buf
    → 20 + length (decimal cycle_count) ≤ length buf
    → (len : ℕ) × (out : List ℕ) × (format_diagnostics cycle_count error_count buf
        ≡ some (len, out))
      × (20 + length (decimal cycle_count) ≤ len)
      × (take (20 + length (decimal cycle_count)) out
          ≡ codes "{\"cycles\":"
            ++ decimal cycle_count
            ++ take 10 (drop (10 + length (decimal cycle_count)) buf))
unfolding format_diagnostics
format_diagnostics-gap c e buf room h =
    let d = length (decimal c) in
    let written = head ++ decimal c ++ drop (10 + d) buf in
    let big : ltb (length buf) 32 ≡ false = ground arith in
    let size : 20 + d ≤ length written = omega (
      arith,
      length-append (head ++ decimal c) (drop (10 + d) buf),
      length-append head (decimal c),
      length-drop (10 + d) buf,
    ) in
    let (len, out, made, far, kept) = capped_kept (20 + d) written _ size (
      then-Fits (20 + d) written _ _
        (then-Fits (20 + d) written _ _
          (add_len-IsSafe _ (write_str-IsSafe (codes ",\"errors\":")) (20 + d) written)
          (add_len-IsSafe _ (write_u64_dec-IsSafe e)))
        (add_len-IsSafe _ (write_str-IsSafe (codes "}")))) in
    (
      len,
      out,
      rw big (ap (finish e) (begun c buf room h) ∙ made),
      far,
      kept ∙ take_cycles c (drop (10 + d) buf),
    )

append_cancel : (s t u : Text) → s ++ t ≡ s ++ u → t ≡ u
append_cancel [] t u h = h
append_cancel (c ∷ s) t u h = append_cancel s t u (cc h)

-- The JSON text that `format_diagnostics` is to write.
abbrev pub diagnostics_text : ℕ → ℕ → Text
diagnostics_text c e =
    codes "{\"cycles\":" ++ decimal c ++ (codes ",\"errors\":" ++ decimal e ++ codes "}")

-- On a buffer of at least 32 bytes with room for the first field and ten bytes more,
-- `format_diagnostics` returns a payload, but if these ten bytes of the buffer were not already the
-- text that comes next, then the payload is not the JSON text that is meant.
pub format_diagnostics-garbled :
    (cycle_count error_count : ℕ) (buf : List ℕ)
    → 32 ≤ length buf
    → 20 + length (decimal cycle_count) ≤ length buf
    → take 10 (drop (10 + length (decimal cycle_count)) buf) ≢ codes ",\"errors\":"
    → (len : ℕ) × (out : List ℕ) × (format_diagnostics cycle_count error_count buf
        ≡ some (len, out))
      × (take len out ≢ diagnostics_text cycle_count error_count)
format_diagnostics-garbled c e buf room h stale =
    let (len, out, made, far, kept) = format_diagnostics-gap c e buf room h in
    (
      len,
      out,
      made,
      λ meant. stale (
          append_cancel (head ++ decimal c) _ (codes ",\"errors\":") (
            sym kept
            ∙ sym (take-take (20 + length (decimal c)) len out far)
            ∙ ap (take (20 + length (decimal c))) meant
            ∙ take_cycles c (codes ",\"errors\":" ++ decimal e ++ codes "}"))),
    )
