-- ===== src/Embedded/Gps/Resync.antt =====
-- crates/themql-embedded/src/sensors/neo6m.rs: a whole line is answered, whatever came before it.
use the_mql.Base.{
  ℕ, ◌+◌, ◌≤◌, ◌<◌, true, false, some, List, [], ◌∷◌, ◌++◌, append_assoc, append-nil, map, length,
  length-append, leb, ◌==◌, ◌≡◌, ◌≢◌, refl, ap, ◌∙◌, All, arith,
}
use the_mql.Base.Slices.{take}
use the_mql.Embedded.Gps.{Neo6m, UartRead, byte, accept_byte, judge, answered_by, read_sentence}
use the_mql.Embedded.Gps.Framing.{IsSized, Holds, accept-next, accept-start}

-- A byte inside a line: neither the start of one nor its end.
abbrev pub IsInner : ℕ → Type 0
IsInner b = (b ≢ b'$') × (b ≢ b'\n')

Holds-IsSized :
    (line : List ℕ) (device : Neo6m) → length line ≤ 82 → Holds line device → IsSized device
Holds-IsSized line device room h = record { size = h.size; room = omega (arith, h.count) }

-- The end of a line that the device holds but for it.
read_end :
    (line : List ℕ) (device : Neo6m) (reads : List UartRead)
    → length line < 82
    → 5 ≤ length line
    → Holds line device
    → (next : Neo6m) × (read_sentence (byte b'\n' ∷ reads) device
        ≡ answered_by next reads (judge (line ++ b'\n' ∷ [])))
      × IsSized next
unfolding read_sentence
read_end line device reads room long h =
    let (next, e, held) = accept-next line b'\n' device (λ x. cc) room h in
    let size : length (line ++ b'\n' ∷ []) ≡ length line + 1 = length-append line (b'\n' ∷ []) in
    let enough : leb 6 next.len ≡ true = ground (arith, held.count, size) in
    let whole : take next.len next.buf ≡ line ++ b'\n' ∷ [] =
      ap (λ n. take n next.buf) held.count ∙ held.bytes in
    (
      next,
      rw (e, enough) (ap (λ s. answered_by next reads (judge s)) whole),
      Holds-IsSized (line ++ b'\n' ∷ []) next (omega (arith, size)) held,
    )

-- A byte that does not end the line is followed by the rest.
read-byte :
    (b : ℕ) (device next : Neo6m) (reads : List UartRead)
    → accept_byte b device ≡ some next
    → (b == b'\n') ≡ false
    → read_sentence (byte b ∷ reads) device ≡ read_sentence reads next
unfolding read_sentence
read-byte b device next reads e inner = rw (e, inner) refl

read_rest :
    (body line : List ℕ) (device : Neo6m) (reads : List UartRead)
    → All IsInner body
    → length line + length body < 82
    → 5 ≤ length line + length body
    → Holds line device
    → (next : Neo6m) × (read_sentence (map byte body ++ byte b'\n' ∷ reads) device
        ≡ answered_by next reads (judge (line ++ body ++ b'\n' ∷ [])))
      × IsSized next
read_rest [] line device reads w room long h =
    rw (append-nil line) (read_end line device reads (omega arith) (omega arith) h)
read_rest (b ∷ body) line device reads w room long h =
    let (next, e, held) = accept-next line b device w.0.0 (omega arith) h in
    let inner : (b == b'\n') ≡ false = ground (arith, w.0.1) in
    let size : length (line ++ b ∷ []) ≡ length line + 1 = length-append line (b ∷ []) in
    let (last, answered, sized) =
      read_rest body (line ++ b ∷ []) next reads w.1 (omega (arith, size)) (omega (arith, size))
        held in
    (
      last,
      read-byte b device next _ e inner
          ∙ answered
          ∙ ap (λ l. answered_by last reads (judge (l ++ b'\n' ∷ [])))
              (append_assoc line (b ∷ []) body),
      sized,
    )

-- Whatever the device holds and however it came to that: if the UART delivers a `$`, four to eighty
-- bytes that are neither `$` nor a newline, and a newline, then `read_sentence` returns with that line,
-- judged by its checksum, and has read no further.
pub read_sentence-line :
    (device : Neo6m) (body : List ℕ) (reads : List UartRead)
    → IsSized device
    → All IsInner body
    → 4 ≤ length body
    → length body ≤ 80
    → (next : Neo6m) × (read_sentence (byte b'$' ∷ map byte body ++ byte b'\n' ∷ reads) device
        ≡ answered_by next reads (judge (b'$' ∷ body ++ b'\n' ∷ [])))
      × IsSized next
read_sentence-line device body reads s w long room =
    let (next, e, held) = accept-start device s.size in
    let (last, answered, sized) =
      read_rest body (b'$' ∷ []) next reads w (omega arith) (omega arith) held in
    (last, read-byte b'$' device next _ e refl ∙ answered, sized)
