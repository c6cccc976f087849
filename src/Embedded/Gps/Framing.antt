-- ===== src/Embedded/Gps/Framing.antt =====
-- crates/themql-embedded/src/sensors/neo6m.rs: how `read_sentence` finds the sentences of a stream.
use the_mql.Base.{
  ℕ, zero, suc, ◌+◌, ◌≤◌, ◌<◌, true, false, ◌&&◌, Option, none, some, List, [], ◌∷◌, ◌++◌, length,
  length-append, drop, ltb, leb, ◌==◌, ◌≡◌, ◌≢◌, refl, sym, ◌∙◌, arith, Bool-cases, inl, inr,
}
use the_mql.Base.Slices.{take, take_prefix}
use the_mql.Embedded.Payload.Bounds.{length-patched}
use the_mql.Embedded.Payload.Digits.{copy_at-eq-some}
use the_mql.Embedded.Gps.{
  index, find_byte, check_from, validate_checksum, Neo6m, store_byte, UartRead, failed, nothing,
  byte, accept_byte, judge, waiting, answered_by, read_sentence,
}

-- A computation that did not panic.
abbrev pub Returns : {A : Type 0} → Option A → Type 0
Returns {A = A} o = (a : A) × (o ≡ some a)

index-Returns : (s : List ℕ) (i : ℕ) → i < length s → Returns (index s i)
index-Returns [] i h = absurd (omega arith)
index-Returns (b ∷ s) zero h = (b, refl)
index-Returns (b ∷ s) (suc i) h = index-Returns s i (omega arith)

check_from-Returns : (s : List ℕ) (star : Option ℕ) → Returns (check_from s star)
check_from-Returns s none = (false, refl)
check_from-Returns s (some star_pos) = elim (Bool-cases (ltb (length s) (star_pos + 4))) [
  | inl e ↦ rw e (false, refl)
  | inr e ↦
      let room : star_pos + 4 ≤ length s = ground arith in
      let (h, at_h) = index-Returns s (star_pos + 1) (omega arith) in
      let (l, at_l) = index-Returns s (star_pos + 2) (omega arith) in rw (e, at_h, at_l) (_, refl)
]

pub validate_checksum-Returns : (s : List ℕ) → Returns (validate_checksum s)
unfolding validate_checksum
validate_checksum-Returns [] = (false, refl)
validate_checksum-Returns (c ∷ s) = elim (Bool-cases (ltb (length (c ∷ s)) 6)) [
  | inl e ↦ rw e (false, refl)
  | inr e ↦ elim (Bool-cases (c == b'$')) [
    | inl f ↦ rw (e, f) (check_from-Returns (c ∷ s) (find_byte (c ∷ s) b'*'))
    | inr f ↦ rw (e, f) (false, refl)
  ]
]

judge-Returns : (s : List ℕ) → Returns (judge s)
judge-Returns s = let (b, e) = validate_checksum-Returns s in rw e (_, refl)

-- The device as its code keeps it: 82 bytes, of which the first `len` are in use.
pub record IsSized (device : Neo6m) : Type 0 where
  pub size : length device.buf ≡ 82
  pub room : device.len ≤ 82

-- The device holds these bytes of a line.
pub record Holds (line : List ℕ) (device : Neo6m) : Type 0 where
  pub size : length device.buf ≡ 82
  pub count : device.len ≡ length line
  pub bytes : take (length line) device.buf ≡ line

store-eq-some :
    (b len : ℕ) (device : Neo6m)
    → length device.buf ≡ 82
    → len < 82
    → store_byte b len device
      ≡ some (record device {
        buf = take len device.buf ++ b ∷ [] ++ drop (len + 1) device.buf;
        len = len + 1;
      })
unfolding store_byte
store-eq-some b len device size room =
    let fits : ltb len 82 ≡ true = ground arith in
    rw (fits, copy_at-eq-some len (b ∷ []) device.buf (omega (arith, size))) refl

-- A byte is stored after those that the device holds.
store-Holds :
    (line : List ℕ) (b : ℕ) (device : Neo6m)
    → length device.buf ≡ 82
    → take (length line) device.buf ≡ line
    → length line < 82
    → (next : Neo6m) × (store_byte b (length line) device ≡ some next) × Holds (line ++ b ∷ []) next
store-Holds line b device size held room =
    let buf = take (length line) device.buf ++ b ∷ [] ++ drop (length line + 1) device.buf in
    let more : length (line ++ b ∷ []) ≡ length line + 1 = length-append line (b ∷ []) in
    (
      record device { buf = buf; len = length line + 1 },
      store-eq-some b (length line) device size room,
      record {
        size = length-patched (length line) (b ∷ []) device.buf (omega (arith, size)) ∙ size;
        count = sym more;
        bytes = rw held (take_prefix (line ++ b ∷ []) (drop (length line + 1) device.buf));
      },
    )

pub accept-next :
    (line : List ℕ) (b : ℕ) (device : Neo6m)
    → b ≢ b'$'
    → length line < 82
    → Holds line device
    → (next : Neo6m) × (accept_byte b device ≡ some next) × Holds (line ++ b ∷ []) next
unfolding accept_byte store_byte
accept-next line b device other room h =
    let plain : (b == b'$') ≡ false = ground arith in
    rw (plain, h.count) (store-Holds line b device h.size h.bytes room)

pub accept-start :
    (device : Neo6m)
    → length device.buf ≡ 82
    → (next : Neo6m) × (accept_byte b'$' device ≡ some next) × Holds (b'$' ∷ []) next
unfolding accept_byte
accept-start device size = store-Holds [] b'$' device size refl (omega arith)

store-IsSized :
    (b len : ℕ) (device : Neo6m)
    → length device.buf ≡ 82
    → len ≤ 82
    → (next : Neo6m) × (store_byte b len device ≡ some next) × IsSized next
store-IsSized b len device size h = elim (Bool-cases (ltb len 82)) [
  | inl e ↦
      let room : len < 82 = ground arith in
      (
        _,
        store-eq-some b len device size room,
        record {
          size = length-patched len (b ∷ []) device.buf (omega (arith, size)) ∙ size;
          room = omega arith;
        },
      )
  | inr e ↦ unfold store_byte in rw e (_, refl, record { size = size; room = h })
]

accept-IsSized :
    (b : ℕ) (device : Neo6m)
    → IsSized device
    → (next : Neo6m) × (accept_byte b device ≡ some next) × IsSized next
unfolding accept_byte
accept-IsSized b device s = elim (Bool-cases (b == b'$')) [
  | inl e ↦ rw e (store-IsSized b 0 device s.size (omega arith))
  | inr e ↦ rw e (store-IsSized b device.len device s.size s.room)
]

answered_by-Returns :
    (device : Neo6m) (reads : List UartRead) (s : List ℕ)
    → Returns (answered_by device reads (judge s))
answered_by-Returns device reads s = let (r, e) = judge-Returns s in rw e (_, refl)

-- From a device of 82 bytes whose length is within them, `read_sentence` never panics, whatever the
-- UART delivers: no access leaves the buffer or the sentence.
pub read_sentence-Returns :
    (reads : List UartRead) (device : Neo6m) → IsSized device → Returns (read_sentence reads device)
unfolding read_sentence
read_sentence-Returns [] device s = (waiting device, refl)
read_sentence-Returns (failed ∷ reads) device s = (_, refl)
read_sentence-Returns (nothing ∷ reads) device s = read_sentence-Returns reads device s
read_sentence-Returns (byte b ∷ reads) device s =
    let (next, e, sized) = accept-IsSized b device s in
    elim (Bool-cases ((b == b'\n') && leb 6 next.len)) [
      | inl f ↦ rw (e, f) (answered_by-Returns next reads (take next.len next.buf))
      | inr f ↦ rw (e, f) (read_sentence-Returns reads next sized)
    ]
