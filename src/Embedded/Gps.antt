-- ===== src/Embedded/Gps.antt =====
-- crates/themql-embedded/src/sensors/neo6m.rs: the sentences of the GPS receiver. The bytes that a
-- UART delivers are a list; an access outside the buffer is a panic, which is `none`.
use the_mql.Base.{
  ℕ, zero, suc, ◌+◌, ◌-◌, ◌*◌, ◌%◌, min, Bool, true, false, not, ◌&&◌, Option, none, some, List, [],
  ◌∷◌, ◌++◌, length, drop, leb, ltb, ◌==◌, if◌then◌else◌, Result, ok, err,
}
use the_mql.Base.Slices.{take}
use Prim.Native.Nat.{bit_xor, bit_or}
use the_mql.Embedded.Payload.{copy_at}
use the_mql.Embedded.Sensors.{
  SensorError, bus_error, invalid_reading, heap_string, SensorReading, gps, zero_bytes,
}
use the_mql.Base.Text.{codes}
pub mod Checksum
pub mod Framing
pub mod Resync

abbrev pub nmea_max_len : ℕ
nmea_max_len = 82

-- `find_byte`
unfoldable pub find_byte : List ℕ → ℕ → Option ℕ
find_byte [] byte = none
find_byte (b ∷ slice) byte =
    let rest = find_byte slice byte in
    if b == byte then some 0 else elim rest [ none ↦ none | some i ↦ some (suc i) ]

-- `hex_val`
unfoldable pub hex_val : ℕ → Option ℕ
hex_val c =
    if leb b'0' c && leb c b'9'
    then some (c - b'0')
    else if leb b'A' c && leb c b'F'
    then some (c - b'A' + 10)
    else if leb b'a' c && leb c b'f'
    then some (c - b'a' + 10)
    else none

-- `slice[i]`
abbrev pub index : List ℕ → ℕ → Option ℕ
index [] i = none
index (b ∷ slice) zero = some b
index (b ∷ slice) (suc i) = index slice i

infixl 5 ◌>>=◌
abbrev pub ◌>>=◌ : {A B : Type 0} → Option A → (A → Option B) → Option B
none >>= f = none
some a >>= f = f a

-- `for &byte in … { checksum ^= byte; }`
unfoldable pub xor_all : ℕ → List ℕ → ℕ
xor_all checksum [] = checksum
xor_all checksum (byte ∷ bytes) = xor_all (bit_xor checksum byte) bytes

-- `checksum == (hi << 4) | lo`, if both digits are ones.
abbrev pub digits_agree : ℕ → Option ℕ → Option ℕ → Bool
digits_agree checksum (some hi) (some lo) = checksum == bit_or (hi * 16 % 256) lo
digits_agree checksum (some hi) none = false
digits_agree checksum none lo = false

-- What follows the search for the star.
abbrev pub check_from : List ℕ → Option ℕ → Option Bool
check_from sentence none = some false
check_from sentence (some star_pos) =
    if ltb (length sentence) (star_pos + 4) then some false else do
      h ← index sentence (star_pos + 1)
      l ← index sentence (star_pos + 2)
      some (digits_agree (xor_all 0 (drop 1 (take star_pos sentence))) (hex_val h) (hex_val l))

-- `validate_checksum`
unfoldable pub validate_checksum : List ℕ → Option Bool
unfolding find_byte
validate_checksum sentence = if ltb (length sentence) 6 then some false else do
  first ← index sentence 0
  if not (first == b'$') then some false else check_from sentence (find_byte sentence b'*')

-- `Neo6m` without its reader: `buf` has 82 bytes.
pub record Neo6m : Type 0 where
  pub rate_hz : ℕ
  pub buf : List ℕ
  pub len : ℕ

-- `Neo6m::new`
unfoldable pub new_neo6m : ℕ → Neo6m
new_neo6m rate_hz = record { rate_hz = rate_hz; buf = zero_bytes nmea_max_len; len = 0 }

-- What one read of the UART gives.
pub data UartRead : Type 0 where
  failed nothing : UartRead
  byte : ℕ → UartRead

-- `if self.len < NMEA_MAX_LEN { self.buf[self.len] = b; self.len += 1; }`, where `len` is given.
unfoldable pub store_byte : ℕ → ℕ → Neo6m → Option Neo6m
store_byte b len device =
    if ltb len nmea_max_len
    then (copy_at len (b ∷ []) device.buf >>= λ buf.
        some (record device { buf = buf; len = len + 1 }))
    else some (record device { len = len })

-- What the loop does with a byte before it looks for the end of the line.
unfoldable pub accept_byte : ℕ → Neo6m → Option Neo6m
accept_byte b device = store_byte b (if b == b'$' then 0 else device.len) device

-- The answered_by for a whole line.
abbrev pub judge : List ℕ → Option (Result SensorError (List ℕ))
judge sentence = validate_checksum sentence >>= λ valid.
    some (if valid then ok sentence else err (invalid_reading (heap_string (codes "checksum"))))

-- Where `read_sentence` is after the reads so far: it waits, or it returned with reads left over.
pub data Reading : Type 0 where
  waiting : Neo6m → Reading
  answered : Result SensorError (List ℕ) → Neo6m → List UartRead → Reading

abbrev pub answered_by :
    Neo6m → List UartRead → Option (Result SensorError (List ℕ)) → Option Reading
answered_by device reads none = none
answered_by device reads (some r) = some (answered r device reads)

-- `Neo6m::read_sentence`
unfoldable pub read_sentence : List UartRead → Neo6m → Option Reading
unfolding accept_byte store_byte validate_checksum heap_string
read_sentence [] device = some (waiting device)
read_sentence (failed ∷ reads) device =
    some (answered (err (bus_error (heap_string (codes "uart read")))) device reads)
read_sentence (nothing ∷ reads) device = read_sentence reads device
read_sentence (byte b ∷ reads) device = accept_byte b device >>= λ next.
    let rest = read_sentence reads next in
    if (b == b'\n') && leb 6 next.len
    then answered_by next reads (judge (take next.len next.buf))
    else rest

-- `Neo6m::read`, by what `read_sentence` answers.
unfoldable pub reading_of : Result SensorError (List ℕ) → Result SensorError SensorReading
reading_of (err e) = err e
reading_of (ok sentence) =
    let copy_len = min (length sentence) 32 in
    ok (record {
      kind = gps;
      raw = take copy_len sentence ++ zero_bytes (32 - copy_len);
      len = copy_len;
    })
