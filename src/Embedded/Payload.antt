-- ===== src/Embedded/Payload.antt =====
-- crates/themql-embedded/src/mqtt.rs: the payloads that the firmware formats by hand into a buffer. An
-- access outside the buffer is a panic, which is `none`. The operations on `f64` are a parameter.
use the_mql.Base.{
  ℕ, zero, suc, ◌+◌, ◌-◌, ◌/◌, ◌%◌, max, min, Bool, true, false, Option, none, some, List, [], ◌∷◌,
  ◌++◌, length, drop, leb, ltb, ◌==◌, if◌then◌else◌,
}
use the_mql.Base.Slices.{take, reverse}
use the_mql.Base.Text.{Text, codes}
pub mod Bounds
pub mod Formats
pub mod Digits
pub mod Gap

-- The offset after a write, and the buffer.
abbrev pub Written : Type 0
Written = Option (ℕ × List ℕ)

-- A write into a buffer at an offset.
abbrev pub Writer : Type 0
Writer = ℕ → List ℕ → Written

-- `buf[offset..offset + s.len()].copy_from_slice(s)`, and for one byte `buf[offset] = b`.
abbrev pub copy_at : ℕ → List ℕ → List ℕ → Option (List ℕ)
copy_at offset s buf =
    if leb (offset + length s) (length buf)
    then some (take offset buf ++ s ++ drop (offset + length s) buf)
    else none

abbrev pub placed : ℕ → Option (List ℕ) → Written
placed offset none = none
placed offset (some buf) = some (offset, buf)

-- The next write begins where the one before it ended.
infixl 5 ◌then_write◌
abbrev pub ◌then_write◌ : Written → Writer → Written
none then_write w = none
some (offset, buf) then_write w = w offset buf

-- `write_str`; an offset that the sum saturates at is past the buffer in any case.
unfoldable pub write_str : Text → Writer
write_str s offset buf =
    if leb (length buf) offset
    then some (offset, buf)
    else if ltb (length buf) (offset + length s)
    then some (offset, buf)
    else placed (offset + length s) (copy_at offset s buf)

-- The array `tmp`: the digits of `v`, the lowest first.
unfoldable pub low_digits : ℕ → ℕ → List ℕ
low_digits zero v = []
low_digits (suc room) v =
    let rest = low_digits room (v / 10) in if v == 0 then [] else (48 + v % 10) ∷ rest

-- The loop that copies as many of the bytes as there is room for.
abbrev pub copy_fitting : List ℕ → Writer
copy_fitting bytes offset buf =
    let copy_len = min (length bytes) (length buf - offset) in
    placed (offset + copy_len) (copy_at offset (take copy_len bytes) buf)

-- `write_u64_dec`
unfoldable pub write_u64_dec : ℕ → Writer
write_u64_dec val offset buf =
    if leb (length buf) offset
    then some (offset, buf)
    else if val == 0
    then placed (offset + 1) (copy_at offset (b'0' ∷ []) buf)
    else copy_fitting (reverse (low_digits 20 val)) offset buf

abbrev pub zeros : ℕ → List ℕ
zeros zero = []
zeros (suc n) = b'0' ∷ zeros n

-- `write_u64_padded`
unfoldable pub write_u64_padded : ℕ → ℕ → Writer
write_u64_padded val width offset buf =
    if leb (length buf) offset
    then some (offset, buf)
    else let tmp = low_digits 20 val in
      copy_fitting (zeros (max width (length tmp) - length tmp) ++ reverse tmp) offset buf

-- `write_u32`
abbrev pub write_u32 : ℕ → Writer
write_u32 = write_u64_dec

-- `if pos < buf.len() { buf[pos] = b; pos += 1; }`
abbrev pub put_byte : ℕ → Writer
put_byte b pos buf =
    if ltb pos (length buf) then placed (pos + 1) (copy_at pos (b ∷ []) buf) else some (pos, buf)

-- `if pos > buf.len() { pos = buf.len(); }`
abbrev pub cap_number : Writer
cap_number pos buf = some (if ltb (length buf) pos then length buf else pos, buf)

-- `val < 0.0`, `-val`, `val as u64`, `n as f64`, subtraction and `val * 1_000_000.0`.
pub record Floats (F : Type 0) : Type 0 where
  pub is_negative : F → Bool
  pub negate : F → F
  pub to_u64 : F → ℕ
  pub of_u64 : ℕ → F
  pub minus : F → F → F
  pub times_million : F → F

module _ {F : Type 0} (floats : Floats F) where
  abbrev pub abs_val : F → F
  abs_val val = if floats.is_negative val then floats.negate val else val

  abbrev pub int_part : F → ℕ
  int_part val = floats.to_u64 (abs_val val)

  abbrev pub frac : F → ℕ
  frac val =
      floats.to_u64
        (floats.times_million (floats.minus (abs_val val) (floats.of_u64 (int_part val))))

  abbrev pub sign : F → Writer
  sign val offset buf =
      if floats.is_negative val then put_byte b'-' offset buf else some (offset, buf)

  -- `write_f64`
  unfoldable pub write_f64 : F → Writer
  write_f64 val offset buf =
      if leb (length buf) offset
      then some (offset, buf)
      else sign val offset buf
        then_write write_u64_dec (int_part val)
        then_write put_byte b'.'
        then_write write_u64_padded (frac val) 6
        then_write cap_number

  -- The values after the first, each after a comma.
  unfoldable pub write_values : List F → Writer
  write_values [] offset buf = some (offset, buf)
  write_values (val ∷ vals) offset buf =
      write_str (codes ",") offset buf then_write write_f64 val then_write write_values vals

  -- `write_f64_array`, for an array of three.
  unfoldable pub write_f64_array : F → F → F → Writer
  write_f64_array x y z offset buf =
      write_str (codes "[") offset buf
      then_write write_f64 x
      then_write write_values (y ∷ z ∷ [])
      then_write write_str (codes "]")

-- `len += write(buf, len, …)`, where the write returns an offset.
abbrev pub add_written : ℕ → Written → Written
add_written len none = none
add_written len (some (offset, buf)) = some (len + offset, buf)

abbrev pub add_len : Writer → Writer
add_len write len buf = add_written len (write len buf)

-- `len.min(buf.len())`
abbrev pub capped : Writer
capped len buf = some (min len (length buf), buf)

-- `format_diagnostics`: the length of the payload, and the buffer.
unfoldable pub format_diagnostics : ℕ → ℕ → List ℕ → Written
format_diagnostics cycle_count error_count buf =
    if ltb (length buf) 32
    then some (0, buf)
    else add_len (write_str (codes "{\"cycles\":")) 0 buf
      then_write add_len (write_u32 cycle_count)
      then_write add_len (write_str (codes ",\"errors\":"))
      then_write add_len (write_u32 error_count)
      then_write add_len (write_str (codes "}"))
      then_write capped

-- `format_state_estimate`
unfoldable pub format_state_estimate :
    {F : Type 0} → Floats F → F × F × F → F × F × F → List ℕ → Written
format_state_estimate floats (px, py, pz) (vx, vy, vz) buf =
    if ltb (length buf) 32
    then some (0, buf)
    else add_len (write_str (codes "{\"pos\":")) 0 buf
      then_write add_len (write_f64_array floats px py pz)
      then_write add_len (write_str (codes ",\"vel\":"))
      then_write add_len (write_f64_array floats vx vy vz)
      then_write add_len (write_str (codes "}"))
      then_write capped
