-- ===== src/Embedded/Payload/Bounds.antt =====
-- crates/themql-embedded/src/mqtt.rs: no write leaves the buffer.
use the_mql.Base.{
  ℕ, ◌+◌, ◌-◌, ◌≤◌, ◌<◌, min, none, some, List, [], ◌∷◌, ◌++◌, length, length-append, drop, leb,
  ltb, ◌==◌, ◌≡◌, refl, sym, ap, ◌∙◌, arith, Bool-cases, inl, inr,
}
use the_mql.Base.Slices.{take, reverse, take-append, take-take, length-take, length-drop}
use the_mql.Base.Text.{Text, codes}
use the_mql.Embedded.Payload.{
  Written, Writer, copy_at, placed, ◌then_write◌, write_str, low_digits, copy_fitting,
  write_u64_dec, write_u64_padded, put_byte, cap_number, Floats, sign, write_f64, write_values,
  write_f64_array, add_written, add_len, frac, int_part,
}

-- A write that did not panic: the buffer keeps its length and everything before the offset, and the
-- next offset is not before this one.
abbrev pub Fits : ℕ → List ℕ → Written → Type 0
Fits offset buf none = ⊥
Fits offset buf (some (o, out)) =
    (length out ≡ length buf) × (offset ≤ o) × (take offset out ≡ take offset buf)

abbrev pub IsSafe : Writer → Type 0
IsSafe w = (offset : ℕ) (buf : List ℕ) → Fits offset buf (w offset buf)

still-Fits : (offset : ℕ) (buf : List ℕ) → Fits offset buf (some (offset, buf))
still-Fits offset buf = (refl, omega arith, refl)

pub length-patched :
    (offset : ℕ) (s buf : List ℕ)
    → offset + length s ≤ length buf
    → length (take offset buf ++ s ++ drop (offset + length s) buf) ≡ length buf
length-patched offset s buf h = omega (
  arith,
  length-append (take offset buf ++ s) (drop (offset + length s) buf),
  length-append (take offset buf) s,
  length-take offset buf (omega arith),
  length-drop (offset + length s) buf,
)

take-patched :
    (offset : ℕ) (s buf : List ℕ)
    → offset + length s ≤ length buf
    → take offset (take offset buf ++ s ++ drop (offset + length s) buf) ≡ take offset buf
take-patched offset s buf h =
    let size : length (take offset buf) ≡ offset = length-take offset buf (omega arith) in
    take-append offset (take offset buf ++ s) _
      (omega (arith, size, length-append (take offset buf) s))
    ∙ take-append offset (take offset buf) s (omega (arith, size))
    ∙ take-take offset offset buf (omega arith)

pub copy-Fits :
    (next offset : ℕ) (s buf : List ℕ)
    → offset ≤ next
    → offset + length s ≤ length buf
    → Fits offset buf (placed next (copy_at offset s buf))
copy-Fits next offset s buf h k = elim (Bool-cases (leb (offset + length s) (length buf))) [
  | inl e ↦ rw e (length-patched offset s buf k, h, take-patched offset s buf k)
  | inr e ↦ absurd (ground arith)
]

-- A write at a later offset.
after-Fits :
    (offset o : ℕ) (buf out : List ℕ) (r : Written)
    → Fits offset buf (some (o, out))
    → Fits o out r
    → Fits offset buf r
after-Fits offset o buf out none f g = g
after-Fits offset o buf out (some (o₂, out₂)) f g = (
  g.0 ∙ f.0,
  omega (arith, f.1, g.1),
  sym (take-take offset o out₂ f.1) ∙ ap (take offset) g.2 ∙ take-take offset o out f.1 ∙ f.2,
)

pub then-Fits :
    (offset : ℕ) (buf : List ℕ) (r : Written) (w : Writer)
    → Fits offset buf r
    → IsSafe w
    → Fits offset buf (r then_write w)
then-Fits offset buf none w f s = f
then-Fits offset buf (some (o, out)) w f s = after-Fits offset o buf out (w o out) f (s o out)

add-Fits :
    (len : ℕ) (buf : List ℕ) (r : Written) → Fits len buf r → Fits len buf (add_written len r)
add-Fits len buf none f = f
add-Fits len buf (some (o, out)) f = (f.0, omega arith, f.2)

copy_fitting-IsSafe :
    (bytes : List ℕ) (offset : ℕ) (buf : List ℕ)
    → offset ≤ length buf
    → Fits offset buf (copy_fitting bytes offset buf)
copy_fitting-IsSafe bytes offset buf h =
    let n = min (length bytes) (length buf - offset) in
    copy-Fits (offset + n) offset (take n bytes) buf (omega arith)
      (omega (arith, length-take n bytes (omega arith)))

pub write_str-IsSafe : (s : Text) → IsSafe (write_str s)
unfolding write_str
write_str-IsSafe s offset buf = elim (Bool-cases (leb (length buf) offset)) [
  | inl e ↦ rw e (still-Fits offset buf)
  | inr e ↦ elim (Bool-cases (ltb (length buf) (offset + length s))) [
    | inl f ↦ rw (e, f) (still-Fits offset buf)
    | inr f ↦ rw (e, f) (copy-Fits (offset + length s) offset s buf (omega arith) (ground arith))
  ]
]

pub write_u64_dec-IsSafe : (val : ℕ) → IsSafe (write_u64_dec val)
unfolding write_u64_dec
write_u64_dec-IsSafe val offset buf = elim (Bool-cases (leb (length buf) offset)) [
  | inl e ↦ rw e (still-Fits offset buf)
  | inr e ↦
      let room : offset < length buf = ground arith in
      elim (Bool-cases (val == 0)) [
        | inl f ↦
            rw (e, f) (copy-Fits (offset + 1) offset (b'0' ∷ []) buf (omega arith) (omega arith))
        | inr f ↦
            rw (e, f) (copy_fitting-IsSafe (reverse (low_digits 20 val)) offset buf (omega arith))
      ]
]

write_u64_padded-IsSafe : (val width : ℕ) → IsSafe (write_u64_padded val width)
unfolding write_u64_padded
write_u64_padded-IsSafe val width offset buf = elim (Bool-cases (leb (length buf) offset)) [
  | inl e ↦ rw e (still-Fits offset buf)
  | inr e ↦ rw e (copy_fitting-IsSafe _ offset buf (ground arith))
]

put_byte-IsSafe : (b : ℕ) → IsSafe (put_byte b)
put_byte-IsSafe b pos buf = elim (Bool-cases (ltb pos (length buf))) [
  | inl e ↦ rw e (copy-Fits (pos + 1) pos (b ∷ []) buf (omega arith) (ground arith))
  | inr e ↦ rw e (still-Fits pos buf)
]

pub add_len-IsSafe : (w : Writer) → IsSafe w → IsSafe (add_len w)
add_len-IsSafe w s len buf = add-Fits len buf (w len buf) (s len buf)

module _ {F : Type 0} (floats : Floats F) where
  sign-IsSafe : (val : F) → IsSafe (sign floats val)
  sign-IsSafe val offset buf = elim (Bool-cases (floats.is_negative val)) [
    | inl e ↦ rw e (put_byte-IsSafe b'-' offset buf)
    | inr e ↦ rw e (still-Fits offset buf)
  ]

  -- The cap at the end of a number.
  cap_number-Fits :
      (offset : ℕ) (buf : List ℕ) (r : Written)
      → offset ≤ length buf
      → Fits offset buf r
      → Fits offset buf (r then_write cap_number)
  cap_number-Fits offset buf none h f = f
  cap_number-Fits offset buf (some (o, out)) h f = elim (Bool-cases (ltb (length out) o)) [
    | inl e ↦ rw e (f.0, omega (arith, f.0), f.2)
    | inr e ↦ rw e f
  ]

  write_f64-IsSafe : (val : F) → IsSafe (write_f64 floats val)
  unfolding write_f64
  write_f64-IsSafe val offset buf = elim (Bool-cases (leb (length buf) offset)) [
    | inl e ↦ rw e (still-Fits offset buf)
    | inr e ↦ rw e (
        cap_number-Fits offset buf _ (ground arith) (
          then-Fits offset buf _ _
            (then-Fits offset buf _ _
              (then-Fits offset buf _ _ (sign-IsSafe val offset buf)
                (write_u64_dec-IsSafe (int_part floats val)))
              (put_byte-IsSafe b'.'))
            (write_u64_padded-IsSafe (frac floats val) 6)))
  ]

  write_values-IsSafe : (vals : List F) → IsSafe (write_values floats vals)
  unfolding write_values
  write_values-IsSafe [] offset buf = still-Fits offset buf
  write_values-IsSafe (val ∷ vals) offset buf =
      then-Fits offset buf _ _
        (then-Fits offset buf _ _ (write_str-IsSafe (codes ",") offset buf) (write_f64-IsSafe val))
        (write_values-IsSafe vals)

  pub write_f64_array-IsSafe : (x y z : F) → IsSafe (write_f64_array floats x y z)
  unfolding write_f64_array
  write_f64_array-IsSafe x y z offset buf =
      then-Fits offset buf _ _
        (then-Fits offset buf _ _
          (then-Fits offset buf _ _ (write_str-IsSafe (codes "[") offset buf) (write_f64-IsSafe x))
          (write_values-IsSafe (y ∷ z ∷ [])))
        (write_str-IsSafe (codes "]"))
