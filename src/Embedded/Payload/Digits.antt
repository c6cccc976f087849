-- ===== src/Embedded/Payload/Digits.antt =====
-- crates/themql-embedded/src/mqtt.rs: the digits that `write_u64_dec` writes.
use the_mql.Base.{
  ℕ, zero, suc, ◌+◌, ◌-◌, ◌/◌, ◌%◌, ◌≤◌, ◌<◌, min, some, List, [], ◌∷◌, ◌++◌, length, drop, leb,
  ltb, ◌==◌, ◌≡◌, ◌≢◌, refl, ap, arith, Bool-cases, inl, inr,
}
use the_mql.Base.Decimal.{digits_of, decimal, decimal-ne-nil}
use the_mql.Base.Slices.{take, reverse, take_whole}
use the_mql.Embedded.Payload.{copy_at, placed, low_digits, copy_fitting, write_u64_dec}

low_digits_zero : (room : ℕ) → low_digits room 0 ≡ []
unfolding low_digits
low_digits_zero zero = refl
low_digits_zero (suc room) = refl

-- The digits of the loop, turned around, are those of the number.
reverse-low_digits : (room v : ℕ) → v ≢ 0 → reverse (low_digits room v) ≡ digits_of room v
unfolding low_digits digits_of
reverse-low_digits zero v h = refl
reverse-low_digits (suc room) v h = elim (Bool-cases (v == 0)) [
  | inl z ↦ absurd (ground arith)
  | inr z ↦ elim (Bool-cases (ltb v 10)) [
    | inl e ↦
        let none_above : v / 10 ≡ 0 = ground (arith, e) in
        let itself : v % 10 ≡ v = ground (arith, e) in
        rw (z, e, none_above, low_digits_zero room, itself) refl
    | inr e ↦ rw (z, e, reverse-low_digits room (v / 10) (λ q. absurd (ground (arith, q)))) refl
  ]
]

reverse-low_digits-decimal : (v : ℕ) → v ≢ 0 → reverse (low_digits 20 v) ≡ decimal v
unfolding decimal
reverse-low_digits-decimal v h = reverse-low_digits 20 v h

decimal_zero : decimal 0 ≡ b'0' ∷ []
unfolding decimal digits_of
decimal_zero = refl

pub copy_at-eq-some :
    (offset : ℕ) (s buf : List ℕ)
    → offset + length s ≤ length buf
    → copy_at offset s buf ≡ some (take offset buf ++ s ++ drop (offset + length s) buf)
copy_at-eq-some offset s buf h = elim (Bool-cases (leb (offset + length s) (length buf))) [
  | inl e ↦ rw e refl
  | inr e ↦ absurd (ground arith)
]

positive : (s : List ℕ) → s ≢ [] → 0 < length s
positive [] h = absurd (h refl)
positive (c ∷ s) h = omega arith

-- Everything is copied if there is room for it.
copy_fitting_whole :
    (offset : ℕ) (s buf : List ℕ)
    → offset + length s ≤ length buf
    → copy_fitting s offset buf
      ≡ some (offset + length s, take offset buf ++ s ++ drop (offset + length s) buf)
copy_fitting_whole offset s buf h =
    let all : min (length s) (length buf - offset) ≡ length s = omega arith in
    rw (all, take_whole (length s) s (omega arith), copy_at-eq-some offset s buf h) refl

decimal-positive : (val : ℕ) → 0 < length (decimal val)
decimal-positive val = positive (decimal val) (decimal-ne-nil val)

-- If the text of the number fits, then `write_u64_dec` puts it at the offset as `to_string` gives it,
-- changes nothing else, and returns the offset after it.
pub write_u64_dec-decimal :
    (val offset : ℕ) (buf : List ℕ)
    → offset + length (decimal val) ≤ length buf
    → write_u64_dec val offset buf
      ≡ some (
        offset + length (decimal val),
        take offset buf ++ decimal val ++ drop (offset + length (decimal val)) buf,
      )
unfolding write_u64_dec
write_u64_dec-decimal val offset buf h = elim (Bool-cases (leb (length buf) offset)) [
  | inl e ↦ absurd (ground (arith, decimal-positive val))
  | inr e ↦ elim (Bool-cases (val == 0)) [
    | inl z ↦
        let empty : val ≡ 0 = ground arith in
        rw (e, z, empty, decimal_zero)
          (ap (placed (offset + 1))
            (copy_at-eq-some offset (b'0' ∷ []) buf (rw (empty, decimal_zero) at h)))
    | inr z ↦
        let digits = reverse-low_digits-decimal val (λ q. absurd (ground (arith, q))) in
        rw (e, z, digits) (copy_fitting_whole offset (decimal val) buf h)
  ]
]
