-- ===== src/Base/Decimal.antt =====
-- The decimal text of an unsigned integer, as `to_string` writes it, and its value.
use Prim.Native.Nat.{ℕ, zero, suc, ◌+◌, ◌-◌, ◌*◌, ◌/◌, ◌%◌, ◌<◌, ◌≤◌, ◌^◌}
use mathlib.Core.Path.{◌≡◌, refl}
use mathlib.Core.Logic.{inl, inr, ◌≢◌}
use mathlib.Core.List.{[], ◌∷◌, ◌++◌}
use native.Mathlib.Omega.{arith}
use the_mql.Base.Lists.{All, All-append}
use the_mql.Base.Tests.{ltb, if◌then◌else◌, Bool-cases}
use the_mql.Base.Text.{Text}

-- The digits of `n`, the last `fuel` of them at most.
unfoldable pub digits_of : ℕ → ℕ → Text
digits_of zero n = []
digits_of (suc fuel) n =
    let rest = digits_of fuel (n / 10) in
    if ltb n 10 then (48 + n) ∷ [] else rest ++ (48 + n % 10) ∷ []

-- A `u64` has at most 20 digits.
unfoldable pub decimal : ℕ → Text
unfolding digits_of
decimal n = digits_of 20 n

unfoldable pub read_digits : ℕ → Text → ℕ
read_digits acc [] = acc
read_digits acc (c ∷ s) = read_digits (acc * 10 + (c - 48)) s

read_digits-append :
    (acc c : ℕ) (s : Text) → read_digits acc (s ++ c ∷ []) ≡ read_digits acc s * 10 + (c - 48)
unfolding read_digits
read_digits-append acc c [] = refl
read_digits-append acc c (d ∷ s) = read_digits-append (acc * 10 + (d - 48)) c s

-- The numbers of at most `fuel` digits are those below this one.
abbrev ceiling : ℕ → ℕ
ceiling zero = 1
ceiling (suc fuel) = 10 * ceiling fuel

read_digits-digits_of : (fuel n : ℕ) → n < ceiling fuel → read_digits 0 (digits_of fuel n) ≡ n
unfolding digits_of read_digits
read_digits-digits_of zero n h = omega arith
read_digits-digits_of (suc fuel) n h = elim (Bool-cases (ltb n 10)) [
  | inl e ↦ rw e (omega arith)
  | inr e ↦
      let upper : read_digits 0 (digits_of fuel (n / 10)) ≡ n / 10 =
        read_digits-digits_of fuel (n / 10) (omega arith) in
      rw (e, read_digits-append 0 (48 + n % 10) (digits_of fuel (n / 10)), upper) (omega arith)
]

-- Reading the decimal text of a `u64` gives it back.
pub read_digits-decimal : (n : ℕ) → n < 2 ^ 64 → read_digits 0 (decimal n) ≡ n
unfolding decimal
read_digits-decimal n h = read_digits-digits_of 20 n (omega arith)

abbrev pub IsDigit : ℕ → Type 0
IsDigit c = (48 ≤ c) × (c < 58)

digits_of-IsDigit : (fuel n : ℕ) → All IsDigit (digits_of fuel n)
unfolding digits_of
digits_of-IsDigit zero n = tt
digits_of-IsDigit (suc fuel) n = elim (Bool-cases (ltb n 10)) [
  | inl e ↦ rw e ((omega arith, ground arith), tt)
  | inr e ↦ rw e (
      All-append IsDigit (digits_of fuel (n / 10)) _ (digits_of-IsDigit fuel (n / 10))
        ((omega arith, omega arith), tt))
]

pub decimal-IsDigit : (n : ℕ) → All IsDigit (decimal n)
unfolding decimal
decimal-IsDigit n = digits_of-IsDigit 20 n

snoc-ne-nil : (s : Text) (c : ℕ) → s ++ c ∷ [] ≢ []
snoc-ne-nil [] c = λ e. cc
snoc-ne-nil (d ∷ s) c = λ e. cc

pub decimal-ne-nil : (n : ℕ) → decimal n ≢ []
unfolding decimal digits_of
decimal-ne-nil n e = elim (Bool-cases (ltb n 10)) [
  | inl b ↦ absurd (cc (rw b at e))
  | inr b ↦ absurd (snoc-ne-nil _ _ (rw b at e))
]
