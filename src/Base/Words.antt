-- ===== src/Base/Words.antt =====
-- Signed words of `w` bits: wrapping, shifts, truncating division, and bytes with the lowest first.
use Prim.Native.Nat.{ℕ, ◌+◌, ◌-◌, ◌*◌, ◌/◌, ◌%◌, ◌^◌, ◌<◌}
use mathlib.Core.Path.{◌≡◌, ap}
use mathlib.Core.List.{List, [], ◌∷◌}
use native.Mathlib.Omega.{arith}
use the_mql.Base.Tests.{ltb, if◌then◌else◌}
use the_mql.Base.Int.{ℤ, pos, negsuc, sub_ℕ}

-- The bits of an integer, as a number below `2 ^ w`.
abbrev pub bits : ℕ → ℤ → ℕ
bits w (pos n) = n % 2 ^ w
bits w (negsuc n) = 2 ^ w - 1 - n % 2 ^ w

-- The integer of `w` bits, the highest of which is the sign.
abbrev pub signed : ℕ → ℕ → ℤ
signed w r = if ltb r (2 ^ (w - 1)) then pos r else negsuc (2 ^ w - 1 - r)

-- What is left of an integer in a signed word.
unfoldable pub wrap : ℕ → ℤ → ℤ
wrap w z = signed w (bits w z)

-- `>>`, which rounds down.
unfoldable pub asr : ℤ → ℕ → ℤ
asr (pos n) k = pos (n / 2 ^ k)
asr (negsuc n) k = negsuc (n / 2 ^ k)

-- `/`, which rounds towards zero.
unfoldable pub div_trunc : ℤ → ℤ → ℤ
div_trunc (pos a) (pos b) = pos (a / b)
div_trunc (pos a) (negsuc b) = sub_ℕ 0 (a / (b + 1))
div_trunc (negsuc a) (pos b) = sub_ℕ 0 ((a + 1) / b)
div_trunc (negsuc a) (negsuc b) = pos ((a + 1) / (b + 1))

-- `i32::to_le_bytes`
unfoldable pub to_le_bytes : ℤ → List ℕ
to_le_bytes z =
    let r = bits 32 z in (r % 256) ∷ (r / 256 % 256) ∷ (r / 65_536 % 256) ∷ (r / 16_777_216) ∷ []

-- The 32-bit integer of four bytes.
abbrev pub of_le_bytes : ℕ → ℕ → ℕ → ℕ → ℤ
of_le_bytes a b c d = signed 32 (a + b * 256 + c * 65_536 + d * 16_777_216)

pub bits-lt : (z : ℤ) → bits 32 z < 2 ^ 32
bits-lt (pos n) = omega arith
bits-lt (negsuc n) = omega arith

bytes_sum :
    (r : ℕ)
    → r % 256 + r / 256 % 256 * 256 + r / 65_536 % 256 * 65_536 + r / 16_777_216 * 16_777_216 ≡ r
bytes_sum r = omega arith

-- The bytes of an integer give what is left of it in 32 bits.
pub of_le_bytes-bits :
    (z : ℤ)
    → let r = bits 32 z in
      of_le_bytes (r % 256) (r / 256 % 256) (r / 65_536 % 256) (r / 16_777_216) ≡ wrap 32 z
unfolding wrap
of_le_bytes-bits z = ap (signed 32) (bytes_sum (bits 32 z))

-- Wrapping a word leaves it as it is.
pub wrap-wrap : (z : ℤ) → wrap 32 (wrap 32 z) ≡ wrap 32 z
unfolding wrap
wrap-wrap z = ground (arith, bits-lt z)
