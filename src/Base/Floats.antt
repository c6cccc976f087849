-- ===== src/Base/Floats.antt =====
-- The operations of `f64` that the crates use. They belong to the hardware, so that they are a
-- parameter; a literal `n / d` is the number nearest to that fraction.
use Prim.Native.Nat.{ℕ, ◌+◌, ◌-◌, ◌*◌, ◌/◌}
use mathlib.Core.Bool.{Bool, true}
use the_mql.Base.Decimal.{decimal}
use the_mql.Base.Tests.{ltb, leb}
use the_mql.Base.Text.{Text}

pub record Floats (F : Type 0) : Type 0 where
  pub lit : ℕ → ℕ → F
  pub of_nat : ℕ → F
  pub add : F → F → F
  pub sub : F → F → F
  pub mul : F → F → F
  pub div : F → F → F
  pub neg : F → F
  pub magnitude : F → F
  pub sqrt : F → F
  pub lt : F → F → Bool
  pub le : F → F → Bool
  pub is_finite : F → Bool
  pub infinity : F
  pub display : F → Text

-- The natural numbers in their place, for runs on concrete data.
abbrev pub naturals : Floats ℕ
naturals = record {
  lit = λ n d. n / d;
  of_nat = λ n. n;
  add = ◌+◌;
  sub = ◌-◌;
  mul = ◌*◌;
  div = ◌/◌;
  neg = λ a. 0;
  magnitude = λ a. a;
  sqrt = λ a. a;
  lt = ltb;
  le = leb;
  is_finite = λ a. true;
  infinity = 1_000_000;
  display = decimal;
}
