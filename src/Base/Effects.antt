-- ===== src/Base/Effects.antt =====
-- A fallible computation that changes a state: what an `async fn` with `?` in it does.
use the_mql.Base.Results.{Result, ok, err}

abbrev pub M : Type 0 → Type 0 → Type 0 → Type 0
M W E A = W → Result E A × W

module _ {W E : Type 0} where
  abbrev pub return : {A : Type 0} → A → M W E A
  return a w = (ok a, w)

  abbrev pub throw : {A : Type 0} → E → M W E A
  throw e w = (err e, w)

  abbrev pub continue : {A B : Type 0} → (A → M W E B) → Result E A → W → Result E B × W
  continue f (ok a) w = f a w
  continue f (err e) w = (err e, w)

  infixl 5 ◌>>=◌ ◌>>◌
  abbrev pub ◌>>=◌ : {A B : Type 0} → M W E A → (A → M W E B) → M W E B
  ◌>>=◌ m f w = continue f (m w).0 (m w).1

  abbrev pub ◌>>◌ : {A B : Type 0} → M W E A → M W E B → M W E B
  m >> k = m >>= λ _. k

  -- `let _ = m;`: the outcome is dropped, the state is not.
  abbrev pub discard : {A : Type 0} → M W E A → M W E (Unit {0})
  discard m w = (ok tt, (m w).1)
