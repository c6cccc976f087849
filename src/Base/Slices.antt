-- ===== src/Base/Slices.antt =====
-- The first elements of a list and what is left after them, as slices of Rust have them.
use Prim.Native.Nat.{ℕ, zero, suc, ◌+◌, ◌-◌, ◌≤◌}
use mathlib.Core.Path.{◌≡◌, refl, sym, ap, ◌∙◌}
use mathlib.Core.List.{List, [], ◌∷◌, ◌++◌}
use native.Mathlib.Omega.{arith}
use the_mql.Base.Lists.{length, drop}

module _ {A : Type 0} where
  abbrev pub take : ℕ → List A → List A
  take zero xs = []
  take (suc n) [] = []
  take (suc n) (x ∷ xs) = x ∷ take n xs

  abbrev pub reverse : List A → List A
  reverse [] = []
  reverse (x ∷ xs) = reverse xs ++ x ∷ []

  pub drop-append : (k : ℕ) (xs ys : List A) → k ≤ length xs → drop k (xs ++ ys) ≡ drop k xs ++ ys
  drop-append zero xs ys h = refl
  drop-append (suc k) [] ys h = absurd (omega arith)
  drop-append (suc k) (x ∷ xs) ys h = drop-append k xs ys (omega arith)

  pub drop_nil : (k : ℕ) → drop {A = A} k [] ≡ []
  drop_nil zero = refl
  drop_nil (suc k) = refl

  pub drop-drop : (j k : ℕ) (xs : List A) → drop j (drop k xs) ≡ drop (k + j) xs
  drop-drop j zero xs = ap (λ n. drop n xs) (omega arith)
  drop-drop j (suc k) [] = drop_nil j ∙ sym (drop_nil (suc k + j))
  drop-drop j (suc k) (x ∷ xs) =
      let shift : suc k + j ≡ suc (k + j) = omega arith in
      drop-drop j k xs ∙ sym (ap (λ n. drop n (x ∷ xs)) shift)

  pub length-drop : (k : ℕ) (xs : List A) → length (drop k xs) ≡ length xs - k
  length-drop zero xs = omega arith
  length-drop (suc k) [] = omega arith
  length-drop (suc k) (x ∷ xs) = omega (arith, length-drop k xs)

  pub drop_past : (xs ys : List A) (e : A) → drop (length xs + 1) (xs ++ e ∷ ys) ≡ ys
  drop_past [] ys e = refl
  drop_past (x ∷ xs) ys e =
      let next : length (x ∷ xs) + 1 ≡ suc (length xs + 1) = omega arith in
      ap (λ n. drop n (x ∷ xs ++ e ∷ ys)) next ∙ drop_past xs ys e

  pub take-append : (k : ℕ) (xs ys : List A) → k ≤ length xs → take k (xs ++ ys) ≡ take k xs
  take-append zero xs ys h = refl
  take-append (suc k) [] ys h = absurd (omega arith)
  take-append (suc k) (x ∷ xs) ys h = ap (◌∷◌ x) (take-append k xs ys (omega arith))

  pub take_prefix : (xs ys : List A) → take (length xs) (xs ++ ys) ≡ xs
  take_prefix [] ys = refl
  take_prefix (x ∷ xs) ys = ap (◌∷◌ x) (take_prefix xs ys)

  pub take_past : (k : ℕ) (xs ys : List A) → take (length xs + k) (xs ++ ys) ≡ xs ++ take k ys
  take_past k [] ys = ap (λ n. take n ys) (omega arith)
  take_past k (x ∷ xs) ys =
      let shift : length (x ∷ xs) + k ≡ suc (length xs + k) = omega arith in
      ap (λ n. take n (x ∷ xs ++ ys)) shift ∙ ap (◌∷◌ x) (take_past k xs ys)

  pub take_whole : (k : ℕ) (xs : List A) → length xs ≤ k → take k xs ≡ xs
  take_whole zero [] h = refl
  take_whole zero (x ∷ xs) h = absurd (omega arith)
  take_whole (suc k) [] h = refl
  take_whole (suc k) (x ∷ xs) h = ap (◌∷◌ x) (take_whole k xs (omega arith))

  pub take-take : (j k : ℕ) (xs : List A) → j ≤ k → take j (take k xs) ≡ take j xs
  take-take zero k xs h = refl
  take-take (suc j) zero xs h = absurd (omega arith)
  take-take (suc j) (suc k) [] h = refl
  take-take (suc j) (suc k) (x ∷ xs) h = ap (◌∷◌ x) (take-take j k xs (omega arith))

  pub length-take : (k : ℕ) (xs : List A) → k ≤ length xs → length (take k xs) ≡ k
  length-take zero xs h = omega arith
  length-take (suc k) [] h = absurd (omega arith)
  length-take (suc k) (x ∷ xs) h = omega (arith, length-take k xs (omega arith))
