-- ===== src/Base/Affixes.antt =====
-- What `starts_with` and `strip_suffix` say about a text.
use mathlib.Core.Path.{◌≡◌, refl, ap, ap₂, ◌∙◌}
use mathlib.Core.Logic.{◌↔◌, inl, inr}
use mathlib.Core.Bool.{true, false}
use mathlib.Core.List.{[], ◌∷◌, ◌++◌}
use mathlib.Core.Option.{some}
use native.Mathlib.Omega.{arith}
use the_mql.Base.Lists.{length, length-append}
use the_mql.Base.Tests.{Bool-cases, Option-cases}
use the_mql.Base.Text.{Text, text_eq, text_eq_iff, text_eq_refl, starts_with, strip_suffix}

starts_with-append : (t rest : Text) → starts_with (t ++ rest) t ≡ true
unfolding starts_with
starts_with-append [] [] = refl
starts_with-append [] (c ∷ rest) = refl
starts_with-append (c ∷ t) rest = ground (arith, starts_with-append t rest)

starts_with-eq-true : (s t : Text) → starts_with s t ≡ true → (rest : Text) × (s ≡ t ++ rest)
unfolding starts_with
starts_with-eq-true s [] h = (s, refl)
starts_with-eq-true [] (d ∷ t) h = cc
starts_with-eq-true (c ∷ s) (d ∷ t) h =
    let (rest, e) = starts_with-eq-true s t (ground arith) in
    let same : c ≡ d = ground arith in (rest, ap₂ ◌∷◌ same e)

pub starts_with_iff : (s t : Text) → (starts_with s t ≡ true) ↔ ((rest : Text) × (s ≡ t ++ rest))
starts_with_iff s t = (starts_with-eq-true s t, λ (rest, e). rw e (starts_with-append t rest))

strip_suffix-eq-some : (s suffix p : Text) → strip_suffix s suffix ≡ some p → s ≡ p ++ suffix
unfolding strip_suffix
strip_suffix-eq-some [] suffix p h = ground (arith, text_eq_iff [] suffix)
strip_suffix-eq-some (c ∷ s) suffix p h = elim (Bool-cases (text_eq (c ∷ s) suffix)) [
  | inl e ↦ ground (arith, text_eq_iff (c ∷ s) suffix)
  | inr e ↦ elim (Option-cases (strip_suffix s suffix)) [
    | inl n ↦ absurd (ground arith)
    | inr (q, g) ↦
        let whole : c ∷ q ≡ p = ground arith in
        ap (◌∷◌ c) (strip_suffix-eq-some s suffix q g) ∙ ap (λ l. l ++ suffix) whole
  ]
]

-- A text longer than another differs from it.
longer : (c : _) (p suffix : Text) → text_eq (c ∷ p ++ suffix) suffix ≡ false
longer c p suffix = elim (Bool-cases (text_eq (c ∷ p ++ suffix) suffix)) [
  | inr e ↦ e
  | inl e ↦
      let h : length (c ∷ p ++ suffix) ≡ length suffix = ap length ((text_eq_iff _ _).0 e) in
      absurd (omega (arith, length-append p suffix))
]

strip_suffix-append : (p suffix : Text) → strip_suffix (p ++ suffix) suffix ≡ some p
unfolding strip_suffix
strip_suffix-append [] [] = refl
strip_suffix-append [] (c ∷ suffix) = rw (text_eq_refl (c ∷ suffix))
strip_suffix-append (c ∷ p) suffix = rw (longer c p suffix, strip_suffix-append p suffix)

pub strip_suffix_iff : (s suffix p : Text) → (strip_suffix s suffix ≡ some p) ↔ (s ≡ p ++ suffix)
strip_suffix_iff s suffix p =
    (strip_suffix-eq-some s suffix p, λ e. rw e (strip_suffix-append p suffix))
