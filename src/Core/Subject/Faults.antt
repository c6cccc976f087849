-- ===== src/Core/Subject/Faults.antt =====
-- crates/themql-core/src/lib.rs: which error `Subject::from_str` returns, and why.
use the_mql.Base.{
  true, List, [], ◌∷◌, ◌≡◌, refl, ◌⊎◌, inl, inr, arith, All, Any, all, err, traverse, Result-cases,
}
use the_mql.Base.Text.{Text, codes, text_eq_iff, starts_with_char, ends_with_char, contains, split}
use the_mql.Base.Split.{IsFull, split-IsFull}
use the_mql.Core.Subject.{
  SubjectError, invalid_charset, trailing_separator, leading_separator, consecutive_separators,
  wildcard_in_concrete_subject, empty_subject, is_segment_char, new_segment, dot, concrete_part,
  separator_fault, parse_subject,
}
use the_mql.Core.Subject.Charset.{IsSegmentChar, charset_iff}
use the_mql.Core.Subject.Grammar.{separator_fault-IsTidy}

-- What an error says about one part of the text.
abbrev pub Faulty : SubjectError → Text → Type 0
Faulty wildcard_in_concrete_subject p = (p ≡ codes "+") ⊎ (p ≡ codes "#")
Faulty (invalid_charset t) p = (p ≡ t) × IsFull p × (All IsSegmentChar p → ⊥)
Faulty _ p = ⊥

-- What an error says about the text. The variants that stand for other faults, among them
-- `EmptySegment`, say something impossible.
abbrev pub Blames : Text → SubjectError → Type 0
Blames s empty_subject = s ≡ []
Blames s leading_separator = starts_with_char s dot ≡ true
Blames s trailing_separator = ends_with_char s dot ≡ true
Blames s consecutive_separators = contains s (codes "..") ≡ true
Blames s wildcard_in_concrete_subject = Any (Faulty wildcard_in_concrete_subject) (split s dot)
Blames s (invalid_charset t) = Any (Faulty (invalid_charset t)) (split s dot)
Blames s _ = ⊥

fault-Blames : (s : Text) (e : SubjectError) → separator_fault s ≡ err e → Blames s e
unfolding separator_fault
fault-Blames [] empty_subject h = refl
fault-Blames (c ∷ s) leading_separator h = ground arith
fault-Blames (c ∷ s) trailing_separator h = ground arith
fault-Blames (c ∷ s) consecutive_separators h = ground arith
fault-Blames [] _ h = cc
fault-Blames (c ∷ s) _ h = absurd (ground arith)

part-Faulty : (p : Text) (e : SubjectError) → IsFull p → concrete_part p ≡ err e → Faulty e p
unfolding concrete_part new_segment
part-Faulty [] e f h = absurd (f refl)
part-Faulty (c ∷ s) wildcard_in_concrete_subject f h =
    ground (arith, text_eq_iff (c ∷ s) (codes "+"), text_eq_iff (c ∷ s) (codes "#"))
part-Faulty (c ∷ s) (invalid_charset t) f h = (
  ground arith,
  f,
  λ g. let charset : all is_segment_char (c ∷ s) ≡ true = (charset_iff (c ∷ s)).1 g in ground arith,
)
part-Faulty (c ∷ s) _ f h = absurd (ground arith)

parts-Faulty :
    (ps : List Text) (e : SubjectError)
    → All IsFull ps
    → traverse concrete_part ps ≡ err e
    → Any (Faulty e) ps
parts-Faulty [] e f h = cc
parts-Faulty (p ∷ ps) e f h = elim (Result-cases (concrete_part p)) [
  | inl (seg, g) ↦ inr (parts-Faulty ps e f.1 (ground arith))
  | inr (e', g) ↦ inl (part-Faulty p e f.0 (ground arith))
]

Any-⊥ : (ps : List Text) → ¬ Any (λ _. ⊥) ps
Any-⊥ [] a = a
Any-⊥ (p ∷ ps) (inl a) = a
Any-⊥ (p ∷ ps) (inr a) = Any-⊥ ps a

parts-Blames : (s : Text) (e : SubjectError) → Any (Faulty e) (split s dot) → Blames s e
parts-Blames s wildcard_in_concrete_subject a = a
parts-Blames s (invalid_charset t) a = a
parts-Blames s _ a = absurd (Any-⊥ (split s dot) a)

-- Each error of `from_str` names a fault that the text has, and `EmptySegment`,
-- `SeparatorInSegment` and `WildcardMultiNotLast` are never returned.
pub parse_subject-Blames : (s : Text) (e : SubjectError) → parse_subject s ≡ err e → Blames s e
unfolding parse_subject
parse_subject-Blames s e h = elim (Result-cases (separator_fault s)) [
  | inl (u, g) ↦ parts-Blames s e (
      parts-Faulty (split s dot) e (split-IsFull s dot (separator_fault-IsTidy s u g))
        (ground arith))
  | inr (e', g) ↦ fault-Blames s e (ground arith)
]
