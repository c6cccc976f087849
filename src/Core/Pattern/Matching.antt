-- ===== src/Core/Pattern/Matching.antt =====
-- crates/themql-core/src/lib.rs: `SubjectPattern::matches` decides an inductive relation that has no
-- index and no loop in it.
use the_mql.Base.{true, List, [], ◌∷◌, map, ◌≡◌, refl, ◌↔◌, ap, subst, arith}
use the_mql.Base.Text.{text_eq_iff, text_eq_refl}
use the_mql.Core.Subject.{SubjectSegment, Subject}
use the_mql.Core.Pattern.{
  PatternSegment, concrete, wildcard_one, wildcard_multi, SubjectPattern, matches_from, matches,
}

-- A pattern covers a subject: a concrete segment covers itself, `+` any one segment, and a final
-- `#` whatever is left.
pub data Covers : List PatternSegment → List SubjectSegment → Type 0 where
  done : Covers [] []
  same :
      {seg : SubjectSegment} {pattern : List PatternSegment} {subject : List SubjectSegment}
      → Covers pattern subject
      → Covers (concrete seg ∷ pattern) (seg ∷ subject)
  one :
      {seg : SubjectSegment} {pattern : List PatternSegment} {subject : List SubjectSegment}
      → Covers pattern subject
      → Covers (wildcard_one ∷ pattern) (seg ∷ subject)
  rest : {subject : List SubjectSegment} → Covers (wildcard_multi ∷ []) subject

-- `#` stands at the end of the pattern only.
abbrev pub MultiLast : List PatternSegment → Type 0
MultiLast [] = Unit
MultiLast (wildcard_multi ∷ pattern) = pattern ≡ []
MultiLast (_ ∷ pattern) = MultiLast pattern

matches_from-Covers :
    (pattern : List PatternSegment) (subject : List SubjectSegment)
    → MultiLast pattern
    → matches_from pattern subject ≡ true
    → Covers pattern subject
unfolding matches_from
matches_from-Covers [] [] m h = done
matches_from-Covers [] (c ∷ subject) m h = cc
matches_from-Covers (wildcard_multi ∷ []) subject m h = rest
matches_from-Covers (wildcard_multi ∷ p ∷ pattern) subject m h = cc
matches_from-Covers (concrete seg ∷ pattern) [] m h = cc
matches_from-Covers (wildcard_one ∷ pattern) [] m h = cc
matches_from-Covers (concrete seg ∷ pattern) (c ∷ subject) m h =
    let e : seg.text ≡ c.text = (text_eq_iff seg.text c.text).0 (ground arith) in
    let e' : seg ≡ c = ap (λ t. record { text = t }) e in
    subst (λ s. Covers (concrete seg ∷ pattern) (s ∷ subject)) e'
      (same (matches_from-Covers pattern subject m (ground arith)))
matches_from-Covers (wildcard_one ∷ pattern) (c ∷ subject) m h =
    one (matches_from-Covers pattern subject m h)

Covers-matches_from :
    {pattern : List PatternSegment} {subject : List SubjectSegment}
    → Covers pattern subject
    → matches_from pattern subject ≡ true
unfolding matches_from
Covers-matches_from done = refl
Covers-matches_from (same {seg} c) = rw (text_eq_refl seg.text) (Covers-matches_from c)
Covers-matches_from (one c) = Covers-matches_from c
Covers-matches_from (rest {subject = []}) = refl
Covers-matches_from (rest {subject = c ∷ subject}) = refl

-- On a pattern with `#` at the end only, `matches` answers true exactly on the subjects covered.
pub matches_iff :
    (pattern : SubjectPattern) (subject : Subject)
    → MultiLast pattern.segments
    → (matches pattern subject ≡ true) ↔ Covers pattern.segments subject.segments
unfolding matches
matches_iff pattern subject m =
    (matches_from-Covers pattern.segments subject.segments m, Covers-matches_from)

-- The pattern that has the segments of a subject for its concrete segments.
abbrev pub exact : List SubjectSegment → List PatternSegment
exact = map concrete

pub Covers-exact :
    (segs : List SubjectSegment) {subject : List SubjectSegment}
    → Covers (exact segs) subject
    → segs ≡ subject
Covers-exact [] done = refl
Covers-exact (seg ∷ segs) (same c) = ap (◌∷◌ seg) (Covers-exact segs c)

pub exact-Covers : (segs : List SubjectSegment) → Covers (exact segs) segs
exact-Covers [] = done
exact-Covers (seg ∷ segs) = same (exact-Covers segs)
