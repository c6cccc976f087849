-- ===== src/Core/Pattern/Grammar.antt =====
-- crates/themql-core/src/lib.rs: what `SubjectPattern::from_str` accepts.
use the_mql.Base.{
  Bool, true, false, List, [], ◌∷◌, map, ◌≡◌, refl, sym, ◌≢◌, ◌↔◌, arith, All, is_empty, ok, ap,
  ap₂, subst, ◌∙◌, >>=-eq-ok,
}
use the_mql.Base.Text.{Text, codes, text_eq, text_eq_iff, text_eq_refl, split, join, Without}
use the_mql.Base.Split.{IsFull, split-ne-nil, join-split, split-join, join-IsTidy}
use the_mql.Core.Subject.{
  SubjectSegment, Subject, is_segment_char, dot, separator_fault, subject_text,
}
use the_mql.Core.Subject.Grammar.{
  IsSegment, IsWellFormed, new_segment-eq-ok, new_segment_of_text, not_text, segment-Without,
  fault_of_IsTidy,
}
use the_mql.Core.Pattern.{
  PatternSegment, concrete, wildcard_one, wildcard_multi, SubjectPattern, pattern_part,
  pattern_parts, parse_pattern, pattern_segment_text, pattern_text, matches,
}
use the_mql.Core.Pattern.Matching.{MultiLast, exact, matches_iff, Covers-exact, exact-Covers}

-- The grammar of patterns: concrete segments as in subjects, and `#` at the end only.
abbrev pub IsPattern : List PatternSegment → Type 0
IsPattern [] = Unit
IsPattern (concrete seg ∷ pattern) = IsSegment seg × IsPattern pattern
IsPattern (wildcard_one ∷ pattern) = IsPattern pattern
IsPattern (wildcard_multi ∷ pattern) = pattern ≡ []

abbrev pub IsWellFormedPattern : SubjectPattern → Type 0
IsWellFormedPattern pattern = (pattern.segments ≢ []) × IsPattern pattern.segments

abbrev pub part_texts : List PatternSegment → List Text
part_texts = map pattern_segment_text

pub IsPattern-MultiLast : (pattern : List PatternSegment) → IsPattern pattern → MultiLast pattern
IsPattern-MultiLast [] h = tt
IsPattern-MultiLast (concrete seg ∷ pattern) h = IsPattern-MultiLast pattern h.1
IsPattern-MultiLast (wildcard_one ∷ pattern) h = IsPattern-MultiLast pattern h
IsPattern-MultiLast (wildcard_multi ∷ pattern) h = h

-- What one accepted part says of the part, and of the place where it stands.
part-eq-ok :
    (part : Text) (last : Bool) (seg : PatternSegment)
    → pattern_part part last ≡ ok seg
    → (pattern_segment_text seg ≡ part)
      × (seg ≡ wildcard_multi → last ≡ true)
      × IsPattern (seg ∷ [])
unfolding pattern_part pattern_segment_text
part-eq-ok part last (concrete seg) h =
    let (e, g) = new_segment-eq-ok part seg (ground arith) in (e, (λ m. cc), (rw e g, tt))
part-eq-ok part last wildcard_one h =
    (sym ((text_eq_iff part (codes "+")).0 (ground arith)), (λ m. cc), tt)
part-eq-ok part last wildcard_multi h =
    (sym ((text_eq_iff part (codes "#")).0 (ground arith)), (λ m. ground arith), refl)

cons-IsPattern :
    (seg : PatternSegment) (segs : List PatternSegment)
    → IsPattern (seg ∷ [])
    → (seg ≡ wildcard_multi → segs ≡ [])
    → IsPattern segs
    → IsPattern (seg ∷ segs)
cons-IsPattern (concrete seg) segs h m g = (h.0, g)
cons-IsPattern wildcard_one segs h m g = g
cons-IsPattern wildcard_multi segs h m g = m refl

nil_of_texts :
    (segs : List PatternSegment) (parts : List Text)
    → part_texts segs ≡ parts
    → is_empty parts ≡ true
    → segs ≡ []
nil_of_texts [] parts e h = refl
nil_of_texts (seg ∷ segs) [] e h = cc
nil_of_texts (seg ∷ segs) (p ∷ parts) e h = cc

parts-eq-ok :
    (parts : List Text) (segs : List PatternSegment)
    → pattern_parts parts ≡ ok segs
    → (part_texts segs ≡ parts) × IsPattern segs
unfolding pattern_parts
parts-eq-ok [] [] h = (refl, tt)
parts-eq-ok [] (seg ∷ segs) h = cc
parts-eq-ok (p ∷ ps) segs h =
    let (seg, e, h') = >>=-eq-ok (pattern_part p (is_empty ps)) _ h in
    let (rest, e', h'') = >>=-eq-ok (pattern_parts ps) _ h' in
    let (t, last, g) = part-eq-ok p (is_empty ps) seg e in
    let (ts, gs) = parts-eq-ok ps rest e' in
    let q : seg ∷ rest ≡ segs = cc h'' in
    subst (λ l. (part_texts l ≡ p ∷ ps) × IsPattern l) q
      (ap₂ ◌∷◌ t ts, cons-IsPattern seg rest g (λ m. nil_of_texts rest ps ts (last m)) gs)

hash_not_plus : text_eq (codes "#") (codes "+") ≡ false
unfolding text_eq
hash_not_plus = refl

part_of_segment :
    (seg : PatternSegment) (last : Bool)
    → IsPattern (seg ∷ [])
    → (seg ≡ wildcard_multi → last ≡ true)
    → pattern_part (pattern_segment_text seg) last ≡ ok seg
unfolding pattern_part pattern_segment_text is_segment_char
part_of_segment (concrete seg) last h m = rw (
  not_text seg.text (codes "+") h.0.1 refl,
  not_text seg.text (codes "#") h.0.1 refl,
  new_segment_of_text seg.text h.0,
)
part_of_segment wildcard_one last h m = rw (text_eq_refl (codes "+"))
part_of_segment wildcard_multi last h m = rw (hash_not_plus, m refl, text_eq_refl (codes "#"))

parts_of_IsPattern :
    (segs : List PatternSegment) → IsPattern segs → pattern_parts (part_texts segs) ≡ ok segs
unfolding pattern_parts
parts_of_IsPattern [] h = refl
parts_of_IsPattern (concrete seg ∷ segs) h = rw (
  part_of_segment (concrete seg) (is_empty (part_texts segs)) (h.0, tt) (λ e. cc),
  parts_of_IsPattern segs h.1,
)
parts_of_IsPattern (wildcard_one ∷ segs) h = rw (
  part_of_segment wildcard_one (is_empty (part_texts segs)) tt (λ e. cc),
  parts_of_IsPattern segs h,
)
parts_of_IsPattern (wildcard_multi ∷ []) h =
    rw (part_of_segment wildcard_multi true refl (λ e. refl))
parts_of_IsPattern (wildcard_multi ∷ seg ∷ segs) h = absurd (cc)

part_texts-ne-nil : (segs : List PatternSegment) → segs ≢ [] → part_texts segs ≢ []
part_texts-ne-nil [] n = absurd (n refl)
part_texts-ne-nil (seg ∷ segs) n = λ e. cc

part_texts-Full :
    (segs : List PatternSegment)
    → IsPattern segs
    → All IsFull (part_texts segs) × All (Without dot) (part_texts segs)
unfolding pattern_segment_text
part_texts-Full [] h = (tt, tt)
part_texts-Full (concrete seg ∷ segs) h =
    let (full, without) = part_texts-Full segs h.1 in
    ((h.0.0, full), (segment-Without seg.text h.0.1, without))
part_texts-Full (wildcard_one ∷ segs) h =
    let (full, without) = part_texts-Full segs h in
    (((λ e. cc), full), (((omega arith), tt), without))
part_texts-Full (wildcard_multi ∷ []) h = (((λ e. cc), tt), (((omega arith), tt), tt))
part_texts-Full (wildcard_multi ∷ seg ∷ segs) h = cc

accepted_parts :
    (s : Text) (segs : List PatternSegment) (pattern : SubjectPattern)
    → pattern_parts (split s dot) ≡ ok segs
    → pattern ≡ record { segments = segs }
    → IsWellFormedPattern pattern × (pattern_text pattern ≡ s)
unfolding pattern_text
accepted_parts s segs pattern h e =
    let (t, g) = parts-eq-ok (split s dot) segs h in
    rw e (
      ((λ (n : segs ≡ []). split-ne-nil s dot (sym t ∙ ap part_texts n)), g),
      ap (λ l. join l dot) t ∙ join-split s dot,
    )

parse_pattern-eq-ok :
    (s : Text) (pattern : SubjectPattern)
    → parse_pattern s ≡ ok pattern
    → IsWellFormedPattern pattern × (pattern_text pattern ≡ s)
unfolding parse_pattern
parse_pattern-eq-ok s pattern h =
    let (u, _, h') = >>=-eq-ok (separator_fault s) _ h in
    let (segs, e, h'') = >>=-eq-ok (pattern_parts (split s dot)) _ h' in
    accepted_parts s segs pattern e (cc h'')

parse-pattern_text :
    (pattern : SubjectPattern)
    → IsWellFormedPattern pattern
    → parse_pattern (pattern_text pattern) ≡ ok pattern
unfolding parse_pattern pattern_text
parse-pattern_text pattern w =
    let parts = part_texts pattern.segments in
    let n : parts ≢ [] = part_texts-ne-nil pattern.segments w.0 in
    let (full, without) = part_texts-Full pattern.segments w.1 in
    rw (
      fault_of_IsTidy _ (join-IsTidy parts dot n full without),
      split-join parts dot n without,
      parts_of_IsPattern pattern.segments w.1,
    )

-- `from_str` accepts a text exactly if it is the dot-joined form of a well-formed pattern, and then
-- returns that pattern.
pub parse_pattern_iff :
    (s : Text) (pattern : SubjectPattern)
    → (parse_pattern s ≡ ok pattern) ↔ (IsWellFormedPattern pattern × (pattern_text pattern ≡ s))
parse_pattern_iff s pattern =
    (parse_pattern-eq-ok s pattern, λ w. rw (← w.1) (parse-pattern_text pattern w.0))

exact-IsPattern : (segs : List SubjectSegment) → All IsSegment segs → IsPattern (exact segs)
exact-IsPattern [] h = tt
exact-IsPattern (seg ∷ segs) h = (h.0, exact-IsPattern segs h.1)

exact-texts : (segs : List SubjectSegment) → part_texts (exact segs) ≡ map (λ seg. seg.text) segs
unfolding pattern_segment_text
exact-texts [] = refl
exact-texts (seg ∷ segs) = ap (◌∷◌ seg.text) (exact-texts segs)

exact-ne-nil : (segs : List SubjectSegment) → segs ≢ [] → exact segs ≢ []
exact-ne-nil [] n = absurd (n refl)
exact-ne-nil (seg ∷ segs) n = λ e. cc

-- The text of a well-formed subject is also a pattern, and matches that subject and no other.
pub parse_pattern-subject_text :
    (subject : Subject)
    → IsWellFormed subject
    → (pattern : SubjectPattern) × (parse_pattern (subject_text subject) ≡ ok pattern)
      × ((other : Subject) → (matches pattern other ≡ true) ↔ (other ≡ subject))
unfolding subject_text pattern_text
parse_pattern-subject_text subject w = (
  record { segments = exact subject.segments },
  (parse_pattern_iff _ _).1 (well_formed, ap (λ l. join l dot) (exact-texts subject.segments)),
  λ other.
      let decided = matches_iff (record { segments = exact subject.segments }) other multi_last in
      (
        (λ h.
            ap (λ l. record { segments = l }) (sym (Covers-exact subject.segments (decided.0 h)))),
        (λ e. decided.1 (rw e (exact-Covers subject.segments))),
      ),
)
  where
    well_formed : IsWellFormedPattern (record { segments = exact subject.segments })
    well_formed = (exact-ne-nil subject.segments w.0, exact-IsPattern subject.segments w.1)

    multi_last : MultiLast (exact subject.segments)
    multi_last = IsPattern-MultiLast (exact subject.segments) well_formed.1
