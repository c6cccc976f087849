-- ===== src/Core/Pattern.antt =====
-- crates/themql-core/src/lib.rs: `PatternSegment` and `SubjectPattern`.
use the_mql.Base.{
  Bool, true, false, List, [], ◌∷◌, map, if◌then◌else◌, is_empty, Result, ok, err, ◌>>=◌,
}
use the_mql.Base.Text.{Text, codes, text_eq, split, join}
use the_mql.Core.Subject.{
  SubjectError, wildcard_multi_not_last, SubjectSegment, new_segment, Subject, dot, separator_fault,
}
pub mod Grammar
pub mod Matching

pub data PatternSegment : Type 0 where
  concrete : SubjectSegment → PatternSegment
  wildcard_one wildcard_multi : PatternSegment

pub record SubjectPattern : Type 0 where
  pub segments : List PatternSegment

-- One round of the loop of `SubjectPattern::from_str`; `last` is `i == parts.len() - 1`.
unfoldable pub pattern_part : Text → Bool → Result SubjectError PatternSegment
unfolding new_segment
pattern_part part last =
    if text_eq part (codes "+")
    then ok wildcard_one
    else if text_eq part (codes "#")
    then if last then ok wildcard_multi else err wildcard_multi_not_last
    else (do seg ← new_segment part; ok (concrete seg))

-- The loop of `SubjectPattern::from_str`.
unfoldable pub pattern_parts : List Text → Result SubjectError (List PatternSegment)
unfolding pattern_part
pattern_parts [] = ok []
pattern_parts (part ∷ rest) = do
  seg ← pattern_part part (is_empty rest)
  segs ← pattern_parts rest
  ok (seg ∷ segs)

-- `SubjectPattern::from_str`
unfoldable pub parse_pattern : Text → Result SubjectError SubjectPattern
unfolding separator_fault pattern_parts
parse_pattern s = do
  _ ← separator_fault s
  segments ← pattern_parts (split s dot)
  ok (record { segments = segments })

-- The loop of `SubjectPattern::matches`: the lists are the pattern from `pi` on and the subject from
-- `ci` on. The first two clauses are what follows the loop.
unfoldable pub matches_from : List PatternSegment → List SubjectSegment → Bool
matches_from [] subject = is_empty subject
matches_from (wildcard_multi ∷ pattern) [] = true
matches_from (concrete seg ∷ pattern) [] = false
matches_from (wildcard_one ∷ pattern) [] = false
matches_from (concrete seg ∷ pattern) (c ∷ subject) =
    let rest = matches_from pattern subject in if text_eq seg.text c.text then rest else false
matches_from (wildcard_one ∷ pattern) (c ∷ subject) = matches_from pattern subject
matches_from (wildcard_multi ∷ pattern) (c ∷ subject) = is_empty pattern

-- `SubjectPattern::matches`
unfoldable pub matches : SubjectPattern → Subject → Bool
unfolding matches_from
matches pattern subject = matches_from pattern.segments subject.segments

unfoldable pub pattern_segment_text : PatternSegment → Text
pattern_segment_text (concrete seg) = seg.text
pattern_segment_text wildcard_one = codes "+"
pattern_segment_text wildcard_multi = codes "#"

-- `SubjectPattern::as_str`
unfoldable pub pattern_text : SubjectPattern → Text
unfolding pattern_segment_text
pattern_text pattern = join (map pattern_segment_text pattern.segments) dot
