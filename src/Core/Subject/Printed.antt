-- ===== src/Core/Subject/Printed.antt =====
-- crates/themql-core/src/lib.rs: the characters of a subject's text.
use the_mql.Base.{ℕ, List, [], ◌∷◌, All, All-append}
use the_mql.Base.Text.{Text, join}
use the_mql.Core.Subject.{Subject, SubjectSegment, subject_text, dot}
use the_mql.Core.Subject.Charset.{IsSegmentChar}
use the_mql.Core.Subject.Grammar.{IsWellFormed, IsSegment, texts}

module _ (P : ℕ → Type 0) (char : (c : ℕ) → IsSegmentChar c → P c) (at_dot : P dot) where
  segment-All : (t : Text) → All IsSegmentChar t → All P t
  segment-All [] h = tt
  segment-All (c ∷ t) h = (char c h.0, segment-All t h.1)

  join-All : (segs : List SubjectSegment) → All IsSegment segs → All P (join (texts segs) dot)
  unfolding join
  join-All [] h = tt
  join-All (seg ∷ []) h = segment-All seg.text h.0.1
  join-All (seg ∷ seg' ∷ segs) h =
      All-append P seg.text _ (segment-All seg.text h.0.1) (at_dot, join-All (seg' ∷ segs) h.1)

  -- What holds of every character of a segment and of the dot holds throughout a subject's text.
  pub subject_text-All : (subject : Subject) → IsWellFormed subject → All P (subject_text subject)
  unfolding subject_text
  subject_text-All subject w = join-All subject.segments w.1
