-- ===== src/Core/Subject/Grammar.antt =====
-- crates/themql-core/src/lib.rs: what `Subject::from_str` accepts and refuses.
use the_mql.Base.{
  ℕ, true, false, List, [], ◌∷◌, map, ◌≡◌, refl, sym, ◌≢◌, ◌↔◌, inl, inr, arith, All, all, ok,
  traverse, ap, ap₂, subst, ◌∙◌, Bool-cases, >>=-eq-ok,
}
use the_mql.Base.Text.{Text, codes, text_eq, text_eq_iff, split, join, Without}
use the_mql.Base.Split.{IsTidy, IsFull, split-ne-nil, join-split, split-join, join-IsTidy}
use the_mql.Core.Subject.Charset.{IsSegmentChar, is_segment_char_iff, charset_iff}
use the_mql.Core.Subject.{
  SubjectSegment, is_segment_char, new_segment, Subject, dot, concrete_part, separator_fault,
  parse_subject, subject_text,
}

-- The grammar of a segment: not empty, and of letters, digits, `_` and `-` only.
abbrev pub IsSegmentText : Text → Type 0
IsSegmentText t = IsFull t × All IsSegmentChar t

abbrev pub IsSegment : SubjectSegment → Type 0
IsSegment seg = IsSegmentText seg.text

-- The grammar of a subject: at least one segment, each of them of the grammar of segments.
abbrev pub IsWellFormed : Subject → Type 0
IsWellFormed subject = (subject.segments ≢ []) × All IsSegment subject.segments

abbrev pub texts : List SubjectSegment → List Text
texts = map (λ seg. seg.text)

pub new_segment-eq-ok :
    (s : Text) (seg : SubjectSegment) → new_segment s ≡ ok seg → (seg.text ≡ s) × IsSegmentText s
unfolding new_segment
new_segment-eq-ok [] seg h = cc
new_segment-eq-ok (c ∷ s) seg h =
    let charset : all is_segment_char (c ∷ s) ≡ true = ground arith in
    (ground arith, ((λ e. cc), (charset_iff (c ∷ s)).0 charset))

pub new_segment_of_text : (t : Text) → IsSegmentText t → new_segment t ≡ ok (record { text = t })
unfolding new_segment
new_segment_of_text [] h = absurd (h.0 refl)
new_segment_of_text (c ∷ t) h =
    let charset : all is_segment_char (c ∷ t) ≡ true = (charset_iff (c ∷ t)).1 h.1 in
    ground (arith, charset)

-- A text of segment characters differs from any text that has another character.
pub not_text :
    (t u : Text) → All IsSegmentChar t → all is_segment_char u ≡ false → text_eq t u ≡ false
not_text t u h k = elim (Bool-cases (text_eq t u)) [
  | inl e ↦
      let charset : all is_segment_char t ≡ true = (charset_iff t).1 h in
      cc (ap (all is_segment_char) ((text_eq_iff t u).0 e))
  | inr e ↦ e
]

segment_char-ne-dot : (c : ℕ) → is_segment_char c ≡ true → c ≢ dot
unfolding is_segment_char
segment_char-ne-dot c h = ground arith

pub segment-Without : (t : Text) → All IsSegmentChar t → Without dot t
segment-Without [] h = tt
segment-Without (c ∷ t) h =
    (segment_char-ne-dot c ((is_segment_char_iff c).1 h.0), segment-Without t h.1)

concrete_part-eq-ok :
    (part : Text) (seg : SubjectSegment)
    → concrete_part part ≡ ok seg
    → (seg.text ≡ part) × IsSegment seg
unfolding concrete_part
concrete_part-eq-ok part seg h =
    let (e, g) = new_segment-eq-ok part seg (ground arith) in (e, rw e g)

concrete_part_of_text : (t : Text) → IsSegmentText t → concrete_part t ≡ ok (record { text = t })
unfolding concrete_part is_segment_char
concrete_part_of_text t h =
    rw (not_text t (codes "+") h.1 refl, not_text t (codes "#") h.1 refl) (new_segment_of_text t h)

traverse_parts-eq-ok :
    (parts : List Text) (segs : List SubjectSegment)
    → traverse concrete_part parts ≡ ok segs
    → (texts segs ≡ parts) × All IsSegment segs
traverse_parts-eq-ok [] [] h = (refl, tt)
traverse_parts-eq-ok [] (seg ∷ segs) h = cc
traverse_parts-eq-ok (p ∷ ps) segs h =
    let (seg, e, h') = >>=-eq-ok (concrete_part p) _ h in
    let (rest, e', h'') = >>=-eq-ok (traverse concrete_part ps) _ h' in
    let (t, g) = concrete_part-eq-ok p seg e in
    let (ts, gs) = traverse_parts-eq-ok ps rest e' in
    let q : seg ∷ rest ≡ segs = cc h'' in
    subst (λ l. (texts l ≡ p ∷ ps) × All IsSegment l) q (ap₂ ◌∷◌ t ts, (g, gs))

traverse_parts_of_All :
    (segs : List SubjectSegment)
    → All IsSegment segs
    → traverse concrete_part (texts segs) ≡ ok segs
traverse_parts_of_All [] h = refl
traverse_parts_of_All (seg ∷ segs) h =
    rw (concrete_part_of_text seg.text h.0, traverse_parts_of_All segs h.1)

texts-All :
    (segs : List SubjectSegment)
    → All IsSegment segs
    → All IsFull (texts segs) × All (Without dot) (texts segs)
texts-All [] h = (tt, tt)
texts-All (seg ∷ segs) h =
    let (full, without) = texts-All segs h.1 in
    ((h.0.0, full), (segment-Without seg.text h.0.1, without))

texts-ne-nil : (segs : List SubjectSegment) → segs ≢ [] → texts segs ≢ []
texts-ne-nil [] n = absurd (n refl)
texts-ne-nil (seg ∷ segs) n = λ e. cc

pub fault_of_IsTidy : (s : Text) → IsTidy dot s → separator_fault s ≡ ok tt
unfolding separator_fault
fault_of_IsTidy [] t = absurd (t.some_text refl)
fault_of_IsTidy (c ∷ s) t = rw (t.lead, t.trail, t.double)

pub separator_fault-IsTidy : (s : Text) (u : Unit {0}) → separator_fault s ≡ ok u → IsTidy dot s
unfolding separator_fault
separator_fault-IsTidy [] u h = cc
separator_fault-IsTidy (c ∷ s) u h = record {
  some_text = λ e. cc;
  lead = ground arith;
  trail = ground arith;
  double = ground arith;
}

accepted_parts :
    (s : Text) (segs : List SubjectSegment) (subject : Subject)
    → traverse concrete_part (split s dot) ≡ ok segs
    → subject ≡ record { segments = segs }
    → IsWellFormed subject × (subject_text subject ≡ s)
unfolding subject_text
accepted_parts s segs subject h e =
    let (t, g) = traverse_parts-eq-ok (split s dot) segs h in
    rw e (
      ((λ (n : segs ≡ []). split-ne-nil s dot (sym t ∙ ap texts n)), g),
      ap (λ l. join l dot) t ∙ join-split s dot,
    )

-- A parsed text is the dot-joined form of the subject, which is well-formed.
pub parse_subject-eq-ok :
    (s : Text) (subject : Subject)
    → parse_subject s ≡ ok subject
    → IsWellFormed subject × (subject_text subject ≡ s)
unfolding parse_subject
parse_subject-eq-ok s subject h =
    let (u, _, h') = >>=-eq-ok (separator_fault s) _ h in
    let (segs, e, h'') = >>=-eq-ok (traverse concrete_part (split s dot)) _ h' in
    accepted_parts s segs subject e (cc h'')

-- Printing a well-formed subject and parsing it gives the subject back.
pub parse-subject_text :
    (subject : Subject) → IsWellFormed subject → parse_subject (subject_text subject) ≡ ok subject
unfolding parse_subject subject_text
parse-subject_text subject w =
    let parts = texts subject.segments in
    let n : parts ≢ [] = texts-ne-nil subject.segments w.0 in
    let (full, without) = texts-All subject.segments w.1 in
    rw (
      fault_of_IsTidy _ (join-IsTidy parts dot n full without),
      split-join parts dot n without,
      traverse_parts_of_All subject.segments w.1,
    )

-- `from_str` accepts a text exactly if it is the dot-joined form of a well-formed subject, and then
-- returns that subject.
pub parse_subject_iff :
    (s : Text) (subject : Subject)
    → (parse_subject s ≡ ok subject) ↔ (IsWellFormed subject × (subject_text subject ≡ s))
parse_subject_iff s subject =
    (parse_subject-eq-ok s subject, λ w. rw (← w.1) (parse-subject_text subject w.0))

-- Two well-formed subjects with one text are one subject.
pub subject_text-injective :
    (s t : Subject) → IsWellFormed s → IsWellFormed t → subject_text s ≡ subject_text t → s ≡ t
subject_text-injective s t w v e =
    let h : parse_subject (subject_text s) ≡ parse_subject (subject_text t) = ap parse_subject e in
    cc (parse-subject_text s w, parse-subject_text t v, h)
