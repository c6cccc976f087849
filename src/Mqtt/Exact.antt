-- ===== src/Mqtt/Exact.antt =====
-- crates/themql-mqtt/src/lib.rs: what `matches_filter` does on the topics of subjects.
use the_mql.Base.{
  ℕ, true, false, [], ◌∷◌, ◌≡◌, refl, sym, subst, ◌∙◌, ap, ◌≢◌, ◌↔◌, inl, inr, arith, All,
  Bool-cases,
}
use the_mql.Base.Text.{Text, codes, text_eq, text_eq_iff, split, join, Without}
use the_mql.Base.Split.{split-join}
use the_mql.Core.Subject.{Subject, subject_text, is_segment_char}
use the_mql.Core.Subject.Charset.{IsSegmentChar, is_segment_char_iff}
use the_mql.Core.Subject.Grammar.{IsWellFormed, subject_text-injective}
use the_mql.Core.Subject.Printed.{subject_text-All}
use the_mql.Mqtt.Filter.{levels_match, matches_filter}
use the_mql.Mqtt.Transport.{subject_to_topic}

-- Characters that stand for nothing in a filter.
abbrev IsLiteral : ℕ → Type 0
IsLiteral c = (c ≢ b'/') × (c ≢ b'#') × (c ≢ b'+')

char-IsLiteral : (c : ℕ) → IsSegmentChar c → IsLiteral c
unfolding is_segment_char
char-IsLiteral c h =
    let char : is_segment_char c ≡ true = (is_segment_char_iff c).1 h in
    (ground arith, ground arith, ground arith)

literal-Without : (t : Text) → All IsLiteral t → Without b'/' t
literal-Without [] h = tt
literal-Without (c ∷ t) h = (h.0.0, literal-Without t h.1)

literal_level : (t : Text) → All IsLiteral t → split t b'/' ≡ t ∷ []
literal_level t h = unfold join in split-join (t ∷ []) b'/' (λ e. cc) (literal-Without t h, tt)

-- A literal text is no wildcard.
literal-ne : (t : Text) (c : ℕ) → All IsLiteral t → (IsLiteral c → ⊥) → text_eq t (c ∷ []) ≡ false
literal-ne t c h wild = elim (Bool-cases (text_eq t (c ∷ []))) [
  | inl e ↦ absurd (wild (subst (All IsLiteral) ((text_eq_iff t (c ∷ [])).0 e) h).0)
  | inr e ↦ e
]

one_level : (a b : Text) → All IsLiteral a → levels_match (a ∷ []) (b ∷ []) ≡ text_eq a b
unfolding levels_match
one_level a b h =
    let hash : text_eq a (codes "#") ≡ false = literal-ne a b'#' h (λ l. l.1 refl) in
    let plus : text_eq a (codes "+") ≡ false = literal-ne a b'+' h (λ l. l.2 refl) in
    ground (arith, hash, plus)

text-IsLiteral : (subject : Subject) → IsWellFormed subject → All IsLiteral (subject_text subject)
text-IsLiteral = subject_text-All IsLiteral char-IsLiteral (omega arith, omega arith, omega arith)

text_level : (a b : Text) → All IsLiteral a → All IsLiteral b → matches_filter a b ≡ text_eq a b
unfolding matches_filter
text_level a b h k = rw (literal_level a h, literal_level b k) (one_level a b h)

-- A filter that is the topic of a subject, which is what `subscribe` puts on record, matches the topic
-- of that subject and of no other: topics are joined by dots, so that they have a single level.
matches_filter_exact :
    (a b : Subject)
    → IsWellFormed a
    → IsWellFormed b
    → (matches_filter (subject_to_topic a) (subject_to_topic b) ≡ true) ↔ (a ≡ b)
unfolding subject_to_topic
matches_filter_exact a b v w =
    let level : matches_filter (subject_text a) (subject_text b)
        ≡ text_eq (subject_text a) (subject_text b) =
      text_level (subject_text a) (subject_text b) (text-IsLiteral a v) (text-IsLiteral b w) in
    (
      λ h. subject_text-injective a b v w ((text_eq_iff _ _).0 (sym level ∙ h)),
      λ e. level ∙ (text_eq_iff _ _).1 (ap subject_text e),
    )
