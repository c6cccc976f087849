-- ===== src/QueryEngine/Key/Material.antt =====
-- crates/themql-query/src/lib.rs: queries with the same key material have the same subject, selection
-- and arguments, and the hexadecimal form of a digest loses nothing.
use the_mql.Base.{
  ℕ, ◌/◌, ◌%◌, ◌<◌, List, [], ◌∷◌, ◌++◌, ◌≡◌, refl, ◌≢◌, ◌↔◌, arith, ap, ap₂, All, sym, true, leb,
  ◌==◌, ◌∙◌, ==_iff, ◌-◌, if◌then◌else◌, holds_below, holds_below-lt,
}
use the_mql.Base.Text.{Text, as_bytes, Without}
use the_mql.Core.Query.{Selection, Query}
use the_mql.Core.Subject.{Subject, subject_text, is_segment_char}
use the_mql.Core.Subject.Charset.{IsSegmentChar, is_segment_char_iff}
use the_mql.Core.Subject.Printed.{subject_text-All}
use the_mql.Core.Subject.Grammar.{subject_text-injective, IsWellFormed}
use the_mql.QueryEngine.Key.{
  Encoding, or_default, arguments_json, key_material, hex_digit, hex_encode,
}

-- A text cut at its first separator determines both halves.
append-zero-injective :
    (s t u v : List ℕ) → Without 0 s → Without 0 t → s ++ (0 ∷ u) ≡ t ++ (0 ∷ v) → (s ≡ t) × (u ≡ v)
append-zero-injective [] [] u v a b h = (refl, cc)
append-zero-injective [] (d ∷ t) u v a b h = absurd (ground (arith, b.0))
append-zero-injective (c ∷ s) [] u v a b h = absurd (ground (arith, a.0))
append-zero-injective (c ∷ s) (d ∷ t) u v a b h =
    let (e, f) = append-zero-injective s t u v a.1 b.1 (cc) in (ap₂ ◌∷◌ (cc) e, f)

-- The value of a lower-case hexadecimal digit.
hex_value : ℕ → ℕ
hex_value c = if leb c b'9' then c - b'0' else c - 87

hex_table : holds_below (λ d. hex_value (hex_digit d) == d) 16 ≡ true
unfolding holds_below hex_value hex_digit
hex_table = refl

hex_value-hex_digit : (d : ℕ) → d < 16 → hex_value (hex_digit d) ≡ d
hex_value-hex_digit d h =
    (==_iff _ d).0 (holds_below-lt (λ e. hex_value (hex_digit e) == e) 16 d h hex_table)

hex_digit-injective : (a b : ℕ) → a < 16 → b < 16 → hex_digit a ≡ hex_digit b → a ≡ b
hex_digit-injective a b h k e =
    sym (hex_value-hex_digit a h) ∙ ap hex_value e ∙ hex_value-hex_digit b k

-- Two strings of bytes with the same hexadecimal form are the same.
pub hex_encode-injective :
    (xs ys : List ℕ)
    → All (λ b. b < 256) xs
    → All (λ b. b < 256) ys
    → hex_encode xs ≡ hex_encode ys
    → xs ≡ ys
unfolding hex_encode
hex_encode-injective [] [] h k e = refl
hex_encode-injective [] (y ∷ ys) h k e = cc
hex_encode-injective (x ∷ xs) [] h k e = cc
hex_encode-injective (x ∷ xs) (y ∷ ys) h k e =
    let hx = h.0 in
    let hy = k.0 in
    let high : x / 16 ≡ y / 16 =
      hex_digit-injective (x / 16) (y / 16) (omega arith) (omega arith) (cc) in
    let low : x % 16 ≡ y % 16 =
      hex_digit-injective (x % 16) (y % 16) (omega arith) (omega arith) (cc) in
    ap₂ ◌∷◌ (omega arith) (hex_encode-injective xs ys h.1 k.1 (cc))

-- A code point that UTF-8 writes as the byte itself, and that is not the separator of the material.
abbrev IsPlain : ℕ → Type 0
IsPlain c = (c ≢ 0) × (c < 128)

as_bytes_plain : (s : Text) → All IsPlain s → as_bytes s ≡ s
unfolding as_bytes
as_bytes_plain [] h = refl
as_bytes_plain (c ∷ s) h = let low = h.0.1 in ground (arith, as_bytes_plain s h.1)

char-IsPlain : (c : ℕ) → IsSegmentChar c → IsPlain c
unfolding is_segment_char
char-IsPlain c h =
    let char : is_segment_char c ≡ true = (is_segment_char_iff c).1 h in
    (ground arith, ground arith)

text-IsPlain : (subject : Subject) → IsWellFormed subject → All IsPlain (subject_text subject)
text-IsPlain = subject_text-All IsPlain char-IsPlain (omega arith)

plain-Without : (s : Text) → All IsPlain s → Without 0 s
plain-Without [] h = tt
plain-Without (c ∷ s) h = (h.0.0, plain-Without s h.1)

subject_bytes :
    (subject : Subject)
    → IsWellFormed subject
    → as_bytes (subject_text subject) ≡ subject_text subject
subject_bytes subject w = as_bytes_plain _ (text-IsPlain subject w)

as_bytes-Without :
    (subject : Subject) → IsWellFormed subject → Without 0 (as_bytes (subject_text subject))
as_bytes-Without subject w = rw (subject_bytes subject w) (plain-Without _ (text-IsPlain subject w))

module _ {J U : Type 0} (enc : Encoding J) (q r : Query J U) where
  -- For well-formed subjects, and a `serde_json` that writes no zero byte (it escapes control
  -- characters), two queries feed the hasher the same bytes exactly if they have the same subject
  -- and the same JSON for their selections and for their arguments. Projection, context and
  -- overrides have no part in it.
  pub key_material_iff :
      ((s : Selection J) → Without 0 (or_default (enc.selection_json s)))
      → IsWellFormed q.resource.subject
      → IsWellFormed r.resource.subject
      → (key_material enc q ≡ key_material enc r) ↔ (
          (q.resource.subject ≡ r.resource.subject)
          × (or_default (enc.selection_json q.selection)
              ≡ or_default (enc.selection_json r.selection))
          × (arguments_json enc q.arguments ≡ arguments_json enc r.arguments))
  unfolding key_material
  key_material_iff clean w v = (
    λ h.
        let (e, f) =
          append-zero-injective (as_bytes (subject_text s)) (as_bytes (subject_text t)) _ _
            (as_bytes-Without s w) (as_bytes-Without t v) h in
        let (g, k) =
          append-zero-injective (or_default (enc.selection_json q.selection))
            (or_default (enc.selection_json r.selection)) _ _ (clean _) (clean _) f in
        (subject_text-injective s t w v (sym (subject_bytes s w) ∙ e ∙ subject_bytes t v), g, k),
    λ h. rw (h.0, h.1, h.2),
  )
    where
      s : Subject
      s = q.resource.subject

      t : Subject
      t = r.resource.subject
