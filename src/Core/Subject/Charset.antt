-- ===== src/Core/Subject/Charset.antt =====
-- crates/themql-core/src/lib.rs: the characters of a segment.
use the_mql.Base.{
  ℕ, ◌≤◌, true, ◌&&◌, [], ◌∷◌, ◌≡◌, refl, ◌↔◌, inl, inr, arith, All, all, &&_true, Bool-cases, leb,
  ◌==◌,
}
use the_mql.Base.Text.{Text}
use the_mql.Core.Subject.{is_segment_char}

-- An ASCII digit or letter, `_` or `-`.
pub data IsSegmentChar (c : ℕ) : Type 0 where
  digit : b'0' ≤ c → c ≤ b'9' → IsSegmentChar c
  upper : b'A' ≤ c → c ≤ b'Z' → IsSegmentChar c
  lower : b'a' ≤ c → c ≤ b'z' → IsSegmentChar c
  underscore : c ≡ b'_' → IsSegmentChar c
  hyphen : c ≡ b'-' → IsSegmentChar c

true-IsSegmentChar : (c : ℕ) → is_segment_char c ≡ true → IsSegmentChar c
unfolding is_segment_char
true-IsSegmentChar c h = elim (Bool-cases (leb b'0' c && leb c b'9')) [
  | inl e ↦ digit (ground arith) (ground arith)
  | inr d ↦ elim (Bool-cases (leb b'A' c && leb c b'Z')) [
    | inl e ↦ upper (ground arith) (ground arith)
    | inr u ↦ elim (Bool-cases (leb b'a' c && leb c b'z')) [
      | inl e ↦ lower (ground arith) (ground arith)
      | inr l ↦ elim (Bool-cases (c == b'_')) [
        | inl e ↦ underscore (ground arith)
        | inr k ↦ hyphen (ground arith)
      ]
    ]
  ]
]

IsSegmentChar-true : (c : ℕ) → IsSegmentChar c → is_segment_char c ≡ true
unfolding is_segment_char
IsSegmentChar-true c (digit a b) = ground arith
IsSegmentChar-true c (upper a b) = ground arith
IsSegmentChar-true c (lower a b) = ground arith
IsSegmentChar-true c (underscore e) = ground arith
IsSegmentChar-true c (hyphen e) = ground arith

pub is_segment_char_iff : (c : ℕ) → (is_segment_char c ≡ true) ↔ IsSegmentChar c
is_segment_char_iff c = (true-IsSegmentChar c, IsSegmentChar-true c)

pub charset_iff : (t : Text) → (all is_segment_char t ≡ true) ↔ All IsSegmentChar t
charset_iff [] = (λ h. tt, λ h. refl)
charset_iff (c ∷ t) = (
  λ h.
      let (a, b) = &&_true (is_segment_char c) (all is_segment_char t) h in
      ((is_segment_char_iff c).0 a, (charset_iff t).0 b),
  λ h. rw ((is_segment_char_iff c).1 h.0) ((charset_iff t).1 h.1),
)
