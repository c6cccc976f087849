-- ===== src/Core/Subject.antt =====
-- crates/themql-core/src/lib.rs: `SubjectSegment`, `Subject` and `SubjectError`.
use the_mql.Base.{
  ℕ, Bool, true, false, not, ◌&&◌, ◌||◌, List, [], ◌∷◌, ◌++◌, map, ◌==◌, leb, if◌then◌else◌, all,
  is_empty, Result, ok, err, ◌>>=◌, traverse,
}
use the_mql.Base.Text.{
  Text, codes, text_eq, starts_with_char, ends_with_char, contains, split, join,
}
pub mod Charset
pub mod Grammar
pub mod Faults
pub mod Printed

pub data SubjectError : Type 0 where
  empty_segment : SubjectError
  invalid_charset : Text → SubjectError
  separator_in_segment trailing_separator leading_separator consecutive_separators : SubjectError
  wildcard_in_concrete_subject wildcard_multi_not_last empty_subject : SubjectError

-- The `#[error("…")]` texts, which `to_string` prints.
unfoldable pub subject_error_text : SubjectError → Text
subject_error_text empty_segment = codes "empty segment"
subject_error_text (invalid_charset segment) = codes "invalid charset in segment: " ++ segment
subject_error_text separator_in_segment = codes "separator inside segment"
subject_error_text trailing_separator = codes "trailing separator"
subject_error_text leading_separator = codes "leading separator"
subject_error_text consecutive_separators = codes "consecutive separators"
subject_error_text wildcard_in_concrete_subject = codes "wildcard in concrete subject"
subject_error_text wildcard_multi_not_last = codes "wildcard '#' must be the last segment"
subject_error_text empty_subject = codes "empty subject"

pub record SubjectSegment : Type 0 where
  pub text : Text

-- `c.is_ascii_alphanumeric() || c == '_' || c == '-'`
unfoldable pub is_segment_char : ℕ → Bool
is_segment_char c =
    (leb b'0' c && leb c b'9')
    || (leb b'A' c && leb c b'Z')
    || (leb b'a' c && leb c b'z')
    || c == b'_'
    || c == b'-'

-- `SubjectSegment::new`
unfoldable pub new_segment : Text → Result SubjectError SubjectSegment
new_segment s =
    if is_empty s
    then err empty_segment
    else if not (all is_segment_char s)
    then err (invalid_charset s)
    else ok (record { text = s })

pub record Subject : Type 0 where
  pub segments : List SubjectSegment

-- `Subject::from_segments`
unfoldable pub from_segments : List SubjectSegment → Result SubjectError Subject
from_segments segments =
    if is_empty segments then err empty_subject else ok (record { segments = segments })

abbrev pub dot : ℕ
dot = b'.'

-- One part of `Subject::from_str`: the wildcards are refused before the charset is looked at.
unfoldable pub concrete_part : Text → Result SubjectError SubjectSegment
unfolding new_segment
concrete_part part =
    if text_eq part (codes "+") || text_eq part (codes "#")
    then err wildcard_in_concrete_subject
    else new_segment part

-- The guards that `Subject::from_str` and `SubjectPattern::from_str` begin with.
unfoldable pub separator_fault : Text → Result SubjectError (Unit {0})
separator_fault s =
    if is_empty s
    then err empty_subject
    else if starts_with_char s dot
    then err leading_separator
    else if ends_with_char s dot
    then err trailing_separator
    else if contains s (codes "..")
    then err consecutive_separators
    else ok tt

-- `Subject::from_str`
unfoldable pub parse_subject : Text → Result SubjectError Subject
unfolding separator_fault concrete_part
parse_subject s = do
  _ ← separator_fault s
  segments ← traverse concrete_part (split s dot)
  ok (record { segments = segments })

-- `Subject::as_str`
unfoldable pub subject_text : Subject → Text
subject_text subject = join (map (λ seg. seg.text) subject.segments) dot
