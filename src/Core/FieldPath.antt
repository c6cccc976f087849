-- ===== src/Core/FieldPath.antt =====
-- crates/themql-core/src/lib.rs: `FieldPath`, the dot-joined path into a resource.
use the_mql.Base.{
  false, List, [], ◌∷◌, ◌≡◌, refl, ◌≢◌, ◌↔◌, arith, All, any, is_empty, Result, ok, err,
  if◌then◌else◌,
}
use the_mql.Base.Text.{Text, split, join, Without}
use the_mql.Base.Split.{IsFull, split-ne-nil, join-split, split-join, split-Without}
use the_mql.Core.Subject.{SubjectError, empty_segment, dot}

pub record FieldPath : Type 0 where
  pub segments : List Text

-- `FieldPath::from_str`
unfoldable pub parse_field_path : Text → Result SubjectError FieldPath
parse_field_path s =
    if is_empty s
    then err empty_segment
    else if any is_empty (split s dot)
    then err empty_segment
    else ok (record { segments = split s dot })

-- `FieldPath::as_str`
unfoldable pub field_path_text : FieldPath → Text
field_path_text path = join path.segments dot

-- At least one segment, none of them empty or with a dot in it.
abbrev pub IsFieldPath : FieldPath → Type 0
IsFieldPath path = (path.segments ≢ []) × All IsFull path.segments × All (Without dot) path.segments

Full_of_any : (parts : List Text) → any is_empty parts ≡ false → All IsFull parts
Full_of_any [] h = tt
Full_of_any ([] ∷ parts) h = cc
Full_of_any ((c ∷ p) ∷ parts) h = ((λ e. cc), Full_of_any parts h)

any_of_Full : (parts : List Text) → All IsFull parts → any is_empty parts ≡ false
any_of_Full [] h = refl
any_of_Full ([] ∷ parts) h = absurd (h.0 refl)
any_of_Full ((c ∷ p) ∷ parts) h = any_of_Full parts h.1

join_full : (parts : List Text) → parts ≢ [] → All IsFull parts → is_empty (join parts dot) ≡ false
unfolding join
join_full [] n h = absurd (n refl)
join_full ([] ∷ parts) n h = absurd (h.0 refl)
join_full ((c ∷ p) ∷ []) n h = refl
join_full ((c ∷ p) ∷ q ∷ parts) n h = refl

parse_field_path-eq-ok :
    (s : Text) (path : FieldPath)
    → parse_field_path s ≡ ok path
    → IsFieldPath path × (field_path_text path ≡ s)
unfolding parse_field_path field_path_text
parse_field_path-eq-ok [] path h = cc
parse_field_path-eq-ok (c ∷ s) path h =
    let e : path.segments ≡ split (c ∷ s) dot = ground arith in
    rw e (
      (
        split-ne-nil (c ∷ s) dot,
        Full_of_any (split (c ∷ s) dot) (ground arith),
        split-Without (c ∷ s) dot,
      ),
      join-split (c ∷ s) dot,
    )

parse-field_path_text :
    (path : FieldPath) → IsFieldPath path → parse_field_path (field_path_text path) ≡ ok path
unfolding parse_field_path field_path_text
parse-field_path_text path (n, full, without) = rw (
  join_full path.segments n full,
  split-join path.segments dot n without,
  any_of_Full path.segments full,
)

-- `from_str` accepts a text exactly if it is the dot-joined form of a path of non-empty segments
-- without dots, and then returns that path.
pub parse_field_path_iff :
    (s : Text) (path : FieldPath)
    → (parse_field_path s ≡ ok path) ↔ (IsFieldPath path × (field_path_text path ≡ s))
parse_field_path_iff s path =
    (parse_field_path-eq-ok s path, λ w. rw (← w.1) (parse-field_path_text path w.0))
