-- ===== src/Core/Tests.antt =====
-- crates/themql-core/src/lib.rs: runs on concrete texts.
use the_mql.Base.{ℕ, true, [], ◌∷◌, ok, err, ◌≡◌, refl, ◌↔◌, ◌≢◌, ap, length, arith}
use the_mql.Base.Int.{pos}
use the_mql.Base.Text.{codes, text_eq, starts_with_char, ends_with_char, contains, split}
use the_mql.Core.FieldPath.{FieldPath, parse_field_path, field_path_text}
use the_mql.Core.Message.{Metadata, new_metadata, with_extension, lookup}
use the_mql.Core.Pattern.{
  SubjectPattern, concrete, wildcard_multi, parse_pattern, pattern_text, matches,
}
use the_mql.Core.Pattern.Grammar.{IsWellFormedPattern, parse_pattern_iff}
use the_mql.Core.Pattern.Matching.{Covers, matches_iff}
use the_mql.Core.Subject.{
  Subject, consecutive_separators, parse_subject, subject_text, is_segment_char,
}
use the_mql.Core.Subject.Grammar.{IsWellFormed, parse_subject_iff, parse_subject-eq-ok}
use the_mql.Core.Time.{Deadline, Timestamp, monotonic, is_expired}

program : Unit {0}
unfolding parse_subject subject_text parse_pattern pattern_text matches parse_field_path
    field_path_text is_expired with_extension lookup text_eq starts_with_char ends_with_char
    contains split is_segment_char
program = tt

abbrev engine : Subject
engine = record { segments = record { text = codes "car" } ∷ record { text = codes "rpm" } ∷ [] }

abbrev below_car : SubjectPattern
below_car = record { segments = concrete (record { text = codes "car" }) ∷ wildcard_multi ∷ [] }

abbrev path : FieldPath
path = record { segments = codes "a" ∷ codes "b c" ∷ [] }

abbrev deadline : Deadline
deadline = record { kind = monotonic; nanos_since_epoch = pos 3 }

abbrev at_time : ℕ → Timestamp
at_time n = record { kind = monotonic; nanos_since_epoch = pos n }

parsed : parse_subject (codes "car.rpm") ≡ ok engine
unfolding program
parsed = refl

refused : parse_subject (codes "car..rpm") ≡ err consecutive_separators
unfolding program
refused = refl

matched : matches below_car engine ≡ true
unfolding program
matched = refl

engine-IsWellFormed : IsWellFormed engine
engine-IsWellFormed = (parse_subject-eq-ok (codes "car.rpm") engine parsed).0

parse_subject_iff_example :
    (parse_subject (codes "car.rpm") ≡ ok engine)
    ↔ (IsWellFormed engine × (subject_text engine ≡ codes "car.rpm"))
parse_subject_iff_example = parse_subject_iff (codes "car.rpm") engine

matches_iff_example : (matches below_car engine ≡ true) ↔ Covers below_car.segments engine.segments
matches_iff_example = matches_iff below_car engine refl

parse_pattern_iff_example :
    (parse_pattern (codes "car.#") ≡ ok below_car)
    ↔ (IsWellFormedPattern below_car × (pattern_text below_car ≡ codes "car.#"))
parse_pattern_iff_example = parse_pattern_iff (codes "car.#") below_car

expired : is_expired deadline (at_time 5) ≡ true
unfolding program
expired = refl

abbrev metadata : Metadata ℕ ℕ
metadata = new_metadata

unit-ne-id : codes "unit" ≢ codes "id"
unit-ne-id = λ e. omega (arith, ap length e)
