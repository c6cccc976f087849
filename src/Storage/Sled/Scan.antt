-- ===== src/Storage/Sled/Scan.antt =====
-- crates/themql-storage/src/lib.rs: which entries the two scans of `SledStorage::query` return.
use the_mql.Base.{
  ℕ, Bool, true, some, List, [], ◌∷◌, Result, ok, err, ◌≡◌, refl, sym, ◌∙◌, ◌↔◌, arith, filter_by,
  Result-cases, inl, inr,
}
use the_mql.Base.Text.{Text, codes}
use the_mql.Core.Pattern.{SubjectPattern, matches}
use the_mql.Core.Pattern.Matching.{Covers, MultiLast, matches_iff}
use the_mql.Core.Subject.{Subject, parse_subject}
use the_mql.Storage.{StorageKey, StorageValue, by_subject_pattern, by_predicate, last_page}
use the_mql.Storage.Sled.{
  SledDb, Bincode, JsonView, key_matches, predicate_matches, scan_pattern, scan_predicate, query,
  field_of,
}

-- Every item of the iteration was read, and decodes to the entry beside it.
abbrev pub Decodes :
    Bincode → List (Result (Unit {0}) (List ℕ × List ℕ)) → List (StorageKey × StorageValue) → Type 0
Decodes codec [] [] = Unit
Decodes codec (ok (kb, vb) ∷ items) ((k, v) ∷ entries) =
    (codec.deserialize_key kb ≡ ok k)
    × (codec.deserialize_value vb ≡ ok v)
    × Decodes codec items entries
Decodes codec _ _ = ⊥

scan_pattern-filter :
    (codec : Bincode) (pattern : SubjectPattern)
    (items : List (Result (Unit {0}) (List ℕ × List ℕ)))
    (entries : List (StorageKey × StorageValue))
    → Decodes codec items entries
    → scan_pattern codec pattern items ≡ ok (filter_by (λ e. key_matches pattern e.0) entries)
unfolding scan_pattern
scan_pattern-filter codec pattern [] [] h = refl
scan_pattern-filter codec pattern (ok (kb, vb) ∷ items) ((k, v) ∷ entries) h =
    rw (h.0, scan_pattern-filter codec pattern items entries h.2, h.1) (ground arith)
scan_pattern-filter codec pattern [] (e ∷ entries) h = absurd h
scan_pattern-filter codec pattern (err e ∷ items) entries h = absurd h
scan_pattern-filter codec pattern (ok i ∷ items) [] h = absurd h

scan_predicate-filter :
    (codec : Bincode) (test : StorageKey → Bool)
    (items : List (Result (Unit {0}) (List ℕ × List ℕ)))
    (entries : List (StorageKey × StorageValue))
    → Decodes codec items entries
    → scan_predicate codec test items ≡ ok (filter_by (λ e. test e.0) entries)
unfolding scan_predicate
scan_predicate-filter codec test [] [] h = refl
scan_predicate-filter codec test (ok (kb, vb) ∷ items) ((k, v) ∷ entries) h =
    rw (h.0, scan_predicate-filter codec test items entries h.2, h.1) (ground arith)
scan_predicate-filter codec test [] (e ∷ entries) h = absurd h
scan_predicate-filter codec test (err e ∷ items) entries h = absurd h
scan_predicate-filter codec test (ok i ∷ items) [] h = absurd h

key_matches_of_subject :
    (pattern : SubjectPattern) (key : StorageKey) (subject : Subject)
    → parse_subject key.text ≡ ok subject
    → key_matches pattern key ≡ matches pattern subject
unfolding key_matches
key_matches_of_subject pattern key subject e = ground arith

-- An entry is hit by a pattern with `#` at its end only exactly if its key is the text of a subject
-- that the pattern covers.
pub key_matches_iff :
    (pattern : SubjectPattern) (key : StorageKey)
    → MultiLast pattern.segments
    → (key_matches pattern key ≡ true) ↔ (
        (subject : Subject) × (parse_subject key.text ≡ ok subject)
        × Covers pattern.segments subject.segments)
unfolding key_matches
key_matches_iff pattern key m = (
  λ h. elim (Result-cases (parse_subject key.text)) [
    | inl (subject, e) ↦ (
      subject,
      e,
      (matches_iff pattern subject m).0 (sym (key_matches_of_subject pattern key subject e) ∙ h),
    )
    | inr (f, e) ↦ absurd (ground arith)
  ],
  λ (subject, e, c).
      key_matches_of_subject pattern key subject e ∙ (matches_iff pattern subject m).1 c,
)

module _ {D J : Type 0} (db : SledDb D) (codec : Bincode) (json : JsonView J) (d : D)
    (entries : List (StorageKey × StorageValue)) (h : Decodes codec (db.iter d) entries) where
  -- A pattern query on a database that reads and decodes returns, in one page and in the order of
  -- the iteration, exactly the entries whose keys the pattern hits, and changes nothing.
  pub query-pattern :
      (pattern : SubjectPattern)
      → query db codec json (by_subject_pattern pattern) d
        ≡ (ok (last_page (filter_by (λ e. key_matches pattern e.0) entries)), d)
  unfolding query
  query-pattern pattern = rw (scan_pattern-filter codec pattern (db.iter d) entries h)

  -- A predicate query with a `field`, on a database that reads and decodes, returns in one page and in
  -- the order of the iteration the entries whose keys pass the test of the predicate, and changes
  -- nothing.
  pub query-predicate :
      (pred : J) (field : Text)
      → field_of json pred ≡ some field
      → query db codec json (by_predicate pred) d ≡ (
        ok (
            last_page (
              filter_by
                (λ e. predicate_matches json field (json.member pred (codes "value")) e.0)
                entries)),
        d,
      )
  unfolding query
  query-predicate pred field f = rw (
    f,
    query,
    scan_predicate-filter codec (predicate_matches json field (json.member pred (codes "value")))
        (db.iter d) entries h,
  )
