-- ===== src/Storage/Sled.antt =====
-- crates/themql-storage/src/lib.rs: `SledStorage`. The database `sled`, the codec `bincode` and the
-- views of `serde_json::Value` are parameters.
use the_mql.Base.{
  ℕ, Bool, true, false, ◌&&◌, Option, none, some, List, [], ◌∷◌, Result, ok, err, map_err,
  if◌then◌else◌,
}
use the_mql.Base.Effects.{M, return, throw, continue, ◌>>=◌, ◌>>◌}
use the_mql.Base.Results
use the_mql.Base.Text.{Text, codes, contains}
use the_mql.Core.Pattern.{SubjectPattern, matches}
use the_mql.Core.Subject.{Subject, parse_subject}
use the_mql.Storage.{
  StorageKey, StorageValue, StorageQuery, by_key, by_subject_pattern, by_predicate,
  StorageResultSet, last_page, empty_page, StorageError, internal_failure, serialization_error,
  query_error, Storage,
}
pub mod Laws
pub mod Scan

-- `sled::Db`: which error it reports is not looked at. `iter` gives the entries in key order.
pub record SledDb (D : Type 0) : Type 0 where
  pub get : D → List ℕ → Result (Unit {0}) (Option (List ℕ))
  pub insert : D → List ℕ → List ℕ → Result (Unit {0}) (Unit {0}) × D
  pub remove : D → List ℕ → Result (Unit {0}) (Unit {0}) × D
  pub iter : D → List (Result (Unit {0}) (List ℕ × List ℕ))

-- `bincode`; an error is its text.
pub record Bincode : Type 0 where
  pub serialize_key : StorageKey → Result Text (List ℕ)
  pub deserialize_key : List ℕ → Result Text StorageKey
  pub serialize_value : StorageValue → Result Text (List ℕ)
  pub deserialize_value : List ℕ → Result Text StorageValue

-- `Value::get`, `Value::as_str`, and the text of a `Value::Number`.
pub record JsonView (J : Type 0) : Type 0 where
  pub member : J → Text → Option J
  pub as_str : J → Option Text
  pub as_number : J → Option Text

-- `subject_from_storage_key`
unfoldable pub subject_from_storage_key : StorageKey → Option Subject
subject_from_storage_key key = elim (parse_subject key.text) [
  | ok subject ↦ some subject
  | err _ ↦ none
]

-- The test of one entry in the scan of `BySubjectPattern`.
unfoldable pub key_matches : SubjectPattern → StorageKey → Bool
unfolding subject_from_storage_key
key_matches pattern key = elim (subject_from_storage_key key) [
  | some subject ↦ matches pattern subject
  | none ↦ false
]

-- The last `match` of `predicate_matches`: a string or a number must occur in the key.
unfoldable pub target_matches : {J : Type 0} → JsonView J → Option J → StorageKey → Bool
target_matches json none key = true
target_matches json (some target) key = elim (json.as_str target) [
  | some s ↦ contains key.text s
  | none ↦ elim (json.as_number target) [ some n ↦ contains key.text n | none ↦ true ]
]

-- `predicate_matches`
unfoldable pub predicate_matches : {J : Type 0} → JsonView J → Text → Option J → StorageKey → Bool
unfolding target_matches
predicate_matches json field target key = contains key.text field && target_matches json target key

-- `pred.get("field").and_then(|v| v.as_str())`
unfoldable pub field_of : {J : Type 0} → JsonView J → J → Option Text
field_of json pred = elim (json.member pred (codes "field")) [
  | some v ↦ json.as_str v
  | none ↦ none
]

-- An answer of `bincode`, and one of sled, in the state monad of the backend.
abbrev pub coded : {D A : Type 0} → Result Text A → M D StorageError A
coded r d = (map_err serialization_error r, d)

abbrev pub stored : {D A : Type 0} → Result (Unit {0}) A × D → Result StorageError A × D
stored m = (map_err (λ _. internal_failure) m.0, m.1)

module _ {D : Type 0} (db : SledDb D) (codec : Bincode) where
  -- `Some(vb) => Ok(Some(Self::deserialize_value(&vb)?))`, and `None => Ok(None)`
  unfoldable pub decode_found : Option (List ℕ) → M D StorageError (Option StorageValue)
  decode_found none = return none
  decode_found (some vb) = do v ← coded (codec.deserialize_value vb); return (some v)

  -- `SledStorage::get`
  unfoldable pub get : StorageKey → M D StorageError (Option StorageValue)
  unfolding decode_found
  get key = do
    kb ← coded (codec.serialize_key key)
    found ← λ d. stored (db.get d kb, d)
    decode_found found

  -- `SledStorage::put`
  unfoldable pub put : StorageKey → StorageValue → M D StorageError (Unit {0})
  put key value = do
    kb ← coded (codec.serialize_key key)
    vb ← coded (codec.serialize_value value)
    λ d. stored (db.insert d kb vb)

  -- `SledStorage::delete`
  unfoldable pub delete : StorageKey → M D StorageError (Unit {0})
  delete key = do kb ← coded (codec.serialize_key key); λ d. stored (db.remove d kb)

  -- `ByKey`
  unfoldable pub query_key : StorageKey → M D StorageError StorageResultSet
  unfolding get
  query_key key = do
    found ← get key
    elim found [ none ↦ return empty_page | some v ↦ return (last_page ((key, v) ∷ [])) ]

module _ (codec : Bincode) where
  -- `item.map_err(…)?` and `Self::deserialize_key(&kb)?`
  unfoldable pub read_item :
      Result (Unit {0}) (List ℕ × List ℕ) → Result StorageError (StorageKey × List ℕ)
  read_item (err _) = err internal_failure
  read_item (ok (kb, vb)) =
      Results.◌>>=◌ (map_err serialization_error (codec.deserialize_key kb)) (λ sk. ok (sk, vb))

  -- The loop of `BySubjectPattern`: the value of an entry that does not match is not decoded.
  unfoldable pub scan_pattern :
      SubjectPattern
      → List (Result (Unit {0}) (List ℕ × List ℕ))
      → Result StorageError (List (StorageKey × StorageValue))
  unfolding read_item key_matches
  scan_pattern pattern [] = ok []
  scan_pattern pattern (item ∷ items) = Results.◌>>=◌ (read_item item) λ (sk, vb).
      let rest = scan_pattern pattern items in
      let hit =
        Results.◌>>=◌ (map_err serialization_error (codec.deserialize_value vb))
          λ v. Results.◌>>=◌ rest (λ entries. ok ((sk, v) ∷ entries)) in
      if key_matches pattern sk then hit else rest

  -- The loop of `ByPredicate`: every value is decoded, and the key alone is tested.
  unfoldable pub scan_predicate :
      (StorageKey → Bool)
      → List (Result (Unit {0}) (List ℕ × List ℕ))
      → Result StorageError (List (StorageKey × StorageValue))
  unfolding read_item
  scan_predicate test [] = ok []
  scan_predicate test (item ∷ items) = Results.◌>>=◌ (read_item item) λ (sk, vb).
      Results.◌>>=◌ (map_err serialization_error (codec.deserialize_value vb)) λ v.
        let rest = scan_predicate test items in
        let hit = Results.◌>>=◌ rest (λ entries. ok ((sk, v) ∷ entries)) in
        if test sk then hit else rest

abbrev pub page_of :
    Result StorageError (List (StorageKey × StorageValue)) → Result StorageError StorageResultSet
page_of (ok entries) = ok (last_page entries)
page_of (err e) = err e

module _ {D J : Type 0} (db : SledDb D) (codec : Bincode) (json : JsonView J) where
  -- `SledStorage::query`
  unfoldable pub query : StorageQuery J → M D StorageError StorageResultSet
  unfolding query_key scan_pattern scan_predicate predicate_matches field_of
  query (by_key key) d = query_key db codec key d
  query (by_subject_pattern pattern) d = (page_of (scan_pattern codec pattern (db.iter d)), d)
  query (by_predicate pred) d = elim (field_of json pred) [
    | none ↦ (err (query_error (codes "predicate requires 'field'")), d)
    | some field ↦ (
      page_of (
          scan_predicate codec (predicate_matches json field (json.member pred (codes "value")))
            (db.iter d)),
      d,
    )
  ]

  -- The `Storage` trait, as `SledStorage` implements it.
  abbrev pub sled_storage : Storage J D
  sled_storage = record {
    get = get db codec;
    put = put db codec;
    delete = delete db codec;
    query = query;
  }
