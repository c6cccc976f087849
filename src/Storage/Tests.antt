-- ===== src/Storage/Tests.antt =====
-- crates/themql-storage/src/lib.rs: runs on a database that is a list of entries.
use the_mql.Base.{
  ℕ, Option, none, some, List, [], ◌∷◌, ok, err, map, filter_by, ◌≡◌, refl, ◌≢◌, if◌then◌else◌,
  arith, ap, length, Bool-cases, inl, inr,
}
use the_mql.Base.Text.{Text, codes, text_eq, text_eq_iff, text_eq_refl}
use the_mql.Core.Pattern.{SubjectPattern, concrete, wildcard_multi}
use the_mql.Core.Query.{FormatTag, json, bincode, postcard, custom}
use the_mql.Storage.{StorageKey, StorageValue, by_subject_pattern, last_page}
use the_mql.Storage.Sled.{SledDb, Bincode, JsonView, key_matches, field_of, get, put, delete, query}
use the_mql.Storage.Sled.Laws.{SledLaws, BincodeLaws, get-put}
use the_mql.Storage.Sled.Scan.{Decodes, query-pattern}

abbrev Db : Type 0
Db = List (Text × Text)

abbrev db_get : Db → Text → Option Text
db_get [] k = none
db_get ((j, v) ∷ rest) k = if text_eq j k then some v else db_get rest k

abbrev db_remove : Db → Text → Db
db_remove [] k = []
db_remove ((j, v) ∷ rest) k = if text_eq j k then db_remove rest k else (j, v) ∷ db_remove rest k

abbrev db : SledDb Db
db = record {
  get = λ d k. ok (db_get d k);
  insert = λ d k v. (ok tt, (k, v) ∷ d);
  remove = λ d k. (ok tt, db_remove d k);
  iter = λ d. map ok d;
}

-- Values of one format, coded as their bytes.
abbrev codec : Bincode
codec = record {
  serialize_key = λ k. ok k.text;
  deserialize_key = λ b. ok (record { text = b });
  serialize_value = λ v. elim v.format [ json ↦ ok v.bytes | _ ↦ err (codes "format") ];
  deserialize_value = λ b. ok (record { bytes = b; format = json });
}

db_get-remove : (d : Db) (k : Text) → db_get (db_remove d k) k ≡ none
db_get-remove [] k = refl
db_get-remove ((j, v) ∷ rest) k = elim (Bool-cases (text_eq j k)) [
  | inl e ↦ rw e (db_get-remove rest k)
  | inr e ↦ rw e (rw e (db_get-remove rest k))
]

laws : SledLaws db
laws = record {
  get-insert = λ d k v h. rw (text_eq_refl k);
  get-insert_ne = λ d k j v n h. elim (Bool-cases (text_eq k j)) [
    | inl e ↦ absurd (n ((text_eq_iff k j).0 e))
    | inr e ↦ rw e
  ];
  get-remove = λ d k h. ap ok (db_get-remove d k);
}

coded_back :
    (bytes : List ℕ) (format : FormatTag) (b : Text)
    → codec.serialize_value (record { bytes = bytes; format = format }) ≡ ok b
    → codec.deserialize_value b ≡ ok (record { bytes = bytes; format = format })
coded_back bytes json b h = cc
coded_back bytes bincode b h = cc
coded_back bytes postcard b h = cc
coded_back bytes (custom name) b h = cc

back : BincodeLaws codec
back = record { key_back = λ k b h. cc; value_back = λ v b h. coded_back v.bytes v.format b h }

abbrev rpm : StorageKey
rpm = record { text = codes "car.rpm" }

abbrev temp : StorageKey
temp = record { text = codes "car.temperature" }

abbrev value : StorageValue
value = record { bytes = 1 ∷ 2 ∷ []; format = json }

abbrev stored : List (StorageKey × StorageValue)
stored = (rpm, value) ∷ (temp, value) ∷ (record { text = codes "boat" }, value) ∷ []

abbrev disk : Db
disk =
    (codes "car.rpm", 1 ∷ 2 ∷ [])
    ∷ (codes "car.temperature", 1 ∷ 2 ∷ [])
    ∷ (codes "boat", 1 ∷ 2 ∷ [])
    ∷ []

abbrev below_car : SubjectPattern
below_car = record { segments = concrete (record { text = codes "car" }) ∷ wildcard_multi ∷ [] }

-- A value is an object of texts, or a text.
abbrev object : JsonView (List (Text × Text))
object = record {
  member = λ o name. elim (db_get o name) [ none ↦ none | some t ↦ some ((codes "", t) ∷ []) ];
  as_str = λ o. db_get o (codes "");
  as_number = λ o. none;
}

abbrev on_name : List (Text × Text)
on_name = (codes "field", codes "name") ∷ (codes "value", codes "rpm") ∷ []

program : Unit {0}
unfolding get put delete query text_eq field_of
program = tt

written : (put db codec rpm value []).0 ≡ ok tt
unfolding program
written = refl

deleted : (delete db codec rpm disk).0 ≡ ok tt
unfolding program
deleted = refl

named : field_of object on_name ≡ some (codes "name")
unfolding program
named = refl

temp-ne-rpm : temp ≢ rpm
temp-ne-rpm = λ e. omega (arith, ap (λ k. length k.text) e)

get-put_example : (get db codec rpm (put db codec rpm value []).1).0 ≡ ok (some value)
get-put_example = get-put db codec laws back rpm [] value written

decodes : Decodes codec (db.iter disk) stored
decodes = (refl, refl, (refl, refl, (refl, refl, tt)))

query-pattern_example :
    query db codec object (by_subject_pattern below_car) disk
    ≡ (ok (last_page (filter_by (λ e. key_matches below_car e.0) stored)), disk)
query-pattern_example = query-pattern db codec object disk stored decodes below_car
