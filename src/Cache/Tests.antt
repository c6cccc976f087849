-- ===== src/Cache/Tests.antt =====
-- crates/themql-cache/src/lib.rs: runs with tiers that are lists of entries.
use the_mql.Base.{
  ℕ, zero, suc, true, false, Option, none, some, List, [], ◌∷◌, ok, err, map, any, length, ltb,
  if◌then◌else◌, ◌≡◌, refl, arith,
}
use the_mql.Base.Text.{codes, text_eq, starts_with_char, ends_with_char, contains, split}
use the_mql.Cache.{CacheEntry, hit}
use the_mql.Cache.Hidden.{key_matches-storage_key_for}
use the_mql.Cache.Invalidation.{key_eq_iff, LruLaws, get-invalidate_pattern}
use the_mql.Cache.Reading.{ReadsBack, get_l1_hit, get-put_within}
use the_mql.Cache.Tiered.{Backends, TieredCache, l1_demotion_threshold, storage_key_for, get}
use the_mql.Cache.Tiers.{
  Lru, Moka, key_eq, index_get, L1Cache, l1_get, l1_new, l1_invalidate, L2Cache, l2_get, l2_new,
}
use the_mql.Cache.Unindexed.{here, next, got, wrote, invalidate_pattern_idle}
use the_mql.Cache.Writes.{subject_hit, entry_size, put, invalidate_pattern}
use the_mql.Core.Context.{CacheTier, default_policy}
use the_mql.Core.Pattern.{SubjectPattern, wildcard_multi, matches}
use the_mql.Core.Subject.{parse_subject, is_segment_char}
use the_mql.Core.Query.{unit}
use the_mql.Core.Time.{now_monotonic}
use the_mql.QueryEngine.Key.{CacheKey}
use the_mql.Storage.Sled.{key_matches}
use the_mql.Storage.{last_page}

abbrev Entries : Type 0
Entries = List (CacheKey × CacheEntry ℕ)

abbrev find : CacheKey → Entries → Option (CacheEntry ℕ)
find k [] = none
find k ((j, e) ∷ rest) = if key_eq j k then some e else find k rest

abbrev drop_key : CacheKey → Entries → Entries
drop_key k [] = []
drop_key k ((j, e) ∷ rest) = if key_eq j k then drop_key k rest else (j, e) ∷ drop_key k rest

abbrev lru : Lru ℕ Entries
lru = record {
  new = λ n. [];
  get = λ k l. (find k l, l);
  put = λ k e l. (k, e) ∷ l;
  pop = λ k l. (find k l, drop_key k l);
  clear = λ l. [];
  keys = λ l. map (λ (e : CacheKey × CacheEntry ℕ). e.0) l;
}

abbrev moka : Moka ℕ Entries
moka = record {
  new = λ n. [];
  get = λ k l. (find k l, l);
  insert = λ k e l. (k, e) ∷ l;
  invalidate = drop_key;
  invalidate_all = λ l. [];
  keys = λ l. map (λ (e : CacheKey × CacheEntry ℕ). e.0) l;
}

abbrev zeros : ℕ → List ℕ
zeros zero = []
zeros (suc n) = 0 ∷ zeros n

-- A redis server that is never reached, a storage that keeps nothing, and entries of the size that
-- their TTL says.
abbrev b : Backends ℕ Entries Entries (Unit {0}) (Unit {0})
b = record {
  lru = lru;
  moka = moka;
  redis = record {
    connect = λ r. (err tt, r);
    get = λ k r. (err tt, r);
    setex = λ k n v r. (err tt, r);
    set = λ k v r. (err tt, r);
    del = λ k r. (err tt, r);
  };
  json = record { to_string = λ e. err []; from_str = λ t. err [] };
  to_vec = λ e. elim e.ttl [ none ↦ ok [] | some n ↦ ok (zeros n) ];
  from_slice = λ l. err [];
  storage = record {
    get = λ k w. (ok none, w);
    put = λ k v w. (ok tt, w);
    delete = λ k w. (ok tt, w);
    query = λ q w. (ok (last_page []), w);
  };
}

abbrev k₁ : CacheKey
k₁ = record { hash = 1 ∷ [] }

abbrev small : CacheEntry ℕ
small = record {
  value = unit;
  inserted_at = now_monotonic;
  ttl = none;
  source_tier = CacheTier.l1;
  etag = none;
}

abbrev large : CacheEntry ℕ
large = record small { ttl = some 5000 }

abbrev no_entries : L1Cache Entries
no_entries = record { inner = []; key_index = [] }

abbrev one_entry : L1Cache Entries
one_entry = record { inner = (k₁, small) ∷ []; key_index = (k₁, codes "car.rpm") ∷ [] }

abbrev no_entries₂ : L2Cache Entries
no_entries₂ = record { inner = []; key_index = [] }

abbrev one_entry₂ : L2Cache Entries
one_entry₂ = record { inner = (k₁, small) ∷ []; key_index = [] }

abbrev cold : TieredCache Entries Entries (Unit {0}) (Unit {0})
cold = record { l1 = some no_entries; l2 = some no_entries₂; l3 = none; l4 = tt }

abbrev warm₁ : TieredCache Entries Entries (Unit {0}) (Unit {0})
warm₁ = record cold { l1 = some one_entry }

abbrev warm₂ : TieredCache Entries Entries (Unit {0}) (Unit {0})
warm₂ = record cold { l2 = some one_entry₂ }

abbrev everything : SubjectPattern
everything = record { segments = wildcard_multi ∷ [] }

program : Unit {0}
unfolding l1_get l2_get l1_new l2_new key_eq text_eq entry_size invalidate_pattern get put index_get
    l1_invalidate parse_subject starts_with_char ends_with_char contains split is_segment_char
    matches
program = tt

find-drop_key :
    (j k : CacheKey) (l : Entries) → find k (drop_key j l) ≡ (if key_eq j k then none else find k l)
find-drop_key j k [] = ground arith
find-drop_key j k ((i, e) ∷ l) =
    ground (arith, key_eq_iff i j, key_eq_iff i k, key_eq_iff j k, find-drop_key j k l)

find_complete :
    (k : CacheKey) (l : Entries) → any (λ j. key_eq j k) (lru.keys l) ≡ false → find k l ≡ none
find_complete k [] h = refl
find_complete k ((j, e) ∷ l) h = ground (arith, find_complete k l)

laws : LruLaws lru
laws = record { get-pop = find-drop_key; keys_complete = find_complete }

key_eq_refl : (k : CacheKey) → key_eq k k ≡ true
key_eq_refl k = (key_eq_iff k k).1 refl

reads_back : ReadsBack b
reads_back = record { lru = λ k e l. rw (key_eq_refl k); moka = λ k e l. rw (key_eq_refl k) }

length-zeros : (n : ℕ) → length (zeros n) ≡ n
length-zeros zero = omega arith
length-zeros (suc n) = omega (arith, length-zeros n)

sized : (n : ℕ) → entry_size b (record small { ttl = some n }) ≡ n
unfolding entry_size
sized n = length-zeros n

oversized : ltb l1_demotion_threshold (entry_size b large) ≡ true
oversized = rw (sized 5000)

fits : ltb l1_demotion_threshold (entry_size b small) ≡ false
unfolding program
fits = refl

found₁ : (l1_get lru k₁ one_entry).0 ≡ some small
unfolding program
found₁ = refl

found₂ : (l2_get moka k₁ one_entry₂).0 ≡ some small
unfolding program
found₂ = refl

absent₁ : (l1_get lru k₁ no_entries).0 ≡ none
unfolding program
absent₁ = refl

get_l1_hit_example :
    get b k₁ default_policy warm₁
    ≡ (ok (hit small CacheTier.l1), record warm₁ { l1 = some (l1_get lru k₁ one_entry).1 })
get_l1_hit_example = get_l1_hit b k₁ default_policy warm₁ one_entry small (refl, refl) refl found₁

get-put_within_example :
    (get b k₁ default_policy (put b k₁ small default_policy cold)).0 ≡ ok (hit small CacheTier.l1)
get-put_within_example =
    get-put_within b reads_back k₁ default_policy default_policy cold no_entries small refl
      (refl, refl) refl fits

abbrev swept : L1Cache Entries
swept = no_entries

sweeps : (invalidate_pattern b everything warm₁).l1 ≡ some swept
unfolding program
sweeps = refl

get-invalidate_pattern_example : (l1_get lru k₁ swept).0 ≡ (
    if subject_hit everything (index_get k₁ one_entry.key_index)
    then none
    else (l1_get lru k₁ one_entry).0)
get-invalidate_pattern_example =
    get-invalidate_pattern b everything k₁ warm₁ one_entry swept laws refl sweeps

abbrev new_cache : TieredCache Entries Entries (Unit {0}) (Unit {0})
new_cache = record { l1 = some (l1_new lru 4); l2 = some (l2_new moka 8); l3 = none; l4 = tt }

-- An entry written, and read back, with a pattern that matches every subject swept after it.
invalidate_pattern_idle_example :
    invalidate_pattern b everything
      (get b k₁ default_policy (put b k₁ small default_policy new_cache)).1
    ≡ (get b k₁ default_policy (put b k₁ small default_policy new_cache)).1
invalidate_pattern_idle_example =
    invalidate_pattern_idle b everything 4 8 none tt
      (next (next here (wrote k₁ small default_policy)) (got k₁ default_policy))

key_matches-storage_key_for_example : key_matches everything (storage_key_for k₁) ≡ false
key_matches-storage_key_for_example = key_matches-storage_key_for everything k₁
