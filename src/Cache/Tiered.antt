-- ===== src/Cache/Tiered.antt =====
-- crates/themql-cache/src/lib.rs: `TieredCache`, the orchestrator of the four tiers.
use the_mql.Base.{ℕ, not, Option, none, some, List, Result, ok, err, map_err, if◌then◌else◌}
use the_mql.Base.Effects.{M, return, ◌>>=◌}
use the_mql.Base.Text.{Text}
use the_mql.Cache.{
  CacheEntry, CacheHit, hit, miss, CacheError, tier_unavailable, deserialization_error,
  serialization_error,
}
use the_mql.Cache.Tiers.{
  Lru, Moka, Redis, EntryJson, L1Cache, l1_get, l1_put, L2Cache, l2_get, l2_put, prefixed_key,
  l3_get,
}
use the_mql.Core.Context.{CacheTier, CachePolicy}
use the_mql.Core.Query.{FormatTag}
use the_mql.QueryEngine.Key.{CacheKey}
use the_mql.Storage.{StorageKey, StorageValue, StorageError, Storage}

-- The operations of the four backends, and `serde_json::to_vec` and `from_slice` of an entry.
pub record Backends (J L K R W : Type 0) : Type 0 where
  pub lru : Lru J L
  pub moka : Moka J K
  pub redis : Redis R
  pub json : EntryJson J
  pub to_vec : CacheEntry J → Result Text (List ℕ)
  pub from_slice : List ℕ → Result Text (CacheEntry J)
  pub storage : Storage J W

-- The state of a `TieredCache`.
pub record TieredCache (L K R W : Type 0) : Type 0 where
  pub l1 : Option (L1Cache L)
  pub l2 : Option (L2Cache K)
  pub l3 : Option R
  pub l4 : W

-- `storage_key_for`
unfoldable pub storage_key_for : CacheKey → StorageKey
unfolding prefixed_key
storage_key_for key = record { text = prefixed_key key }

abbrev pub l1_demotion_threshold : ℕ
l1_demotion_threshold = 4096

abbrev pub map_tier : {A : Type 0} → (A → A) → Option A → Option A
map_tier f none = none
map_tier f (some c) = some (f c)

module _ {J L K R W : Type 0} (b : Backends J L K R W) where
  abbrev Cached : Type 0 → Type 0
  Cached A = M (TieredCache L K R W) CacheError A

  -- `entry_from_storage`
  unfoldable pub entry_from_storage : StorageValue → Result CacheError (CacheEntry J)
  entry_from_storage value = map_err deserialization_error (b.from_slice value.bytes)

  -- `entry_to_storage`
  unfoldable pub entry_to_storage : CacheEntry J → Result CacheError StorageValue
  entry_to_storage entry = elim (b.to_vec entry) [
    | ok bytes ↦ ok (record { bytes = bytes; format = FormatTag.json })
    | err e ↦ err (serialization_error e)
  ]

  -- `TieredCache::promote`: into L1 from below it, and into L2 from below that.
  unfoldable pub promote :
      CacheKey → CacheEntry J → CacheTier → TieredCache L K R W → TieredCache L K R W
  promote key entry CacheTier.l1 t = t
  promote key entry CacheTier.l2 t = record t {
    l1 = map_tier (l1_put b.lru key (record entry { source_tier = CacheTier.l2 })) t.l1;
  }
  promote key entry from t = record t {
    l1 = map_tier (l1_put b.lru key (record entry { source_tier = from })) t.l1;
    l2 = map_tier (l2_put b.moka key (record entry { source_tier = from })) t.l2;
  }

  -- The reads of the four tiers. A redis server that is not reached counts as a miss, and so does
  -- any error of the storage.
  abbrev pub after_l1 :
      TieredCache L K R W
      → Option (CacheEntry J) × L1Cache L
      → Result CacheError (Option (CacheEntry J)) × TieredCache L K R W
  after_l1 t m = (ok m.0, record t { l1 = some m.1 })

  unfoldable pub read_l1 : CacheKey → M (TieredCache L K R W) CacheError (Option (CacheEntry J))
  read_l1 key t = elim t.l1 [ none ↦ (ok none, t) | some c ↦ after_l1 t (l1_get b.lru key c) ]

  abbrev pub after_l2 :
      TieredCache L K R W
      → Option (CacheEntry J) × L2Cache K
      → Result CacheError (Option (CacheEntry J)) × TieredCache L K R W
  after_l2 t m = (ok m.0, record t { l2 = some m.1 })

  unfoldable pub read_l2 : CacheKey → M (TieredCache L K R W) CacheError (Option (CacheEntry J))
  read_l2 key t = elim t.l2 [ none ↦ (ok none, t) | some c ↦ after_l2 t (l2_get b.moka key c) ]

  abbrev pub l3_outcome :
      Result CacheError (Option (CacheEntry J)) → Result CacheError (Option (CacheEntry J))
  l3_outcome (err (tier_unavailable _)) = ok none
  l3_outcome r = r

  abbrev pub after_l3 :
      TieredCache L K R W
      → Result CacheError (Option (CacheEntry J)) × R
      → Result CacheError (Option (CacheEntry J)) × TieredCache L K R W
  after_l3 t m = (l3_outcome m.0, record t { l3 = some m.1 })

  unfoldable pub read_l3 : CacheKey → M (TieredCache L K R W) CacheError (Option (CacheEntry J))
  read_l3 key t = elim t.l3 [
    | none ↦ (ok none, t)
    | some r ↦ after_l3 t (l3_get b.redis b.json key r)
  ]

  abbrev pub l4_outcome :
      Result StorageError (Option StorageValue) → Result CacheError (Option (CacheEntry J))
  l4_outcome (ok (some value)) = elim (entry_from_storage value) [
    | ok entry ↦ ok (some entry)
    | err e ↦ err e
  ]
  l4_outcome (ok none) = ok none
  l4_outcome (err _) = ok none

  abbrev pub after_l4 :
      TieredCache L K R W
      → Result StorageError (Option StorageValue) × W
      → Result CacheError (Option (CacheEntry J)) × TieredCache L K R W
  after_l4 t m = (l4_outcome m.0, record t { l4 = m.1 })

  unfoldable pub read_l4 : CacheKey → M (TieredCache L K R W) CacheError (Option (CacheEntry J))
  unfolding entry_from_storage
  read_l4 key t = after_l4 t (b.storage.get (storage_key_for key) t.l4)

  -- A hit below L1 is promoted and returned; after a miss the walk goes on.
  abbrev pub found_at :
      CacheTier
      → CacheKey
      → M (TieredCache L K R W) CacheError (CacheHit J)
      → Option (CacheEntry J)
      → M (TieredCache L K R W) CacheError (CacheHit J)
  found_at tier key next (some entry) t = (ok (hit entry tier), promote key entry tier t)
  found_at tier key next none t = next t

  unfoldable pub get_from_l4 : CacheKey → M (TieredCache L K R W) CacheError (CacheHit J)
  unfolding read_l4 promote
  get_from_l4 key = read_l4 key >>= found_at CacheTier.l4 key (return miss)

  unfoldable pub get_from_l3 : CacheKey → M (TieredCache L K R W) CacheError (CacheHit J)
  unfolding read_l3 get_from_l4
  get_from_l3 key = read_l3 key >>= found_at CacheTier.l3 key (get_from_l4 key)

  unfoldable pub get_from_l2 : CacheKey → M (TieredCache L K R W) CacheError (CacheHit J)
  unfolding read_l2 get_from_l3
  get_from_l2 key = read_l2 key >>= found_at CacheTier.l2 key (get_from_l3 key)

  -- `TieredCache::get_inner`
  unfoldable pub get_inner : CacheKey → M (TieredCache L K R W) CacheError (CacheHit J)
  unfolding read_l1 get_from_l2
  get_inner key = read_l1 key >>= found_at CacheTier.l1 key (get_from_l2 key)

  -- `Cache::get`
  unfoldable pub get : CacheKey → CachePolicy → M (TieredCache L K R W) CacheError (CacheHit J)
  unfolding get_inner
  get key policy =
      if not policy.enabled
      then return miss
      else if policy.bypass
      then return miss
      else get_inner key
