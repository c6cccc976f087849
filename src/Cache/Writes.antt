-- ===== src/Cache/Writes.antt =====
-- crates/themql-cache/src/lib.rs: the operations of `TieredCache` that write and invalidate. None of
-- them reports an error.
use the_mql.Base.{
  ℕ, Bool, false, not, Option, none, some, List, [], ◌∷◌, ok, err, if◌then◌else◌, length, ltb,
}
use the_mql.Base.Text.{Text}
use the_mql.Cache.{CacheEntry}
use the_mql.Cache.Tiered.{
  Backends, TieredCache, storage_key_for, l1_demotion_threshold, map_tier, entry_to_storage,
}
use the_mql.Cache.Tiers.{
  Lru, Moka, index_get, L1Cache, l1_put, l1_invalidate, L2Cache, l2_put, l2_invalidate, l3_put,
  l3_invalidate,
}
use the_mql.Core.Context.{CachePolicy}
use the_mql.Core.Pattern.{SubjectPattern, matches}
use the_mql.Core.Subject.{parse_subject}
use the_mql.QueryEngine.Key.{CacheKey}

-- The `if let Ok(subject) = …` of `invalidate_pattern`, over the subject on record for a key.
unfoldable pub subject_hit : SubjectPattern → Option Text → Bool
subject_hit pattern none = false
subject_hit pattern (some text) = elim (parse_subject text) [
  | ok subject ↦ matches pattern subject
  | err _ ↦ false
]

-- The loop over `l1.keys()` in `invalidate_pattern`.
unfoldable pub sweep_l1 :
    {J L : Type 0} → Lru J L → SubjectPattern → List CacheKey → L1Cache L → L1Cache L
unfolding subject_hit
sweep_l1 lru pattern [] c = c
sweep_l1 lru pattern (key ∷ keys) c =
    sweep_l1 lru pattern keys
      (if subject_hit pattern (index_get key c.key_index) then (l1_invalidate lru key c).1 else c)

-- The loop over `l2.keys()` in `invalidate_pattern`.
unfoldable pub sweep_l2 :
    {J K : Type 0} → Moka J K → SubjectPattern → List CacheKey → L2Cache K → L2Cache K
unfolding subject_hit
sweep_l2 moka pattern [] c = c
sweep_l2 moka pattern (key ∷ keys) c =
    sweep_l2 moka pattern keys
      (if subject_hit pattern (index_get key c.key_index) then l2_invalidate moka key c else c)

module _ {J L K R W : Type 0} (b : Backends J L K R W) where
  -- `serde_json::to_vec(entry).map_or(0, |v| v.len())`
  unfoldable pub entry_size : CacheEntry J → ℕ
  entry_size entry = elim (b.to_vec entry) [ ok bytes ↦ length bytes | err _ ↦ 0 ]

  unfoldable pub put_l3 : CacheKey → CacheEntry J → CachePolicy → Option R → Option R
  put_l3 key entry policy none = none
  put_l3 key entry policy (some r) = some (l3_put b.redis b.json key entry policy.ttl r).1

  unfoldable pub put_l4 : CacheKey → CacheEntry J → W → W
  put_l4 key entry w = elim (entry_to_storage b entry) [
    | ok value ↦ (b.storage.put (storage_key_for key) value w).1
    | err _ ↦ w
  ]

  -- `TieredCache::put_inner`
  unfoldable pub put_inner :
      CacheKey → CacheEntry J → CachePolicy → TieredCache L K R W → TieredCache L K R W
  unfolding entry_size put_l3 put_l4
  put_inner key entry policy t = record {
    l1 =
        if ltb l1_demotion_threshold (entry_size entry)
        then t.l1
        else map_tier (l1_put b.lru key entry) t.l1;
    l2 = map_tier (l2_put b.moka key entry) t.l2;
    l3 = put_l3 key entry policy t.l3;
    l4 = put_l4 key entry t.l4;
  }

  -- `Cache::put`
  unfoldable pub put :
      CacheKey → CacheEntry J → CachePolicy → TieredCache L K R W → TieredCache L K R W
  unfolding put_inner
  put key entry policy t = if not policy.enabled then t else put_inner key entry policy t

  unfoldable pub invalidate_l3 : CacheKey → Option R → Option R
  invalidate_l3 key none = none
  invalidate_l3 key (some r) = some (l3_invalidate b.redis key r).1

  -- `TieredCache::invalidate_inner`, which is `Cache::invalidate`
  unfoldable pub invalidate : CacheKey → TieredCache L K R W → TieredCache L K R W
  unfolding invalidate_l3
  invalidate key t = record {
    l1 = map_tier (λ c. (l1_invalidate b.lru key c).1) t.l1;
    l2 = map_tier (l2_invalidate b.moka key) t.l2;
    l3 = invalidate_l3 key t.l3;
    l4 = (b.storage.delete (storage_key_for key) t.l4).1;
  }

  -- `Cache::invalidate_pattern`
  unfoldable pub invalidate_pattern : SubjectPattern → TieredCache L K R W → TieredCache L K R W
  unfolding sweep_l1 sweep_l2
  invalidate_pattern pattern t = record t {
    l1 = map_tier (λ c. sweep_l1 b.lru pattern (b.lru.keys c.inner) c) t.l1;
    l2 = map_tier (λ c. sweep_l2 b.moka pattern (b.moka.keys c.inner) c) t.l2;
  }
