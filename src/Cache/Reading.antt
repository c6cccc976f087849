-- ===== src/Cache/Reading.antt =====
-- crates/themql-cache/src/lib.rs: what `TieredCache::get` returns, and what it leaves behind.
use the_mql.Base.{
  true, false, not, ◌||◌, inl, inr, Bool-cases, none, some, ok, if◌then◌else◌, ◌≡◌, ◌∙◌, ltb, ap,
}
use the_mql.Cache.{CacheEntry, hit, miss}
use the_mql.Cache.Tiered.{
  Backends, TieredCache, l1_demotion_threshold, promote, read_l1, read_l2, get,
}
use the_mql.Cache.Tiers.{L1Cache, l1_get, l1_put, L2Cache, l2_get, l2_put}
use the_mql.Cache.Writes.{entry_size, put}
use the_mql.Core.Context.{CacheTier, CachePolicy}
use the_mql.QueryEngine.Key.{CacheKey}

-- What the crates `lru` and `moka` document: a value that was just written is read.
pub record ReadsBack {J L K R W : Type 0} (b : Backends J L K R W) : Type 0 where
  pub lru : (k : CacheKey) (e : CacheEntry J) (l : L) → (b.lru.get k (b.lru.put k e l)).0 ≡ some e
  pub moka :
      (k : CacheKey) (e : CacheEntry J) (l : K) → (b.moka.get k (b.moka.insert k e l)).0 ≡ some e

module _ {J L K R W : Type 0} (b : Backends J L K R W) (key : CacheKey) (policy : CachePolicy) where
  -- A policy that disables caching or bypasses it gives a miss, and no tier is looked at.
  pub get_skipped :
      (t : TieredCache L K R W)
      → (not policy.enabled || policy.bypass) ≡ true
      → get b key policy t ≡ (ok miss, t)
  unfolding get
  get_skipped t h = elim (Bool-cases policy.enabled) [ inl e ↦ rw (e, bypassed e) | inr e ↦ rw e ]
    where
      bypassed : policy.enabled ≡ true → policy.bypass ≡ true
      bypassed e = rw e at h

  abbrev pub IsReading : Type 0
  IsReading = (policy.enabled ≡ true) × (policy.bypass ≡ false)

  -- Under a policy that reads, an entry in L1 is returned, marked as found there, and only L1 is
  -- touched.
  pub get_l1_hit :
      (t : TieredCache L K R W) (c : L1Cache L) (e : CacheEntry J)
      → IsReading
      → t.l1 ≡ some c
      → (l1_get b.lru key c).0 ≡ some e
      → get b key policy t
        ≡ (ok (hit e CacheTier.l1), record t { l1 = some (l1_get b.lru key c).1 })
  unfolding get read_l1
  get_l1_hit t c e h there found = rw (h.0, h.1, there, found)

  -- Under a policy that reads, where L1 lacks the key, an entry in L2 is returned, marked as found
  -- there, and is written to L1 with L2 as its source tier.
  pub get_l2_hit :
      (t : TieredCache L K R W) (c : L1Cache L) (c₂ : L2Cache K) (e : CacheEntry J)
      → IsReading
      → t.l1 ≡ some c
      → t.l2 ≡ some c₂
      → (l1_get b.lru key c).0 ≡ none
      → (l2_get b.moka key c₂).0 ≡ some e
      → get b key policy t ≡ (
        ok (hit e CacheTier.l2),
        record t {
          l1 =
              some
                (l1_put b.lru key (record e { source_tier = CacheTier.l2 }) (l1_get b.lru key c).1);
          l2 = some (l2_get b.moka key c₂).1;
        },
      )
  unfolding get read_l1 read_l2 promote
  get_l2_hit t c c₂ e h there there₂ absent found = rw (h.0, h.1, there, absent, there₂, found)

-- What `put` leaves in L1: the entry, unless its JSON is longer than the threshold.
put_l1 :
    {J L K R W : Type 0} (b : Backends J L K R W) (key : CacheKey) (write : CachePolicy)
    (t : TieredCache L K R W) (c : L1Cache L) (e : CacheEntry J)
    → write.enabled ≡ true
    → t.l1 ≡ some c
    → (put b key e write t).l1
      ≡ (if ltb l1_demotion_threshold (entry_size b e) then some c else some (l1_put b.lru key e c))
unfolding put
put_l1 b key write t c e on there = rw (on, there)

put_l2 :
    {J L K R W : Type 0} (b : Backends J L K R W) (key : CacheKey) (write : CachePolicy)
    (t : TieredCache L K R W) (c : L2Cache K) (e : CacheEntry J)
    → write.enabled ≡ true
    → t.l2 ≡ some c
    → (put b key e write t).l2 ≡ some (l2_put b.moka key e c)
unfolding put
put_l2 b key write t c e on there = rw (on, there)

module _ {J L K R W : Type 0} (b : Backends J L K R W) (laws : ReadsBack b) (key : CacheKey)
    (write policy : CachePolicy) (t : TieredCache L K R W) (c : L1Cache L) (e : CacheEntry J)
    (on : write.enabled ≡ true) (h : IsReading b key policy) (there : t.l1 ≡ some c) where
  -- With an LRU and a moka cache that return what was just written, an L1, and policies that write
  -- and read, an entry within the size limit that was just written is read back from L1 as it was
  -- written. The tier that the policies hint at has no part in this: L1 is written and read
  -- whatever the hint.
  pub get-put_within :
      ltb l1_demotion_threshold (entry_size b e) ≡ false
      → (get b key policy (put b key e write t)).0 ≡ ok (hit e CacheTier.l1)
  get-put_within small =
      let l1 : (put b key e write t).l1 ≡ some (l1_put b.lru key e c) =
        put_l1 b key write t c e on there ∙ rw small in
      ap (λ r. r.0)
        (get_l1_hit b key policy (put b key e write t) (l1_put b.lru key e c) e h l1
          (unfold l1_get l1_put in laws.lru key e c.inner))

  -- With an LRU and a moka cache that return what was just written, an L1, an L2, and policies that
  -- write and read, an entry over the size limit of a key that L1 lacks is found in L2 by the first
  -- read after its `put`, and in L1 by the second: the promotion does not look at the size.
  get-put_oversized :
      (c₂ : L2Cache K)
      → t.l2 ≡ some c₂
      → (l1_get b.lru key c).0 ≡ none
      → ltb l1_demotion_threshold (entry_size b e) ≡ true
      → ((get b key policy (put b key e write t)).0 ≡ ok (hit e CacheTier.l2))
        × ((get b key policy (get b key policy (put b key e write t)).1).0
            ≡ ok (hit (record e { source_tier = CacheTier.l2 }) CacheTier.l1))
  get-put_oversized c₂ there₂ absent large =
      let kept : (put b key e write t).l1 ≡ some c = put_l1 b key write t c e on there ∙ rw large in
      let first =
        get_l2_hit b key policy (put b key e write t) c (l2_put b.moka key e c₂) e h kept
          (put_l2 b key write t c₂ e on there₂) absent
          (unfold l2_get l2_put in laws.moka key e c₂.inner) in
      let c' = l1_put b.lru key (record e { source_tier = CacheTier.l2 }) (l1_get b.lru key c).1 in
      let promoted : (get b key policy (put b key e write t)).1.l1 ≡ some c' =
        ap (λ r. r.1.l1) first in
      (
        ap (λ r. r.0) first,
        ap (λ r. r.0)
            (get_l1_hit b key policy (get b key policy (put b key e write t)).1 c'
              (record e { source_tier = CacheTier.l2 }) h promoted
              (unfold l1_get l1_put in laws.lru key _ (l1_get b.lru key c).1.inner)),
      )
