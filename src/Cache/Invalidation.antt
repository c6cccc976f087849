-- ===== src/Cache/Invalidation.antt =====
-- crates/themql-cache/src/lib.rs: which entries the invalidations of `TieredCache` remove.
use the_mql.Base.{
  true, false, ◌&&◌, none, some, List, [], ◌∷◌, if◌then◌else◌, ◌≡◌, refl, arith, ap, any,
  Bool-cases, inl, inr, ◌↔◌,
}
use the_mql.Base.Text.{text_eq_iff}
use the_mql.Cache.Tiered.{Backends, TieredCache}
use the_mql.Cache.Tiers.{
  Lru, Index, index_get, index_remove, key_eq, L1Cache, l1_get, l1_invalidate,
}
use the_mql.Cache.Writes.{subject_hit, sweep_l1, invalidate_pattern}
use the_mql.Core.Pattern.{SubjectPattern}
use the_mql.QueryEngine.Key.{CacheKey}

pub key_eq_iff : (j k : CacheKey) → (key_eq j k ≡ true) ↔ (j ≡ k)
unfolding key_eq
key_eq_iff j k = (
  λ h. ap (λ l. record { hash = l }) ((text_eq_iff j.hash k.hash).0 h),
  λ e. (text_eq_iff j.hash k.hash).1 (ap (λ c. c.hash) e),
)

index_get-remove :
    (j k : CacheKey) (index : Index)
    → index_get k (index_remove j index) ≡ (if key_eq j k then none else index_get k index)
unfolding index_get index_remove
index_get-remove j k [] = ground arith
index_get-remove j k ((i, s) ∷ index) =
    ground (arith, key_eq_iff i j, key_eq_iff i k, key_eq_iff j k, index_get-remove j k index)

-- What the crate `lru` documents: `pop` removes its key and no other, and the iteration shows every
-- key that is there.
pub record LruLaws {J L : Type 0} (lru : Lru J L) : Type 0 where
  pub get-pop :
      (j k : CacheKey) (l : L)
      → (lru.get k (lru.pop j l).1).0 ≡ (if key_eq j k then none else (lru.get k l).0)
  pub keys_complete :
      (k : CacheKey) (l : L) → any (λ j. key_eq j k) (lru.keys l) ≡ false → (lru.get k l).0 ≡ none

module _ {J L : Type 0} (lru : Lru J L) (laws : LruLaws lru) (pattern : SubjectPattern)
    (k : CacheKey) where
  -- One round of the sweep, at a key of which the subject is hit.
  l1_get-invalidate :
      (j : CacheKey) (c : L1Cache L)
      → (l1_get lru k (l1_invalidate lru j c).1).0
        ≡ (if key_eq j k then none else (l1_get lru k c).0)
  unfolding l1_get l1_invalidate
  l1_get-invalidate j c = laws.get-pop j k c.inner

  index-invalidate :
      (j : CacheKey) (c : L1Cache L)
      → index_get k (l1_invalidate lru j c).1.key_index
        ≡ (if key_eq j k then none else index_get k c.key_index)
  unfolding l1_invalidate
  index-invalidate j c = index_get-remove j k c.key_index

  l1_get-sweep :
      (keys : List CacheKey) (c : L1Cache L)
      → (l1_get lru k (sweep_l1 lru pattern keys c)).0 ≡ (
          if any (λ j. key_eq j k) keys && subject_hit pattern (index_get k c.key_index)
          then none
          else (l1_get lru k c).0)
  unfolding sweep_l1
  l1_get-sweep [] c = refl
  l1_get-sweep (j ∷ keys) c = elim (Bool-cases (subject_hit pattern (index_get j c.key_index))) [
    | inl h ↦ rw h (
        ground (
          arith,
          l1_get-sweep keys (l1_invalidate lru j c).1,
          l1_get-invalidate j c,
          index-invalidate j c,
          key_eq_iff j k,
        ))
    | inr h ↦ rw h (ground (arith, l1_get-sweep keys c, key_eq_iff j k))
  ]

-- With the laws of the LRU, after `invalidate_pattern` on a cache with an L1, a key is absent from L1
-- if the subject on record for it is one that the pattern matches, and every other key reads as before.
pub get-invalidate_pattern :
    {J L K R W : Type 0} (b : Backends J L K R W) (pattern : SubjectPattern) (k : CacheKey)
    (t : TieredCache L K R W) (c c' : L1Cache L)
    → LruLaws b.lru
    → t.l1 ≡ some c
    → (invalidate_pattern b pattern t).l1 ≡ some c'
    → (l1_get b.lru k c').0
      ≡ (if subject_hit pattern (index_get k c.key_index) then none else (l1_get b.lru k c).0)
unfolding invalidate_pattern
get-invalidate_pattern b pattern k t c c' laws there after =
    let swept = sweep_l1 b.lru pattern (b.lru.keys c.inner) c in
    let e' : some swept ≡ some c' = rw there at after in
    let e : swept ≡ c' = cc e' in
    let complete : any (λ j. key_eq j k) (b.lru.keys c.inner) ≡ false
        → (l1_get b.lru k c).0 ≡ none =
      unfold l1_get in laws.keys_complete k c.inner in
    rw (← e) (ground (arith, l1_get-sweep b.lru laws pattern k (b.lru.keys c.inner) c, complete))
