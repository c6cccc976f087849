-- ===== src/Cache/Unindexed.antt =====
-- crates/themql-cache/src/lib.rs: the trait `Cache` has no operation that records the subject of a key,
-- so a `TieredCache` that is used through it has nothing for `invalidate_pattern` to find.
use the_mql.Base.{
  ℕ, Option, none, some, List, [], ◌∷◌, Result, ok, err, ◌≡◌, refl, arith, ap, sym, subst,
  Bool-cases, inl, inr,
}
use the_mql.Base.Effects.{M, return, continue, ◌>>=◌}
use the_mql.Cache.{CacheEntry, CacheHit, miss, CacheError}
use the_mql.Cache.Tiered.{
  Backends, TieredCache, map_tier, promote, read_l1, read_l2, read_l3, read_l4, found_at,
  get_from_l2, get_from_l3, get_from_l4, get_inner, get,
}
use the_mql.Cache.Tiers.{
  Index, index_get, L1Cache, l1_get, l1_put, l1_invalidate, l1_new, L2Cache, l2_get, l2_put,
  l2_invalidate, l2_new, Lru, Moka,
}
use the_mql.Cache.Writes.{sweep_l1, sweep_l2, put, invalidate, invalidate_pattern}
use the_mql.Core.Context.{CacheTier, CachePolicy}
use the_mql.Core.Pattern.{SubjectPattern}
use the_mql.QueryEngine.Key.{CacheKey}

abbrev pub index₁ : {L : Type 0} → Option (L1Cache L) → Index
index₁ none = []
index₁ (some c) = c.key_index

abbrev pub index₂ : {K : Type 0} → Option (L2Cache K) → Index
index₂ none = []
index₂ (some c) = c.key_index

-- Neither local tier has a subject on record.
abbrev pub IsUnindexed : {L K R W : Type 0} → TieredCache L K R W → Type 0
IsUnindexed t = (index₁ t.l1 ≡ []) × (index₂ t.l2 ≡ [])

module _ {J L K R W : Type 0} (b : Backends J L K R W) where
  promote-IsUnindexed :
      (key : CacheKey) (e : CacheEntry J) (tier : CacheTier) (t : TieredCache L K R W)
      → IsUnindexed t
      → IsUnindexed (promote b key e tier t)
  unfolding promote l1_put l2_put
  promote-IsUnindexed key e CacheTier.l1 t h = h
  promote-IsUnindexed key e CacheTier.l2 t h = ground arith
  promote-IsUnindexed key e CacheTier.l3 t h = ground arith
  promote-IsUnindexed key e CacheTier.l4 t h = ground arith

  read_l1-IsUnindexed :
      (key : CacheKey) (t : TieredCache L K R W) → IsUnindexed t → IsUnindexed (read_l1 b key t).1
  unfolding read_l1 l1_get
  read_l1-IsUnindexed key t h = ground arith

  read_l2-IsUnindexed :
      (key : CacheKey) (t : TieredCache L K R W) → IsUnindexed t → IsUnindexed (read_l2 b key t).1
  unfolding read_l2 l2_get
  read_l2-IsUnindexed key t h = ground arith

  read_l3-IsUnindexed :
      (key : CacheKey) (t : TieredCache L K R W) → IsUnindexed t → IsUnindexed (read_l3 b key t).1
  unfolding read_l3
  read_l3-IsUnindexed key t h = ground arith

  read_l4-IsUnindexed :
      (key : CacheKey) (t : TieredCache L K R W) → IsUnindexed t → IsUnindexed (read_l4 b key t).1
  unfolding read_l4
  read_l4-IsUnindexed key t h = h

  -- One tier of the walk keeps the property if the rest of it does.
  found_at-IsUnindexed :
      (tier : CacheTier) (key : CacheKey) (next : M (TieredCache L K R W) CacheError (CacheHit J))
      (read : M (TieredCache L K R W) CacheError (Option (CacheEntry J))) (t : TieredCache L K R W)
      → IsUnindexed (read t).1
      → ((u : TieredCache L K R W) → IsUnindexed u → IsUnindexed (next u).1)
      → IsUnindexed ((read >>= found_at b tier key next) t).1
  found_at-IsUnindexed tier key next read t h rest = outcome (read t).0 (read t).1 h
    where
      outcome :
          (r : Result CacheError (Option (CacheEntry J))) (u : TieredCache L K R W)
          → IsUnindexed u
          → IsUnindexed (continue (found_at b tier key next) r u).1
      outcome (ok (some e)) u g = promote-IsUnindexed key e tier u g
      outcome (ok none) u g = rest u g
      outcome (err e) u g = g

  get_inner-IsUnindexed :
      (key : CacheKey) (t : TieredCache L K R W) → IsUnindexed t → IsUnindexed (get_inner b key t).1
  unfolding get_inner
  get_inner-IsUnindexed key t h =
      found_at-IsUnindexed CacheTier.l1 key (get_from_l2 b key) (read_l1 b key) t
        (read_l1-IsUnindexed key t h)
        λ t h.
          found_at-IsUnindexed CacheTier.l2 key (get_from_l3 b key) (read_l2 b key) t
            (read_l2-IsUnindexed key t h)
            λ t h.
              found_at-IsUnindexed CacheTier.l3 key (get_from_l4 b key) (read_l3 b key) t
                (read_l3-IsUnindexed key t h)
                λ t h.
                  found_at-IsUnindexed CacheTier.l4 key (return miss) (read_l4 b key) t
                    (read_l4-IsUnindexed key t h) (λ t h. h)

  get-IsUnindexed :
      (key : CacheKey) (policy : CachePolicy) (t : TieredCache L K R W)
      → IsUnindexed t
      → IsUnindexed (get b key policy t).1
  unfolding get
  get-IsUnindexed key policy t h = elim (Bool-cases policy.enabled) [
    | inr off ↦ rw off h
    | inl on ↦ elim (Bool-cases policy.bypass) [
      | inl around ↦ rw (on, around) h
      | inr through ↦ rw (on, through) (get_inner-IsUnindexed key t h)
    ]
  ]

  put-IsUnindexed :
      (key : CacheKey) (e : CacheEntry J) (policy : CachePolicy) (t : TieredCache L K R W)
      → IsUnindexed t
      → IsUnindexed (put b key e policy t)
  unfolding put l1_put l2_put
  put-IsUnindexed key e policy t h = ground arith

  invalidate-IsUnindexed :
      (key : CacheKey) (t : TieredCache L K R W) → IsUnindexed t → IsUnindexed (invalidate b key t)
  unfolding invalidate l1_invalidate l2_invalidate
  invalidate-IsUnindexed key t h = ground arith

sweep_l1_unindexed :
    {J L : Type 0} (lru : Lru J L) (pattern : SubjectPattern) (keys : List CacheKey) (c : L1Cache L)
    → c.key_index ≡ []
    → sweep_l1 lru pattern keys c ≡ c
unfolding sweep_l1 index_get
sweep_l1_unindexed lru pattern [] c h = refl
sweep_l1_unindexed lru pattern (k ∷ keys) c h =
    ground (arith, sweep_l1_unindexed lru pattern keys c h)

sweep_l2_unindexed :
    {J K : Type 0} (moka : Moka J K) (pattern : SubjectPattern) (keys : List CacheKey)
    (c : L2Cache K)
    → c.key_index ≡ []
    → sweep_l2 moka pattern keys c ≡ c
unfolding sweep_l2 index_get
sweep_l2_unindexed moka pattern [] c h = refl
sweep_l2_unindexed moka pattern (k ∷ keys) c h =
    ground (arith, sweep_l2_unindexed moka pattern keys c h)

module _ {J L K R W : Type 0} (b : Backends J L K R W) where
  pub invalidate_pattern_unindexed :
      (pattern : SubjectPattern) (t : TieredCache L K R W)
      → IsUnindexed t
      → invalidate_pattern b pattern t ≡ t
  unfolding invalidate_pattern
  invalidate_pattern_unindexed pattern t h =
      λ i. record t { l1 = swept₁ t.l1 h.0 i; l2 = swept₂ t.l2 h.1 i }
    where
      swept₁ :
          (o : Option (L1Cache L))
          → index₁ o ≡ []
          → map_tier (λ c. sweep_l1 b.lru pattern (b.lru.keys c.inner) c) o ≡ o
      swept₁ none g = refl
      swept₁ (some c) g = ap some (sweep_l1_unindexed b.lru pattern (b.lru.keys c.inner) c g)

      swept₂ :
          (o : Option (L2Cache K))
          → index₂ o ≡ []
          → map_tier (λ c. sweep_l2 b.moka pattern (b.moka.keys c.inner) c) o ≡ o
      swept₂ none g = refl
      swept₂ (some c) g = ap some (sweep_l2_unindexed b.moka pattern (b.moka.keys c.inner) c g)

-- The calls of the trait `Cache`.
pub data Step {J L K R W : Type 0} (b : Backends J L K R W) (t : TieredCache L K R W)
    : TieredCache L K R W → Type 0 where
  got : (key : CacheKey) (policy : CachePolicy) → Step b t (get b key policy t).1
  wrote :
      (key : CacheKey) (e : CacheEntry J) (policy : CachePolicy) → Step b t (put b key e policy t)
  dropped : (key : CacheKey) → Step b t (invalidate b key t)
  swept : (pattern : SubjectPattern) → Step b t (invalidate_pattern b pattern t)

pub data Reach {J L K R W : Type 0} (b : Backends J L K R W) (s : TieredCache L K R W)
    : TieredCache L K R W → Type 0 where
  here : Reach b s s
  next : {t u : TieredCache L K R W} → Reach b s t → Step b t u → Reach b s u

Step-IsUnindexed :
    {J L K R W : Type 0} {b : Backends J L K R W} {t u : TieredCache L K R W}
    → Step b t u
    → IsUnindexed t
    → IsUnindexed u
Step-IsUnindexed {b} {t} (got key policy) h = get-IsUnindexed b key policy t h
Step-IsUnindexed {b} {t} (wrote key e policy) h = put-IsUnindexed b key e policy t h
Step-IsUnindexed {b} {t} (dropped key) h = invalidate-IsUnindexed b key t h
Step-IsUnindexed {b} {t} (swept pattern) h =
    subst IsUnindexed (sym (invalidate_pattern_unindexed b pattern t h)) h

Reach-IsUnindexed :
    {J L K R W : Type 0} {b : Backends J L K R W} {s t : TieredCache L K R W}
    → IsUnindexed s
    → Reach b s t
    → IsUnindexed t
Reach-IsUnindexed h here = h
Reach-IsUnindexed h (next r st) = Step-IsUnindexed st (Reach-IsUnindexed h r)

-- In every state that calls of the trait `Cache` lead to from a cache of new tiers,
-- `invalidate_pattern` changes nothing: no entry leaves any tier, whatever the pattern.
pub invalidate_pattern_idle :
    {J L K R W : Type 0} (b : Backends J L K R W) (pattern : SubjectPattern) (m n : ℕ)
    (l3 : Option R) (l4 : W) {t : TieredCache L K R W}
    → Reach b
        (record { l1 = some (l1_new b.lru m); l2 = some (l2_new b.moka n); l3 = l3; l4 = l4 })
        t
    → invalidate_pattern b pattern t ≡ t
unfolding l1_new l2_new
invalidate_pattern_idle b pattern m n l3 l4 {t} r =
    invalidate_pattern_unindexed b pattern t (Reach-IsUnindexed (refl, refl) r)
