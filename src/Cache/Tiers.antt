-- ===== src/Cache/Tiers.antt =====
-- crates/themql-cache/src/lib.rs: `L1Cache`, `L2Cache` and `L3Cache`. The crates `lru`, `moka` and
-- `redis`, and the JSON text of an entry, are parameters; a lock is never poisoned here.
use the_mql.Base.{
  ℕ, ◌/◌, Bool, not, Option, none, some, List, [], ◌∷◌, ◌++◌, Result, map_err, if◌then◌else◌, max,
  filter_by,
}
use the_mql.Base.Effects.{M, return, ◌>>=◌, ◌>>◌}
use the_mql.Base.Text.{Text, codes, text_eq}
use the_mql.Cache.{
  CacheEntry, CacheError, tier_unavailable, deserialization_error, serialization_error,
}
use the_mql.Core.Context.{CacheTier, Duration}
use the_mql.QueryEngine.Key.{CacheKey, hex_encode}

-- `lru::LruCache<CacheKey, CacheEntry>`: a read moves the entry to the front.
pub record Lru (J L : Type 0) : Type 0 where
  pub new : ℕ → L
  pub get : CacheKey → L → Option (CacheEntry J) × L
  pub put : CacheKey → CacheEntry J → L → L
  pub pop : CacheKey → L → Option (CacheEntry J) × L
  pub clear : L → L
  pub keys : L → List CacheKey

-- `moka::sync::Cache<CacheKey, CacheEntry>`
pub record Moka (J K : Type 0) : Type 0 where
  pub new : ℕ → K
  pub get : CacheKey → K → Option (CacheEntry J) × K
  pub insert : CacheKey → CacheEntry J → K → K
  pub invalidate : CacheKey → K → K
  pub invalidate_all : K → K
  pub keys : K → List CacheKey

-- A redis connection and the commands that are sent; which error is reported is not looked at.
pub record Redis (R : Type 0) : Type 0 where
  pub connect : M R (Unit {0}) (Unit {0})
  pub get : Text → M R (Unit {0}) (Option Text)
  pub setex : Text → ℕ → Text → M R (Unit {0}) (Unit {0})
  pub set : Text → Text → M R (Unit {0}) (Unit {0})
  pub del : Text → M R (Unit {0}) (Unit {0})

-- `serde_json::to_string` and `from_str` of an entry; an error is its text.
pub record EntryJson (J : Type 0) : Type 0 where
  pub to_string : CacheEntry J → Result Text Text
  pub from_str : Text → Result Text (CacheEntry J)

-- The derived `==` of `CacheKey`.
unfoldable pub key_eq : CacheKey → CacheKey → Bool
unfolding text_eq
key_eq a b = text_eq a.hash b.hash

-- The index from keys to subjects, a `HashMap` of which only entries are read.
abbrev pub Index : Type 0
Index = List (CacheKey × Text)

unfoldable pub index_remove : CacheKey → Index → Index
unfolding key_eq
index_remove key index = filter_by (λ e. not (key_eq e.0 key)) index

unfoldable pub index_insert : CacheKey → Text → Index → Index
unfolding index_remove
index_insert key subject index = (key, subject) ∷ index_remove key index

unfoldable pub index_get : CacheKey → Index → Option Text
unfolding key_eq
index_get key [] = none
index_get key ((k, s) ∷ index) = if key_eq k key then some s else index_get key index

pub record L1Cache (L : Type 0) : Type 0 where
  pub inner : L
  pub key_index : Index

module _ {J L : Type 0} (lru : Lru J L) where
  -- `L1Cache::new`
  unfoldable pub l1_new : ℕ → L1Cache L
  l1_new capacity = record { inner = lru.new (max capacity 1); key_index = [] }

  -- `L1Cache::get`
  unfoldable pub l1_get : CacheKey → L1Cache L → Option (CacheEntry J) × L1Cache L
  l1_get key c = ((lru.get key c.inner).0, record c { inner = (lru.get key c.inner).1 })

  -- `L1Cache::put`, which leaves the index as it is.
  unfoldable pub l1_put : CacheKey → CacheEntry J → L1Cache L → L1Cache L
  l1_put key entry c = record c { inner = lru.put key entry c.inner }

  -- `L1Cache::put_with_subject`
  unfoldable pub l1_put_with_subject : CacheKey → CacheEntry J → Text → L1Cache L → L1Cache L
  unfolding index_insert
  l1_put_with_subject key entry subject c = record {
    inner = lru.put key entry c.inner;
    key_index = index_insert key subject c.key_index;
  }

  -- `L1Cache::invalidate`
  unfoldable pub l1_invalidate : CacheKey → L1Cache L → Option (CacheEntry J) × L1Cache L
  unfolding index_remove
  l1_invalidate key c = (
    (lru.pop key c.inner).0,
    record { inner = (lru.pop key c.inner).1; key_index = index_remove key c.key_index },
  )

  -- `L1Cache::invalidate_all`
  unfoldable pub l1_invalidate_all : L1Cache L → L1Cache L
  l1_invalidate_all c = record { inner = lru.clear c.inner; key_index = [] }

pub record L2Cache (K : Type 0) : Type 0 where
  pub inner : K
  pub key_index : Index

module _ {J K : Type 0} (moka : Moka J K) where
  -- `L2Cache::new`; a `usize` fits in a `u64`.
  unfoldable pub l2_new : ℕ → L2Cache K
  l2_new capacity = record { inner = moka.new capacity; key_index = [] }

  unfoldable pub l2_get : CacheKey → L2Cache K → Option (CacheEntry J) × L2Cache K
  l2_get key c = ((moka.get key c.inner).0, record c { inner = (moka.get key c.inner).1 })

  unfoldable pub l2_put : CacheKey → CacheEntry J → L2Cache K → L2Cache K
  l2_put key entry c = record c { inner = moka.insert key entry c.inner }

  unfoldable pub l2_put_with_subject : CacheKey → CacheEntry J → Text → L2Cache K → L2Cache K
  unfolding index_insert
  l2_put_with_subject key entry subject c = record {
    inner = moka.insert key entry c.inner;
    key_index = index_insert key subject c.key_index;
  }

  unfoldable pub l2_invalidate : CacheKey → L2Cache K → L2Cache K
  unfolding index_remove
  l2_invalidate key c = record {
    inner = moka.invalidate key c.inner;
    key_index = index_remove key c.key_index;
  }

  unfoldable pub l2_invalidate_all : L2Cache K → L2Cache K
  l2_invalidate_all c = record { inner = moka.invalidate_all c.inner; key_index = [] }

-- `L3Cache::redis_key`, and the text of `storage_key_for`.
unfoldable pub prefixed_key : CacheKey → Text
unfolding hex_encode
prefixed_key key = codes "cache:" ++ hex_encode key.hash

-- A redis error becomes `TierUnavailable(L3)`.
abbrev pub at_l3 : {R A : Type 0} → M R (Unit {0}) A → M R CacheError A
at_l3 m r = (map_err (λ _. tier_unavailable CacheTier.l3) (m r).0, (m r).1)

-- The `match ttl` of `L3Cache::put`; a TTL below a second counts as one.
unfoldable pub l3_store :
    {R : Type 0} → Redis R → Text → Text → Option Duration → M R CacheError (Unit {0})
l3_store redis rk s none = at_l3 (redis.set rk s)
l3_store redis rk s (some d) = at_l3 (redis.setex rk (max (d / 1_000_000_000) 1) s)

module _ {J R : Type 0} (redis : Redis R) (json : EntryJson J) where
  -- The `match val` of `L3Cache::get`.
  unfoldable pub l3_decode : Option Text → M R CacheError (Option (CacheEntry J))
  l3_decode none = return none
  l3_decode (some s) = do
    entry ← λ r. (map_err deserialization_error (json.from_str s), r)
    return (some entry)

  -- `L3Cache::get`
  unfoldable pub l3_get : CacheKey → M R CacheError (Option (CacheEntry J))
  unfolding l3_decode
  l3_get key = do at_l3 redis.connect; val ← at_l3 (redis.get (prefixed_key key)); l3_decode val

  -- `L3Cache::put`: the entry is serialised before the connection is made.
  unfoldable pub l3_put : CacheKey → CacheEntry J → Option Duration → M R CacheError (Unit {0})
  unfolding l3_store
  l3_put key entry ttl = do
    s ← λ r. (map_err serialization_error (json.to_string entry), r)
    at_l3 redis.connect
    l3_store redis (prefixed_key key) s ttl

-- `L3Cache::invalidate`
unfoldable pub l3_invalidate : {R : Type 0} → Redis R → CacheKey → M R CacheError (Unit {0})
l3_invalidate redis key = do at_l3 redis.connect; at_l3 (redis.del (prefixed_key key))
