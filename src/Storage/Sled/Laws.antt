-- ===== src/Storage/Sled/Laws.antt =====
-- crates/themql-storage/src/lib.rs: what can be read back from a `SledStorage`.
use the_mql.Base.{ℕ, none, some, List, ok, ◌≡◌, ◌≢◌, inl, inr, arith, Result-cases}
use the_mql.Storage.{StorageKey, StorageValue}
use the_mql.Storage.Sled.{SledDb, Bincode, get, put, delete}

-- What `sled` documents of an insertion and of a removal that succeeded.
pub record SledLaws {D : Type 0} (db : SledDb D) : Type 0 where
  pub get-insert :
      (d : D) (k v : List ℕ)
      → (db.insert d k v).0 ≡ ok tt
      → db.get (db.insert d k v).1 k ≡ ok (some v)
  pub get-insert_ne :
      (d : D) (k j v : List ℕ)
      → k ≢ j
      → (db.insert d k v).0 ≡ ok tt
      → db.get (db.insert d k v).1 j ≡ db.get d j
  pub get-remove :
      (d : D) (k : List ℕ) → (db.remove d k).0 ≡ ok tt → db.get (db.remove d k).1 k ≡ ok none

-- What `bincode` documents: decoding undoes encoding.
pub record BincodeLaws (codec : Bincode) : Type 0 where
  pub key_back :
      (k : StorageKey) (b : List ℕ) → codec.serialize_key k ≡ ok b → codec.deserialize_key b ≡ ok k
  pub value_back :
      (v : StorageValue) (b : List ℕ)
      → codec.serialize_value v ≡ ok b
      → codec.deserialize_value b ≡ ok v

module _ {D : Type 0} (db : SledDb D) (codec : Bincode) (laws : SledLaws db)
    (back : BincodeLaws codec) (key : StorageKey) (d : D) where
  -- A `put` that returned success is an insertion that succeeded.
  put_parts :
      (value : StorageValue)
      → (put db codec key value d).0 ≡ ok tt
      → (kb vb : List ℕ) × (codec.serialize_key key ≡ ok kb)
        × (codec.serialize_value value ≡ ok vb)
        × ((db.insert d kb vb).0 ≡ ok tt)
        × ((put db codec key value d).1 ≡ (db.insert d kb vb).1)
  unfolding put
  put_parts value h = elim (Result-cases (codec.serialize_key key)) [
    | inr (e, k) ↦ absurd (ground arith)
    | inl (kb, k) ↦ elim (Result-cases (codec.serialize_value value)) [
      | inr (e, v) ↦ absurd (ground arith)
      | inl (vb, v) ↦ (kb, vb, k, v, ground arith, ground arith)
    ]
  ]

  delete_parts :
      (delete db codec key d).0 ≡ ok tt
      → (kb : List ℕ) × (codec.serialize_key key ≡ ok kb)
        × ((db.remove d kb).0 ≡ ok tt)
        × ((delete db codec key d).1 ≡ (db.remove d kb).1)
  unfolding delete
  delete_parts h = elim (Result-cases (codec.serialize_key key)) [
    | inr (e, k) ↦ absurd (ground arith)
    | inl (kb, k) ↦ (kb, k, ground arith, ground arith)
  ]

  -- With the laws of sled and bincode, after a `put` that returned success, `get` at its key returns
  -- the value.
  pub get-put :
      (value : StorageValue)
      → (put db codec key value d).0 ≡ ok tt
      → (get db codec key (put db codec key value d).1).0 ≡ ok (some value)
  unfolding get
  get-put value h =
      let (kb, vb, k, v, done, e) = put_parts value h in
      rw (e, k, laws.get-insert d kb vb done, back.value_back value vb v)

  -- With the laws of sled and bincode, after a `put` that returned success, `get` at any other key
  -- returns what it did before.
  get-put_ne :
      (value : StorageValue) (other : StorageKey)
      → other ≢ key
      → (put db codec key value d).0 ≡ ok tt
      → (get db codec other (put db codec key value d).1).0 ≡ (get db codec other d).0
  unfolding get
  get-put_ne value other n h =
      let (kb, vb, k, v, done, e) = put_parts value h in
      elim (Result-cases (codec.serialize_key other)) [
        | inr (x, o) ↦ rw o
        | inl (ob, o) ↦
            let apart : kb ≢ ob = λ same. n (keys_apart kb ob k o same) in
            rw (e, o, laws.get-insert_ne d kb ob vb apart done) (ground arith)
      ]
    where
      keys_apart :
          (kb ob : List ℕ)
          → codec.serialize_key key ≡ ok kb
          → codec.serialize_key other ≡ ok ob
          → kb ≡ ob
          → other ≡ key
      keys_apart kb ob k o same = cc (back.key_back key kb k, back.key_back other ob o, same)

  -- With the laws of sled and bincode, after a `delete` that returned success, `get` at its key finds
  -- nothing.
  pub get-delete :
      (delete db codec key d).0 ≡ ok tt → (get db codec key (delete db codec key d).1).0 ≡ ok none
  unfolding get
  get-delete h = let (kb, k, done, e) = delete_parts h in rw (e, k, laws.get-remove d kb done)
