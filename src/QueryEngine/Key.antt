-- ===== src/QueryEngine/Key.antt =====
-- crates/themql-query/src/lib.rs: `CacheKey` and `DefaultCacheKeyer`. `blake3` and the JSON texts of
-- `serde_json`, as bytes, are parameters; `none` is a failure of `to_string`.
use the_mql.Base.{
  ℕ, ◌/◌, ◌%◌, Option, none, some, List, [], ◌∷◌, ◌++◌, ◌≡◌, refl, ◌≢◌, ◌↔◌, arith, ap, All, sym,
  length, get_or, ◌+◌, ◌*◌,
}
use the_mql.Base.Text.{Text, codes, as_bytes}
use the_mql.Core.Query.{Selection, Query}
use the_mql.Core.Subject.{subject_text}
pub mod Material

pub record CacheKey : Type 0 where
  pub hash : List ℕ

-- What `blake3` and `serde_json` compute.
pub record Encoding (J : Type 0) : Type 0 where
  pub blake3 : List ℕ → List ℕ
  pub selection_json : Selection J → Option (List ℕ)
  pub value_json : J → Option (List ℕ)

-- `unwrap_or_default`
abbrev pub or_default : Option (List ℕ) → List ℕ
or_default none = []
or_default (some bytes) = bytes

module _ {J : Type 0} (enc : Encoding J) where
  -- `query.arguments.as_ref().map(…).unwrap_or_default()`
  unfoldable pub arguments_json : Option J → List ℕ
  arguments_json none = []
  arguments_json (some v) = or_default (enc.value_json v)

module _ {J U : Type 0} (enc : Encoding J) where
  -- What the hasher is fed: the three parts, with a zero byte between them.
  unfoldable pub key_material : Query J U → List ℕ
  unfolding arguments_json
  key_material query =
      as_bytes (subject_text query.resource.subject)
      ++ (0
          ∷ (or_default (enc.selection_json query.selection)
              ++ (0 ∷ arguments_json enc query.arguments)))

  -- `DefaultCacheKeyer::key`
  unfoldable pub key : Query J U → CacheKey
  unfolding key_material
  key query = record { hash = enc.blake3 (key_material query) }

-- The character of a digit in `b"0123456789abcdef"`.
unfoldable pub hex_digit : ℕ → ℕ
hex_digit d = get_or (codes "0123456789abcdef") d 0

-- `Display for CacheKey`, which is also `hex_encode` of crates/themql-cache/src/lib.rs.
unfoldable pub hex_encode : List ℕ → Text
unfolding hex_digit
hex_encode [] = []
hex_encode (b ∷ bytes) = hex_digit (b / 16) ∷ hex_digit (b % 16) ∷ hex_encode bytes
