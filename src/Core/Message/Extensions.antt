-- ===== src/Core/Message/Extensions.antt =====
-- crates/themql-core/src/lib.rs: the extension keys of `Metadata`, a `BTreeMap` for the sake of a
-- deterministic order.
use the_mql.Base.{
  true, false, some, List, [], ◌∷◌, ◌≡◌, refl, sym, ap, ◌≢◌, ◌⊎◌, inl, inr, arith, if◌then◌else◌,
}
use the_mql.Base.Text.{Text, text_eq, text_eq_iff}
use the_mql.Core.Message.{text_lt, insert, lookup, Metadata, with_extension}

text_lt_irrefl : (s : Text) → text_lt s s ≡ false
unfolding text_lt
text_lt_irrefl [] = refl
text_lt_irrefl (c ∷ s) = ground (arith, text_lt_irrefl s)

text_lt_trans : (s t u : Text) → text_lt s t ≡ true → text_lt t u ≡ true → text_lt s u ≡ true
unfolding text_lt
text_lt_trans s t [] h k = cc
text_lt_trans s [] (c ∷ u) h k = cc
text_lt_trans [] (b ∷ t) (c ∷ u) h k = refl
text_lt_trans (a ∷ s) (b ∷ t) (c ∷ u) h k = ground (arith, text_lt_trans s t u)

text_lt_total : (s t : Text) → text_lt s t ≡ false → text_lt t s ≡ false → s ≡ t
unfolding text_lt
text_lt_total [] [] h k = refl
text_lt_total [] (d ∷ t) h k = cc
text_lt_total (c ∷ s) [] h k = cc
text_lt_total (c ∷ s) (d ∷ t) h k = ground (arith, text_lt_total s t)

-- The two orders of two different keys.
text_order :
    (s t : Text)
    → s ≢ t
    → ((text_lt s t ≡ true) × (text_lt t s ≡ false))
      ⊎ ((text_lt t s ≡ true) × (text_lt s t ≡ false))
text_order s t n = ground (arith, text_lt_trans s t s, text_lt_irrefl s, text_lt_total s t)

module _ {V : Type 0} where
  pub lookup-insert :
      (key j : Text) (value : V) (entries : List (Text × V))
      → lookup j (insert key value entries)
        ≡ (if text_eq j key then some value else lookup j entries)
  unfolding lookup insert
  lookup-insert key j value [] = refl
  lookup-insert key j value ((k, v) ∷ entries) = ground (
    arith,
    text_eq_iff key k,
    text_eq_iff j k,
    text_eq_iff j key,
    lookup-insert key j value entries,
  )

  insert_comm :
      (a b : Text) (v w : V) (entries : List (Text × V))
      → text_lt a b ≡ true
      → insert b w (insert a v entries) ≡ insert a v (insert b w entries)
  unfolding insert
  insert_comm a b v w [] h = ground (arith, text_lt_irrefl a, text_lt_trans a b a, text_eq_iff b a)
  insert_comm a b v w ((k, x) ∷ entries) h = ground (
    arith,
    text_lt_irrefl a,
    text_lt_irrefl b,
    text_lt_trans a b a,
    text_lt_trans a b k,
    text_lt_trans k a b,
    text_eq_iff a b,
    text_eq_iff b a,
    text_eq_iff a k,
    text_eq_iff b k,
    text_lt_total a k,
    insert_comm a b v w entries h,
  )

-- Reading an extension after one was set: the new value under its key, and every other key as before.
pub lookup-with_extension :
    {J U : Type 0} (m : Metadata J U) (key j : Text) (value : J)
    → lookup j (with_extension m key value).extensions
      ≡ (if text_eq j key then some value else lookup j m.extensions)
unfolding with_extension
lookup-with_extension m key j value = lookup-insert key j value m.extensions

-- Two extensions under different keys give one metadata value, whichever was set first.
pub with_extension_comm :
    {J U : Type 0} (m : Metadata J U) (a b : Text) (v w : J)
    → a ≢ b
    → with_extension (with_extension m a v) b w ≡ with_extension (with_extension m b w) a v
unfolding with_extension
with_extension_comm m a b v w n = elim (text_order a b n) [
  | inl h ↦ ap (λ e. record m { extensions = e }) (insert_comm a b v w m.extensions h.0)
  | inr h ↦ ap (λ e. record m { extensions = e }) (sym (insert_comm b a w v m.extensions h.0))
]
