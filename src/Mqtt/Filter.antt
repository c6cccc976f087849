-- ===== src/Mqtt/Filter.antt =====
-- crates/themql-mqtt/src/lib.rs: `matches_filter`, and the search for a subscription.
use the_mql.Base.{
  ℕ, Bool, true, false, not, ◌&&◌, ◌||◌, Option, none, some, List, [], ◌∷◌, is_empty, if◌then◌else◌,
  ◌≡◌, refl, sym, subst, ◌↔◌, inl, inr, arith, Bool-cases,
}
use the_mql.Base.Text.{Text, codes, text_eq, text_eq_iff, text_eq_refl, split}
use the_mql.Mqtt.Transport.{IdMap, id_get}

-- The loop of `matches_filter`: the levels of the filter and of the topic that are left.
unfoldable pub levels_match : List Text → List Text → Bool
levels_match [] topic = is_empty topic
levels_match (fp ∷ filter) [] = text_eq fp (codes "#")
levels_match (fp ∷ filter) (part ∷ topic) =
    let rest = levels_match filter topic in
    if text_eq fp (codes "#")
    then true
    else if not (text_eq fp (codes "+")) && not (text_eq fp part)
    then false
    else rest

unfoldable pub matches_filter : Text → Text → Bool
unfolding levels_match
matches_filter filter topic = levels_match (split filter b'/') (split topic b'/')

unfoldable pub contains_key : {H : Type 0} → ℕ → IdMap H → Bool
unfolding id_get
contains_key id handlers = elim (id_get id handlers) [ none ↦ false | some _ ↦ true ]

-- `matching_subscription`; the map is searched in the order of the list.
unfoldable pub matching_subscription : {H : Type 0} → Text → IdMap H → IdMap Text → Option ℕ
unfolding matches_filter contains_key
matching_subscription topic handlers [] = none
matching_subscription topic handlers ((id, filter) ∷ topics) =
    let rest = matching_subscription topic handlers topics in
    if (text_eq filter topic || matches_filter filter topic) && contains_key id handlers
    then some id
    else rest

-- What the levels of a filter cover: `+` any one level, `#` whatever is left, whatever follows it.
pub data Covers : List Text → List Text → Type 0 where
  done : Covers [] []
  same :
      {part : Text} {filter topic : List Text}
      → Covers filter topic
      → Covers (part ∷ filter) (part ∷ topic)
  one :
      {part : Text} {filter topic : List Text}
      → Covers filter topic
      → Covers (codes "+" ∷ filter) (part ∷ topic)
  rest : {filter topic : List Text} → Covers (codes "#" ∷ filter) topic

hash_level :
    (fp : Text) (filter topic : List Text)
    → text_eq fp (codes "#") ≡ true
    → Covers (fp ∷ filter) topic
hash_level fp filter topic e =
    subst (λ p. Covers (p ∷ filter) topic) (sym ((text_eq_iff fp (codes "#")).0 e)) rest

plus_level :
    (fp part : Text) (filter topic : List Text)
    → text_eq fp (codes "+") ≡ true
    → Covers filter topic
    → Covers (fp ∷ filter) (part ∷ topic)
plus_level fp part filter topic e c =
    subst (λ p. Covers (p ∷ filter) (part ∷ topic)) (sym ((text_eq_iff fp (codes "+")).0 e)) (one c)

same_level :
    (fp part : Text) (filter topic : List Text)
    → text_eq fp part ≡ true
    → Covers filter topic
    → Covers (fp ∷ filter) (part ∷ topic)
same_level fp part filter topic e c =
    subst (λ p. Covers (p ∷ filter) (part ∷ topic)) (sym ((text_eq_iff fp part).0 e)) (same c)

levels_match-Covers :
    (filter topic : List Text) → levels_match filter topic ≡ true → Covers filter topic
unfolding levels_match
levels_match-Covers [] [] h = done
levels_match-Covers [] (part ∷ topic) h = cc
levels_match-Covers (fp ∷ filter) [] h = hash_level fp filter [] h
levels_match-Covers (fp ∷ filter) (part ∷ topic) h = elim (Bool-cases (text_eq fp (codes "#"))) [
  | inl e ↦ hash_level fp filter (part ∷ topic) e
  | inr n ↦ elim (Bool-cases (text_eq fp (codes "+"))) [
    | inl e ↦ plus_level fp part filter topic e (levels_match-Covers filter topic (ground arith))
    | inr m ↦
        same_level fp part filter topic (ground arith)
          (levels_match-Covers filter topic (ground arith))
  ]
]

Covers-levels_match :
    {filter topic : List Text} → Covers filter topic → levels_match filter topic ≡ true
unfolding levels_match text_eq
Covers-levels_match done = refl
Covers-levels_match (same {part} c) = ground (arith, text_eq_refl part, Covers-levels_match c)
Covers-levels_match (one c) = Covers-levels_match c
Covers-levels_match {topic = []} rest = refl
Covers-levels_match {topic = part ∷ topic} rest = refl

-- A filter matches a topic exactly if its levels, between slashes, cover those of the topic: a level
-- covers itself, `+` any one level and `#` all that are left, also where more follow the `#`.
pub matches_filter_iff :
    (filter topic : Text)
    → (matches_filter filter topic ≡ true) ↔ Covers (split filter b'/') (split topic b'/')
unfolding matches_filter
matches_filter_iff filter topic =
    (levels_match-Covers (split filter b'/') (split topic b'/'), Covers-levels_match)
