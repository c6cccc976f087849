-- ===== src/Mqtt/Dispatch.antt =====
-- crates/themql-mqtt/src/lib.rs: which handler an incoming message goes to.
use the_mql.Base.{
  ℕ, true, ◌&&◌, ◌||◌, Option, none, some, List, [], ◌∷◌, ok, err, ◌≡◌, subst, ◌∙◌, ap, ◌⊎◌, inl,
  inr, arith, Any, Bool-cases, Option-cases, Result-cases, &&_true,
}
use the_mql.Base.Text.{Text, text_eq, text_eq_iff, split}
use the_mql.Core.Message.{Message}
use the_mql.Mqtt.Filter.{
  Covers, matches_filter, matches_filter_iff, contains_key, matching_subscription,
}
use the_mql.Mqtt.Transport.{IdMap, id_get, MessageJson, decode_message, RumqttcTransport}

-- `dispatch`: the handler whose future is made and dropped, and the message it is given.
unfoldable pub dispatch :
    {J U C H : Type 0}
    → MessageJson J U
    → Text
    → List ℕ
    → RumqttcTransport C H
    → Option (H × Message J U)
dispatch json topic payload t = elim (decode_message json payload) [
  | err _ ↦ none
  | ok msg ↦ elim (matching_subscription topic t.handlers t.topic_index) [
    | none ↦ none
    | some id ↦ elim (id_get id t.handlers) [ none ↦ none | some handler ↦ some (handler, msg) ]
  ]
]

-- A filter on record is for a topic: it is that topic, or covers it.
abbrev pub Reaches : Text → Text → Type 0
Reaches filter topic = (filter ≡ topic) ⊎ Covers (split filter b'/') (split topic b'/')

module _ {H : Type 0} (handlers : IdMap H) (topic : Text) where
  reaches :
      (filter : Text)
      → (text_eq filter topic || matches_filter filter topic) ≡ true
      → Reaches filter topic
  reaches filter h = elim (Bool-cases (text_eq filter topic)) [
    | inl e ↦ inl ((text_eq_iff filter topic).0 e)
    | inr n ↦ inr ((matches_filter_iff filter topic).0 (ground arith))
  ]

  Reaches-true :
      (filter : Text)
      → Reaches filter topic
      → (text_eq filter topic || matches_filter filter topic) ≡ true
  Reaches-true filter (inl e) = rw ((text_eq_iff filter topic).1 e)
  Reaches-true filter (inr c) = elim (Bool-cases (text_eq filter topic)) [
    | inl e ↦ rw e
    | inr n ↦ rw (n, (matches_filter_iff filter topic).1 c)
  ]

  contains_key-eq-true :
      (id : ℕ) → contains_key id handlers ≡ true → (h : H) × (id_get id handlers ≡ some h)
  unfolding contains_key
  contains_key-eq-true id h = elim (Option-cases (id_get id handlers)) [
    | inl n ↦ absurd (cc (rw (contains_key, n) at h))
    | inr s ↦ s
  ]

  -- The subscription that is found is on record with a filter for the topic, and has a handler.
  found_sound :
      (topics : IdMap Text) (id : ℕ)
      → matching_subscription topic handlers topics ≡ some id
      → Any (λ (e : ℕ × Text). (e.0 ≡ id) × Reaches e.1 topic) topics
        × ((h : H) × (id_get id handlers ≡ some h))
  unfolding matching_subscription
  found_sound [] id h = cc
  found_sound ((j, filter) ∷ topics) id h =
      elim (Bool-cases
        ((text_eq filter topic || matches_filter filter topic) && contains_key j handlers)) [
          | inl e ↦
              let (m, k) =
                &&_true (text_eq filter topic || matches_filter filter topic)
                  (contains_key j handlers) e in
              let found : some j ≡ some id = rw e at h in
              let same : j ≡ id = cc found in
              (
                inl (same, reaches filter m),
                subst (λ i. (x : H) × (id_get i handlers ≡ some x)) same (contains_key-eq-true j k),
              )
          | inr n ↦ let (a, k) = found_sound topics id (rw n at h) in (inr a, k)
        ]

  -- If a filter on record is for the topic and has a handler, some subscription is found.
  found_complete :
      (topics : IdMap Text)
      → Any
          (λ (e : ℕ × Text). Reaches e.1 topic × ((h : H) × (id_get e.0 handlers ≡ some h)))
          topics
      → (id : ℕ) × (matching_subscription topic handlers topics ≡ some id)
  unfolding matching_subscription contains_key
  found_complete [] a = absurd a
  found_complete ((j, filter) ∷ topics) a =
      elim (Bool-cases
        ((text_eq filter topic || matches_filter filter topic) && contains_key j handlers)) [
          | inl e ↦ (j, rw e)
          | inr n ↦ elim a [
            | inl (r, (h, g)) ↦
                let m = Reaches-true filter r in
                let k : contains_key j handlers ≡ true = rw (contains_key, g) in
                absurd (ground arith)
            | inr b ↦ let (id, k) = found_complete topics b in (id, rw n k)
          ]
        ]

-- An entry with an identifier has the handler of that identifier.
entry_handler :
    {H : Type 0} (handlers : IdMap H) (topic : Text) (id : ℕ) (handler : H) (topics : IdMap Text)
    → id_get id handlers ≡ some handler
    → Any (λ (e : ℕ × Text). (e.0 ≡ id) × Reaches e.1 topic) topics
    → Any (λ (e : ℕ × Text). (id_get e.0 handlers ≡ some handler) × Reaches e.1 topic) topics
entry_handler handlers topic id handler [] k a = absurd a
entry_handler handlers topic id handler (e ∷ topics) k (inl (same, r)) =
    inl (ap (λ i. id_get i handlers) same ∙ k, r)
entry_handler handlers topic id handler (e ∷ topics) k (inr a) =
    inr (entry_handler handlers topic id handler topics k a)

module _ {J U C H : Type 0} (json : MessageJson J U) (topic : Text) (payload : List ℕ)
    (t : RumqttcTransport C H) (msg : Message J U) where
  -- Where `dispatch` makes the future of a handler, the message is the one that the payload decodes to,
  -- and the handler is registered for an identifier on record with a filter that is the topic or
  -- covers it.
  dispatch-eq-some :
      (handler : H)
      → dispatch json topic payload t ≡ some (handler, msg)
      → (decode_message json payload ≡ ok msg)
        × Any
            (λ (e : ℕ × Text). (id_get e.0 t.handlers ≡ some handler) × Reaches e.1 topic)
            t.topic_index
  unfolding dispatch
  dispatch-eq-some handler h = elim (Result-cases (decode_message json payload)) [
    | inr (e, d) ↦
        let none_left : none ≡ some (handler, msg) = rw (dispatch, d) at h in absurd (cc none_left)
    | inl (decoded, d) ↦
        elim (Option-cases (matching_subscription topic t.handlers t.topic_index)) [
          | inl n ↦
              let none_left : none ≡ some (handler, msg) = rw (dispatch, d, n) at h in
              absurd (cc none_left)
          | inr (id, found) ↦
              let (b, (x, k)) = found_sound t.handlers topic t.topic_index id found in
              let given : some (x, decoded) ≡ some (handler, msg) =
                rw (dispatch, d, found, k) at h in
              let same : x ≡ handler = cc given in
              let same_msg : decoded ≡ msg = cc given in
              (
                d ∙ ap ok same_msg,
                entry_handler t.handlers topic id handler t.topic_index (k ∙ ap some same) b,
              )
        ]
  ]

  -- If the payload decodes, and a filter on record is the topic or covers it and has a handler, then
  -- `dispatch` makes the future of some handler for that message.
  pub dispatch_complete :
      decode_message json payload ≡ ok msg
      → Any
          (λ (e : ℕ × Text). Reaches e.1 topic × ((h : H) × (id_get e.0 t.handlers ≡ some h)))
          t.topic_index
      → (handler : H) × (dispatch json topic payload t ≡ some (handler, msg))
  unfolding dispatch
  dispatch_complete d a =
      let (id, found) = found_complete t.handlers topic t.topic_index a in
      let (b, (h, k)) = found_sound t.handlers topic t.topic_index id found in
      (h, rw (dispatch, d, found, k))
