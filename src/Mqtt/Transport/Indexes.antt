-- ===== src/Mqtt/Transport/Indexes.antt =====
-- crates/themql-mqtt/src/lib.rs: how the handlers and the topics of a transport stay together.
use the_mql.Base.{
  ℕ, ◌+◌, ◌^◌, ◌≤◌, ◌<◌, Bool, false, Option, none, some, [], ◌∷◌, ◌≡◌, refl, inl, inr, arith,
  if◌then◌else◌, Bool-cases, Result-cases, Option-cases, ◌==◌,
}
use the_mql.Base.Text.{Text}
use the_mql.Core.Message.{Message}
use the_mql.Core.Subject.{Subject}
use the_mql.Mqtt.{at_least_once}
use the_mql.Mqtt.Acl.{AclAction, MqttAcl}
use the_mql.Mqtt.Transport.{
  AsyncClient, MessageJson, IdMap, id_get, id_insert, id_remove, RumqttcTransport, subject_to_topic,
  allowed, following, publish_with, register, subscribe, unsubscribe, new_transport, encode_message,
}

module _ {A : Type 0} (id j : ℕ) where
  pub id_get-id_remove :
      (m : IdMap A) → id_get j (id_remove id m) ≡ (if id == j then none else id_get j m)
  unfolding id_get id_remove
  id_get-id_remove [] = ground arith
  id_get-id_remove ((k, a) ∷ m) = ground (arith, id_get-id_remove m)

  id_get-id_insert :
      (a : A) (m : IdMap A) → id_get j (id_insert id a m) ≡ (if id == j then some a else id_get j m)
  unfolding id_get id_insert
  id_get-id_insert a m = ground (arith, id_get-id_remove m)

-- Every topic on record belongs to a handler, and no identifier that is yet to be given is in use.
pub record IsConsistent {C H : Type 0} (t : RumqttcTransport C H) : Type 0 where
  pub indexed :
      (id : ℕ) (topic : Text)
      → id_get id t.topic_index ≡ some topic
      → (handler : H) × (id_get id t.handlers ≡ some handler)
  pub fresh : (id : ℕ) → t.next_id ≤ id → id_get id t.handlers ≡ none

-- What `subscribe` does to the identifiers: it takes the next one, for the handler if it succeeds.
data Subscribed {C H : Type 0} (handler : H) (t t' : RumqttcTransport C H) : Type 0 where
  registered :
      (topic : Text)
      → t'.handlers ≡ id_insert t.next_id handler t.handlers
      → t'.topic_index ≡ id_insert t.next_id topic t.topic_index
      → t'.next_id ≡ following t.next_id
      → Subscribed handler t t'
  refused :
      t'.handlers ≡ t.handlers
      → t'.topic_index ≡ t.topic_index
      → t'.next_id ≡ following t.next_id
      → Subscribed handler t t'

subscribe-Subscribed :
    {C H : Type 0} (client : AsyncClient C) (topic : Subject) (handler : H)
    (t : RumqttcTransport C H)
    → Subscribed handler t (subscribe client topic handler t).1
unfolding subscribe register
subscribe-Subscribed client topic handler t =
    elim (Bool-cases (allowed t.acl AclAction.subscribe (subject_to_topic topic))) [
      | inr n ↦ rw n (refused refl refl refl)
      | inl y ↦
          elim (Result-cases (client.subscribe (subject_to_topic topic) at_least_once t.client).0) [
            | inl (u, o) ↦ rw (y, o) (registered (subject_to_topic topic) refl refl refl)
            | inr (e, o) ↦ rw (y, o) (refused refl refl refl)
          ]
    ]

-- What `unsubscribe` does to the identifiers: the topic goes, and the handler unless the broker fails.
data Unsubscribed {C H : Type 0} (id : ℕ) (t t' : RumqttcTransport C H) : Type 0 where
  removed :
      t'.handlers ≡ id_remove id t.handlers
      → t'.topic_index ≡ id_remove id t.topic_index
      → t'.next_id ≡ t.next_id
      → Unsubscribed id t t'
  failed :
      t'.handlers ≡ t.handlers
      → t'.topic_index ≡ id_remove id t.topic_index
      → t'.next_id ≡ t.next_id
      → Unsubscribed id t t'

unsubscribe-Unsubscribed :
    {C H : Type 0} (client : AsyncClient C) (id : ℕ) (t : RumqttcTransport C H)
    → Unsubscribed id t (unsubscribe client id t).1
unfolding unsubscribe
unsubscribe-Unsubscribed client id t = elim (Option-cases (id_get id t.topic_index)) [
  | inl n ↦ rw n (removed refl refl refl)
  | inr (topic, s) ↦ elim (Result-cases (client.unsubscribe topic t.client).0) [
    | inl (u, o) ↦ rw (s, o) (removed refl refl refl)
    | inr (e, o) ↦ rw (s, o) (failed refl refl refl)
  ]
]

-- A publication does nothing to them.
record Published {C H : Type 0} (t t' : RumqttcTransport C H) : Type 0 where
  handlers : t'.handlers ≡ t.handlers
  topic_index : t'.topic_index ≡ t.topic_index
  next_id : t'.next_id ≡ t.next_id

publish-Published :
    {J U C H : Type 0} (client : AsyncClient C) (json : MessageJson J U) (retain : Bool)
    (topic : Subject) (msg : Message J U) (t : RumqttcTransport C H)
    → Published t (publish_with client json retain topic msg t).1
unfolding publish_with
publish-Published client json retain topic msg t =
    elim (Bool-cases (allowed t.acl AclAction.publish (subject_to_topic topic))) [
      | inr n ↦ rw n (record { handlers = refl; topic_index = refl; next_id = refl })
      | inl y ↦ elim (Result-cases (encode_message json msg)) [
        | inl (bytes, o) ↦
            rw (y, o) (record { handlers = refl; topic_index = refl; next_id = refl })
        | inr (e, o) ↦ rw (y, o) (record { handlers = refl; topic_index = refl; next_id = refl })
      ]
    ]

-- The requests of the three operations. A subscription is made while the counter has room.
pub data Step {J U C H : Type 0} (client : AsyncClient C) (json : MessageJson J U)
    (t : RumqttcTransport C H) : RumqttcTransport C H → Type 0 where
  published :
      (retain : Bool) (topic : Subject) (msg : Message J U)
      → Step client json t (publish_with client json retain topic msg t).1
  subscribed :
      (topic : Subject) (handler : H)
      → t.next_id + 1 < 2 ^ 64
      → Step client json t (subscribe client topic handler t).1
  unsubscribed : (id : ℕ) → Step client json t (unsubscribe client id t).1

following_room : (n : ℕ) → n + 1 < 2 ^ 64 → following n ≡ n + 1
following_room n room = omega arith

-- An entry that is still there was there before its neighbour went.
id_get-kept :
    {A : Type 0} (id j : ℕ) (a : A) (m : IdMap A)
    → id_get j (id_remove id m) ≡ some a
    → ((id == j) ≡ false) × (id_get j m ≡ some a)
id_get-kept id j a m g = elim (Bool-cases (id == j)) [
  | inl e ↦ absurd (ground (arith, id_get-id_remove id j m))
  | inr e ↦ (e, ground (arith, id_get-id_remove id j m))
]

module _ {C H : Type 0} {t : RumqttcTransport C H} (c : IsConsistent t) where
  new_entry :
      (handler : H) (topic : Text) (id : ℕ) (found : Text)
      → id_get id (id_insert t.next_id topic t.topic_index) ≡ some found
      → (h : H) × (id_get id (id_insert t.next_id handler t.handlers) ≡ some h)
  new_entry handler topic id found g = elim (Bool-cases (t.next_id == id)) [
    | inl e ↦ (handler, ground (arith, id_get-id_insert t.next_id id handler t.handlers))
    | inr e ↦
        let old : id_get id t.topic_index ≡ some found =
          ground (arith, id_get-id_insert t.next_id id topic t.topic_index) in
        let (h, k) = c.indexed id found old in
        (h, ground (arith, id_get-id_insert t.next_id id handler t.handlers))
  ]

module _ {C H : Type 0} {t t' : RumqttcTransport C H} (c : IsConsistent t) where
  Subscribed-IsConsistent :
      (handler : H) → Subscribed handler t t' → t.next_id + 1 < 2 ^ 64 → IsConsistent t'
  Subscribed-IsConsistent handler (registered topic eh et en) room =
      let up : following t.next_id ≡ t.next_id + 1 = following_room t.next_id room in
      record {
        indexed = λ id found g. rw eh (new_entry c handler topic id found (rw et at g));
        fresh = λ id le.
            let old : id_get id t.handlers ≡ none = c.fresh id (omega (arith, en, up)) in
            let other : (t.next_id == id) ≡ false = ground (arith, en, up) in
            rw eh (ground (arith, id_get-id_insert t.next_id id handler t.handlers));
      }
  Subscribed-IsConsistent handler (refused eh et en) room = record {
    indexed = λ id topic g. rw eh (c.indexed id topic (rw et at g));
    fresh = λ id le. rw eh (c.fresh id (omega (arith, en, following_room t.next_id room)));
  }

  Unsubscribed-IsConsistent : (id : ℕ) → Unsubscribed id t t' → IsConsistent t'
  Unsubscribed-IsConsistent id (removed eh et en) = record {
    indexed = λ j topic g.
        let g' : id_get j (id_remove id t.topic_index) ≡ some topic = rw et at g in
        let (e, old) = id_get-kept id j topic t.topic_index g' in
        let (h, k) = c.indexed j topic old in
        (h, rw eh (ground (arith, id_get-id_remove id j t.handlers)));
    fresh = λ j le.
        let old : id_get j t.handlers ≡ none = c.fresh j (omega (arith, en)) in
        rw eh (ground (arith, id_get-id_remove id j t.handlers));
  }
  Unsubscribed-IsConsistent id (failed eh et en) = record {
    indexed = λ j topic g.
        let g' : id_get j (id_remove id t.topic_index) ≡ some topic = rw et at g in
        rw eh (c.indexed j topic (id_get-kept id j topic t.topic_index g').1);
    fresh = λ j le. rw eh (c.fresh j (omega (arith, en)));
  }

  Published-IsConsistent : Published t t' → IsConsistent t'
  Published-IsConsistent p = record {
    indexed = λ id topic g. rw p.handlers (c.indexed id topic (rw p.topic_index at g));
    fresh = λ id le. rw p.handlers (c.fresh id (omega (arith, p.next_id)));
  }

-- Every state that the requests lead to.
pub data Reach {J U C H : Type 0} (client : AsyncClient C) (json : MessageJson J U)
    (s : RumqttcTransport C H) : RumqttcTransport C H → Type 0 where
  here : Reach client json s s
  next :
      {t u : RumqttcTransport C H}
      → Reach client json s t
      → Step client json t u
      → Reach client json s u

module _ {J U C H : Type 0} {client : AsyncClient C} {json : MessageJson J U} where
  Step-IsConsistent :
      {t u : RumqttcTransport C H} → Step client json t u → IsConsistent t → IsConsistent u
  Step-IsConsistent {t} (published retain topic msg) c =
      Published-IsConsistent c (publish-Published client json retain topic msg t)
  Step-IsConsistent {t} (subscribed topic handler room) c =
      Subscribed-IsConsistent c handler (subscribe-Subscribed client topic handler t) room
  Step-IsConsistent {t} (unsubscribed id) c =
      Unsubscribed-IsConsistent c id (unsubscribe-Unsubscribed client id t)

  Reach-IsConsistent :
      {s t : RumqttcTransport C H} → Reach client json s t → IsConsistent s → IsConsistent t
  Reach-IsConsistent here c = c
  Reach-IsConsistent (next r st) c = Step-IsConsistent st (Reach-IsConsistent r c)

-- In every state that publications, subscriptions and unsubscriptions lead to from a new transport,
-- whether the broker answers them or not, every topic on record belongs to a registered handler, and
-- no identifier from the counter on is in use; a subscription is made while the counter of 64 bits
-- has room.
pub run-IsConsistent :
    {J U C H : Type 0} (client : AsyncClient C) (json : MessageJson J U) (c : C)
    (acl : Option MqttAcl) {t : RumqttcTransport C H}
    → Reach client json (new_transport c acl) t
    → IsConsistent t
unfolding new_transport id_get
run-IsConsistent client json c acl r =
    Reach-IsConsistent r (record { indexed = λ id topic g. absurd (cc g); fresh = λ id le. refl })
