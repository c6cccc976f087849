-- ===== src/Mqtt/Transport.antt =====
-- crates/themql-mqtt/src/lib.rs: `RumqttcTransport`. The client of the crate `rumqttc` and the JSON form
-- of a message are parameters; a lock is never poisoned here. The event loop is not modelled.
use the_mql.Base.{
  ℕ, suc, ◌%◌, ◌^◌, ◌+◌, Bool, true, false, not, Option, none, some, List, [], ◌∷◌, ◌++◌, Result,
  ok, err, map_err, if◌then◌else◌, filter_by, ◌==◌,
}
use the_mql.Base.Effects.{M, return, throw, continue, ◌>>=◌, ◌>>◌}
use the_mql.Base.Text.{Text, codes}
use the_mql.Core.Message.{Message}
use the_mql.Core.Subject.{Subject, SubjectError, parse_subject, subject_text}
use the_mql.Mqtt.{
  SubscriptionId, MqttQos, at_least_once, MqttError, publish_failed, subscribe_failed,
  deserialization_error,
}
use the_mql.Mqtt.Acl.{MqttAcl, AclAction, permits}
pub mod Access
pub mod Indexes
pub mod Retry

-- `rumqttc::AsyncClient`: the requests that a transport makes; an error is its text.
pub record AsyncClient (C : Type 0) : Type 0 where
  pub publish : Text → MqttQos → Bool → List ℕ → M C Text (Unit {0})
  pub subscribe : Text → MqttQos → M C Text (Unit {0})
  pub unsubscribe : Text → M C Text (Unit {0})

-- `serde_json::to_vec` and `from_slice` of a message; an error is its text.
pub record MessageJson (J U : Type 0) : Type 0 where
  pub to_vec : Message J U → Result Text (List ℕ)
  pub from_slice : List ℕ → Result Text (Message J U)

unfoldable pub subject_to_topic : Subject → Text
unfolding subject_text
subject_to_topic subject = subject_text subject

unfoldable pub topic_to_subject : Text → Result SubjectError Subject
unfolding parse_subject
topic_to_subject topic = parse_subject topic

module _ {J U : Type 0} (json : MessageJson J U) where
  unfoldable pub encode_message : Message J U → Result MqttError (List ℕ)
  encode_message msg = map_err deserialization_error (json.to_vec msg)

  unfoldable pub decode_message : List ℕ → Result MqttError (Message J U)
  decode_message bytes = map_err deserialization_error (json.from_slice bytes)

-- A map from identifiers, of which entries are inserted, removed and read.
abbrev pub IdMap : Type 0 → Type 0
IdMap A = List (ℕ × A)

module _ {A : Type 0} where
  unfoldable pub id_remove : ℕ → IdMap A → IdMap A
  id_remove id entries = filter_by (λ e. not (e.0 == id)) entries

  unfoldable pub id_insert : ℕ → A → IdMap A → IdMap A
  unfolding id_remove
  id_insert id a entries = (id, a) ∷ id_remove id entries

  unfoldable pub id_get : ℕ → IdMap A → Option A
  id_get id [] = none
  id_get id ((j, a) ∷ entries) = if j == id then some a else id_get id entries

-- `H` is a registered handler.
pub record RumqttcTransport (C H : Type 0) : Type 0 where
  pub client : C
  pub handlers : IdMap H
  pub next_id : ℕ
  pub topic_index : IdMap Text
  pub acl : Option MqttAcl

-- `RumqttcTransport::new`, of a client that is not connected and the list of the configuration.
unfoldable pub new_transport : {C H : Type 0} → C → Option MqttAcl → RumqttcTransport C H
new_transport client acl = record {
  client = client;
  handlers = [];
  next_id = 1;
  topic_index = [];
  acl = acl;
}

-- `if let Some(acl) = &self.acl { if !acl.permits(…) { … } }`
unfoldable pub allowed : Option MqttAcl → AclAction → Text → Bool
allowed none action topic = true
allowed (some acl) action topic = permits acl action topic

-- `format!("ACL denied … on topic '{topic_str}'")`
abbrev pub denied : Text → Text → Text
denied what topic = codes "ACL denied " ++ what ++ codes " on topic '" ++ topic ++ codes "'"

-- `AtomicU64::fetch_add(1)`, of which the state afterwards is meant.
abbrev pub following : ℕ → ℕ
following id = (id + 1) % 2 ^ 64

abbrev pub Async : Type 0 → Type 0 → Type 0 → Type 0
Async C H A = M (RumqttcTransport C H) MqttError A

module _ {C H A : Type 0} where
  -- A request to the client, of which the error is wrapped.
  abbrev pub request : (Text → MqttError) → M C Text A → Async C H A
  request wrap m t = (map_err wrap (m t.client).0, record t { client = (m t.client).1 })

  abbrev pub answered : Result MqttError A → Async C H A
  answered r t = (r, t)

module _ {J U C H : Type 0} (client : AsyncClient C) (json : MessageJson J U) where
  -- `publish` and `publish_retained`, which differ in the flag.
  unfoldable pub publish_with : Bool → Subject → Message J U → Async C H (Unit {0})
  unfolding allowed subject_to_topic encode_message
  publish_with retain topic payload t =
      if allowed t.acl AclAction.publish (subject_to_topic topic)
      then (answered (encode_message json payload) >>= (λ bytes.
            request publish_failed
              (client.publish (subject_to_topic topic) at_least_once retain bytes)))
          t
      else throw (publish_failed (denied (codes "publish") (subject_to_topic topic))) t

  unfoldable pub publish : Subject → Message J U → Async C H (Unit {0})
  unfolding publish_with
  publish = publish_with false

  unfoldable pub publish_retained : Subject → Message J U → Async C H (Unit {0})
  unfolding publish_with
  publish_retained = publish_with true

module _ {C H : Type 0} where
  -- The two insertions that end `subscribe`.
  unfoldable pub register : ℕ → Text → H → Async C H ℕ
  unfolding id_insert
  register id topic handler t = (
    ok id,
    record t {
      handlers = id_insert id handler t.handlers;
      topic_index = id_insert id topic t.topic_index;
    },
  )

  unfoldable pub drop_handler : ℕ → Async C H (Unit {0})
  unfolding id_remove
  drop_handler id t = (ok tt, record t { handlers = id_remove id t.handlers })

module _ {C H : Type 0} (client : AsyncClient C) where
  -- `subscribe`: the identifier is taken before the access list is asked.
  unfoldable pub subscribe : Subject → H → Async C H ℕ
  unfolding allowed subject_to_topic register
  subscribe topic handler t =
      let id = t.next_id in
      let t₁ = record t { next_id = following id } in
      if allowed t₁.acl AclAction.subscribe (subject_to_topic topic)
      then (request subscribe_failed (client.subscribe (subject_to_topic topic) at_least_once)
            >> register id (subject_to_topic topic) handler)
          t₁
      else throw (subscribe_failed (denied (codes "subscribe") (subject_to_topic topic))) t₁

  -- `if let Some(topic) = topic { self.client.unsubscribe(topic)… }`
  unfoldable pub tell_broker : Option Text → Async C H (Unit {0})
  tell_broker none = return tt
  tell_broker (some topic) = request subscribe_failed (client.unsubscribe topic)

  -- `unsubscribe`: the topic goes before the broker is asked, the handler after it.
  unfoldable pub unsubscribe : ℕ → Async C H (Unit {0})
  unfolding id_get id_remove tell_broker drop_handler
  unsubscribe id t =
      (tell_broker (id_get id t.topic_index) >> drop_handler id)
        (record t { topic_index = id_remove id t.topic_index })
