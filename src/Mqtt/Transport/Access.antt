-- ===== src/Mqtt/Transport/Access.antt =====
-- crates/themql-mqtt/src/lib.rs: what the access list keeps from the broker.
use the_mql.Base.{Bool, false, err, ◌≡◌, ◌⊎◌, inl, inr, Bool-cases}
use the_mql.Base.Text.{codes}
use the_mql.Core.Message.{Message}
use the_mql.Core.Subject.{Subject}
use the_mql.Mqtt.{MqttError, publish_failed, subscribe_failed}
use the_mql.Mqtt.Acl.{AclAction}
use the_mql.Mqtt.Transport.{
  AsyncClient, MessageJson, RumqttcTransport, subject_to_topic, encode_message, allowed, denied,
  following, publish_with, subscribe,
}

-- A publication, retained or not, that the access list denies, or whose message has no JSON form, is
-- an error and leaves the whole transport as it was: the client is not called.
publish_untouched :
    {J U C H : Type 0} (client : AsyncClient C) (json : MessageJson J U) (retain : Bool)
    (topic : Subject) (msg : Message J U) (t : RumqttcTransport C H)
    → (allowed t.acl AclAction.publish (subject_to_topic topic) ≡ false)
      ⊎ ((e : MqttError) × (encode_message json msg ≡ err e))
    → (e : MqttError) × (publish_with client json retain topic msg t ≡ (err e, t))
unfolding publish_with
publish_untouched client json retain topic msg t (inl denial) =
    (publish_failed (denied (codes "publish") (subject_to_topic topic)), rw denial)
publish_untouched client json retain topic msg t (inr (e, bad)) =
    elim (Bool-cases (allowed t.acl AclAction.publish (subject_to_topic topic))) [
      | inl granted ↦ (e, rw (granted, bad))
      | inr denial ↦ (publish_failed (denied (codes "publish") (subject_to_topic topic)), rw denial)
    ]

-- A subscription that the access list denies is an error, and all it changes is the counter of
-- identifiers: no handler is kept, and the client is not called.
pub subscribe_untouched :
    {C H : Type 0} (client : AsyncClient C) (topic : Subject) (handler : H)
    (t : RumqttcTransport C H)
    → allowed t.acl AclAction.subscribe (subject_to_topic topic) ≡ false
    → (e : MqttError) × (subscribe client topic handler t
        ≡ (err e, record t { next_id = following t.next_id }))
unfolding subscribe
subscribe_untouched client topic handler t denial =
    (subscribe_failed (denied (codes "subscribe") (subject_to_topic topic)), rw denial)
