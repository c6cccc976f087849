-- ===== src/Mqtt/Transport/Retry.antt =====
-- crates/themql-mqtt/src/lib.rs: what an unsubscription leaves behind that the broker did not answer.
use the_mql.Base.{ℕ, none, some, ok, err, ◌≡◌, arith}
use the_mql.Base.Text.{Text}
use the_mql.Mqtt.{subscribe_failed}
use the_mql.Mqtt.Transport.{AsyncClient, id_get, id_remove, RumqttcTransport, unsubscribe}
use the_mql.Mqtt.Transport.Indexes.{id_get-id_remove}

-- An unsubscription that the client fails returns the error and keeps the handler; if it is tried
-- again it succeeds without a call of the client, so that the broker is never told.
unsubscribe_retry :
    {C H : Type 0} (client : AsyncClient C) (id : ℕ) (t : RumqttcTransport C H) (topic e : Text)
    → id_get id t.topic_index ≡ some topic
    → (client.unsubscribe topic t.client).0 ≡ err e
    → ((unsubscribe client id t).0 ≡ err (subscribe_failed e))
      × ((unsubscribe client id t).1.handlers ≡ t.handlers)
      × ((unsubscribe client id (unsubscribe client id t).1).0 ≡ ok tt)
      × ((unsubscribe client id (unsubscribe client id t).1).1.client
          ≡ (unsubscribe client id t).1.client)
unfolding unsubscribe
unsubscribe_retry client id t topic e there failed =
    let gone : id_get id (id_remove id t.topic_index) ≡ none =
      ground (arith, id_get-id_remove id id t.topic_index) in
    (rw (there, failed), rw (there, failed), rw (there, failed, gone), rw (there, failed, gone))
