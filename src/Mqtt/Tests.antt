-- ===== src/Mqtt/Tests.antt =====
-- crates/themql-mqtt/src/lib.rs: what the access lists permit, and runs with a client that counts.
use the_mql.Base.{ℕ, suc, true, false, none, some, [], ◌∷◌, ok, err, ◌≡◌, refl, ◌↔◌, Any, arith}
use the_mql.Base.Text.{codes, text_eq, starts_with, strip_suffix, join}
use the_mql.Core.Message.{Message, new_metadata, unit, command}
use the_mql.Core.Subject.{Subject}
use the_mql.Core.Time.{now_monotonic}
use the_mql.Mqtt.Acl.{AclRule, AclAction, permits, operator_acl, observer_acl}
use the_mql.Mqtt.AclLaws.{Grants, Names, permits_iff}
use the_mql.Mqtt.Transport.{
  AsyncClient, MessageJson, RumqttcTransport, new_transport, subject_to_topic, allowed,
  publish_with, subscribe, unsubscribe, id_get,
}
use the_mql.Mqtt.Transport.Indexes.{
  IsConsistent, here, next, published, subscribed, unsubscribed, run-IsConsistent,
}

program : Unit {0}
unfolding permits text_eq starts_with strip_suffix operator_acl observer_acl allowed
    subject_to_topic id_get join
program = tt

-- The state of the client is the number of its calls. A broker that answers, and one that fails.
abbrev client : AsyncClient ℕ
client = record {
  publish = λ topic qos retain bytes n. (ok tt, suc n);
  subscribe = λ topic qos n. (ok tt, suc n);
  unsubscribe = λ topic n. (ok tt, suc n);
}

abbrev lost : AsyncClient ℕ
lost = record client { unsubscribe = λ topic n. (err (codes "lost"), suc n) }

abbrev coding : MessageJson ℕ ℕ
coding = record { to_vec = λ m. ok []; from_slice = λ b. err [] }

abbrev rpm : Subject
rpm = record { segments = record { text = codes "vehicle" } ∷ record { text = codes "rpm" } ∷ [] }

abbrev brake : Subject
brake = record { segments = record { text = codes "brake" } ∷ [] }

abbrev message : Message ℕ ℕ
message = record {
  id = record { uuid = 1 };
  timestamp = now_monotonic;
  subject = rpm;
  operation = command;
  payload = unit;
  metadata = new_metadata;
}

abbrev observer : RumqttcTransport ℕ ℕ
observer = new_transport 0 (some observer_acl)

abbrev one_handler : RumqttcTransport ℕ ℕ
one_handler = record {
  client = 1;
  handlers = (1, 7) ∷ [];
  next_id = 2;
  topic_index = (1, codes "vehicle.rpm") ∷ [];
  acl = none;
}

below : permits operator_acl AclAction.publish (codes "vehicle.rpm") ≡ true
unfolding program
below = refl

unpublished : allowed observer.acl AclAction.publish (subject_to_topic rpm) ≡ false
unfolding program new_transport
unpublished = refl

unsubscribable : allowed observer.acl AclAction.subscribe (subject_to_topic brake) ≡ false
unfolding program new_transport
unsubscribable = refl

on_record : id_get 1 one_handler.topic_index ≡ some (codes "vehicle.rpm")
unfolding program
on_record = refl

permits_iff_example :
    (permits operator_acl AclAction.publish (codes "vehicle.rpm") ≡ true)
    ↔ Any
        (λ (rule : AclRule).
          Grants rule.action AclAction.publish × Names rule.topic_pattern (codes "vehicle.rpm"))
        operator_acl.rules
permits_iff_example = permits_iff operator_acl AclAction.publish (codes "vehicle.rpm")

-- A subscription, a publication, and an unsubscription that the broker does not answer.
run-IsConsistent_example :
    IsConsistent {H = ℕ}
      (unsubscribe lost 1
        (publish_with lost coding false rpm message
          (subscribe lost rpm 7 (new_transport 0 none)).1).1).1
unfolding new_transport
run-IsConsistent_example = run-IsConsistent lost coding 0 none (
    next (next (next here (subscribed rpm 7 (omega arith))) (published false rpm message))
      (unsubscribed 1))
