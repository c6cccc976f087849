-- ===== src/Mqtt/DispatchTests.antt =====
-- crates/themql-mqtt/src/lib.rs: runs of the filter and of the dispatch.
use the_mql.Base.{ℕ, true, none, some, [], ◌∷◌, ok, err, ◌≡◌, refl}
use the_mql.Base.Text.{codes, text_eq, split, starts_with_char, ends_with_char, contains}
use the_mql.Core.Message.{Message, new_metadata, unit, telemetry}
use the_mql.Core.Subject.{Subject, parse_subject, is_segment_char}
use the_mql.Core.Subject.Grammar.{IsWellFormed, parse_subject-eq-ok}
use the_mql.Core.Time.{now_monotonic}
use the_mql.Mqtt.Dispatch.{dispatch}
use the_mql.Mqtt.Filter.{matches_filter, matching_subscription}
use the_mql.Mqtt.Transport.{MessageJson, RumqttcTransport, id_get, decode_message}

program : Unit {0}
unfolding dispatch matching_subscription matches_filter id_get decode_message text_eq split
    parse_subject is_segment_char starts_with_char ends_with_char contains
program = tt

abbrev rpm : Subject
rpm = record { segments = record { text = codes "car" } ∷ record { text = codes "rpm" } ∷ [] }

abbrev message : Message ℕ ℕ
message = record {
  id = record { uuid = 1 };
  timestamp = now_monotonic;
  subject = rpm;
  operation = telemetry;
  payload = unit;
  metadata = new_metadata;
}

-- A payload of one byte is the message, and no other is one.
abbrev coding : MessageJson ℕ ℕ
coding = record {
  to_vec = λ m. ok (1 ∷ []);
  from_slice = λ b. elim b [ [] ↦ err [] | _ ∷ _ ↦ ok message ];
}

abbrev listening : RumqttcTransport ℕ ℕ
listening = record {
  client = 0;
  handlers = (1, 7) ∷ [];
  next_id = 2;
  topic_index = (1, codes "car.rpm") ∷ [];
  acl = none;
}

parsed : parse_subject (codes "car.rpm") ≡ ok rpm
unfolding program
parsed = refl

rpm-IsWellFormed : IsWellFormed rpm
rpm-IsWellFormed = (parse_subject-eq-ok (codes "car.rpm") rpm parsed).0

wildcards : matches_filter (codes "car/+/#") (codes "car/left/door/open") ≡ true
unfolding program
wildcards = refl

-- A level that `#` stands for may be absent, and what follows a `#` is not looked at.
hash_in_the_middle : matches_filter (codes "car/#/never") (codes "car") ≡ true
unfolding program
hash_in_the_middle = refl

decoded : decode_message coding (1 ∷ []) ≡ ok message
unfolding program
decoded = refl

dispatched : dispatch coding (codes "car.rpm") (1 ∷ []) listening ≡ some (7, message)
unfolding program
dispatched = refl

handler : id_get 1 listening.handlers ≡ some 7
unfolding program
handler = refl
