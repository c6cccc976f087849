-- ===== src/Mqtt.antt =====
-- crates/themql-mqtt/src/lib.rs: identifiers, quality of service and errors; the access rules, the
-- topic filters and the transport are the children.
use the_mql.Base.{ℕ, ◌++◌}
use the_mql.Base.Text.{Text, codes}
use the_mql.Core.Error.{Error, transport_error}
pub mod Acl
pub mod Transport
pub mod Filter
pub mod Exact
pub mod Dispatch
pub mod AclLaws
mod Tests
mod DispatchTests

pub record SubscriptionId : Type 0 where
  pub raw : ℕ

pub data MqttQos : Type 0 where
  at_most_once at_least_once exactly_once : MqttQos

pub data MqttError : Type 0 where
  connection_lost qos_violation timed_out : MqttError
  publish_failed subscribe_failed deserialization_error : Text → MqttError

-- The `#[error("…")]` texts.
unfoldable pub mqtt_error_text : MqttError → Text
mqtt_error_text connection_lost = codes "mqtt connection lost"
mqtt_error_text (publish_failed e) = codes "mqtt publish failed: " ++ e
mqtt_error_text (subscribe_failed e) = codes "mqtt subscribe failed: " ++ e
mqtt_error_text (deserialization_error e) = codes "mqtt deserialization error: " ++ e
mqtt_error_text qos_violation = codes "mqtt qos violation"
mqtt_error_text timed_out = codes "mqtt timeout"

-- `From<MqttError> for Error`
unfoldable pub error_of_mqtt_error : {J U : Type 0} → MqttError → Error J U
unfolding transport_error mqtt_error_text
error_of_mqtt_error e = transport_error (mqtt_error_text e)
