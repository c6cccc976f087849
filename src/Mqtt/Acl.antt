-- ===== src/Mqtt/Acl.antt =====
-- crates/themql-mqtt/src/lib.rs: `AclAction`, `AclRule`, `MqttAcl` and the three ready-made lists.
use the_mql.Base.{
  Bool, true, false, ◌&&◌, ◌||◌, Option, none, some, List, [], ◌∷◌, ◌++◌, any, if◌then◌else◌,
}
use the_mql.Base.Text.{Text, codes, text_eq, starts_with, strip_suffix}

pub data AclAction : Type 0 where
  publish subscribe pub_sub : AclAction

pub record AclRule : Type 0 where
  pub action : AclAction
  pub topic_pattern : Text

-- `AclRule::publish`, `AclRule::subscribe`, `AclRule::pubsub`
abbrev pub publish_rule : Text → AclRule
publish_rule pattern = record { action = publish; topic_pattern = pattern }

abbrev pub subscribe_rule : Text → AclRule
subscribe_rule pattern = record { action = subscribe; topic_pattern = pattern }

abbrev pub pubsub_rule : Text → AclRule
pubsub_rule pattern = record { action = pub_sub; topic_pattern = pattern }

-- The branch of `topic_matches` after the test for `*`.
unfoldable pub under_pattern : Text → Text → Option Text → Bool
under_pattern pattern topic (some prefix) =
    text_eq topic prefix || starts_with topic (prefix ++ codes ".")
under_pattern pattern topic none = text_eq topic pattern

-- `AclRule::topic_matches`
unfoldable pub topic_matches : AclRule → Text → Bool
unfolding under_pattern
topic_matches rule topic =
    if text_eq rule.topic_pattern (codes "*")
    then true
    else under_pattern rule.topic_pattern topic (strip_suffix rule.topic_pattern (codes ".*"))

-- The `matches!` of `AclRule::permits`.
unfoldable pub action_ok : AclAction → AclAction → Bool
action_ok pub_sub asked = true
action_ok publish publish = true
action_ok subscribe subscribe = true
action_ok _ asked = false

-- `AclRule::permits`
unfoldable pub rule_permits : AclRule → AclAction → Text → Bool
unfolding action_ok topic_matches
rule_permits rule action topic = action_ok rule.action action && topic_matches rule topic

pub record MqttAcl : Type 0 where
  pub rules : List AclRule

abbrev pub new_acl : MqttAcl
new_acl = record { rules = [] }

-- `MqttAcl::allow`
unfoldable pub allow : MqttAcl → AclRule → MqttAcl
allow acl rule = record acl { rules = acl.rules ++ rule ∷ [] }

-- `MqttAcl::permits`
unfoldable pub permits : MqttAcl → AclAction → Text → Bool
unfolding rule_permits
permits acl action topic = any (λ r. rule_permits r action topic) acl.rules

unfoldable pub admin_acl : MqttAcl
unfolding allow
admin_acl = allow new_acl (pubsub_rule (codes "*"))

unfoldable pub operator_acl : MqttAcl
unfolding allow
operator_acl = allow new_acl (pubsub_rule (codes "vehicle.*"))

unfoldable pub observer_acl : MqttAcl
unfolding allow
observer_acl = allow new_acl (subscribe_rule (codes "vehicle.*"))
