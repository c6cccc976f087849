-- ===== src/Mqtt/AclLaws.antt =====
-- crates/themql-mqtt/src/lib.rs: what an access list grants.
use the_mql.Base.{
  true, false, ◌||◌, List, [], ◌∷◌, ◌++◌, append_assoc, Any, any, ◌≡◌, refl, sym, ◌∙◌, ◌↔◌, ◌⊎◌,
  inl, inr, arith, Bool-cases, Option-cases, &&_true,
}
use the_mql.Base.Affixes.{starts_with_iff, strip_suffix_iff}
use the_mql.Base.Text.{Text, codes, text_eq, text_eq_iff, starts_with, strip_suffix}
use the_mql.Mqtt.Acl.{
  AclAction, publish, subscribe, pub_sub, AclRule, topic_matches, under_pattern, action_ok,
  rule_permits, MqttAcl, permits,
}

-- The topic is the prefix itself or stands below it.
abbrev pub IsUnder : Text → Text → Type 0
IsUnder prefix topic = (topic ≡ prefix) ⊎ ((rest : Text) × (topic ≡ (prefix ++ codes ".") ++ rest))

-- What a pattern names: every topic, a topic and all below it, or one topic.
pub data Names (pattern topic : Text) : Type 0 where
  every : pattern ≡ codes "*" → Names pattern topic
  under :
      (prefix : Text) → pattern ≡ prefix ++ codes ".*" → IsUnder prefix topic → Names pattern topic
  exact : topic ≡ pattern → Names pattern topic

-- What a rule for one action grants of another: itself, and everything if it is for both.
abbrev pub Grants : AclAction → AclAction → Type 0
Grants have asked = (have ≡ pub_sub) ⊎ (have ≡ asked)

action_ok_iff : (have asked : AclAction) → (action_ok have asked ≡ true) ↔ Grants have asked
unfolding action_ok
action_ok_iff pub_sub asked = (λ h. inl refl, λ g. refl)
action_ok_iff publish publish = (λ h. inr refl, λ g. refl)
action_ok_iff publish subscribe = ground arith
action_ok_iff publish pub_sub = ground arith
action_ok_iff subscribe publish = ground arith
action_ok_iff subscribe subscribe = (λ h. inr refl, λ g. refl)
action_ok_iff subscribe pub_sub = ground arith

or-IsUnder :
    (prefix topic : Text)
    → (text_eq topic prefix || starts_with topic (prefix ++ codes ".")) ≡ true
    → IsUnder prefix topic
or-IsUnder prefix topic h = elim (Bool-cases (text_eq topic prefix)) [
  | inl e ↦ inl ((text_eq_iff topic prefix).0 e)
  | inr e ↦ inr ((starts_with_iff topic (prefix ++ codes ".")).0 (ground arith))
]

IsUnder-true :
    (prefix topic : Text)
    → IsUnder prefix topic
    → (text_eq topic prefix || starts_with topic (prefix ++ codes ".")) ≡ true
IsUnder-true prefix topic (inl e) = ground (arith, (text_eq_iff topic prefix).1 e)
IsUnder-true prefix topic (inr r) = elim (Bool-cases (text_eq topic prefix)) [
  | inl e ↦ rw e
  | inr e ↦ rw (e, (starts_with_iff topic (prefix ++ codes ".")).1 r)
]

module _ (pattern topic : Text) where
  under_pattern-Names :
      under_pattern pattern topic (strip_suffix pattern (codes ".*")) ≡ true → Names pattern topic
  unfolding under_pattern
  under_pattern-Names h = elim (Option-cases (strip_suffix pattern (codes ".*"))) [
    | inl n ↦ exact ((text_eq_iff topic pattern).0 (rw n at h))
    | inr (prefix, e) ↦
        under prefix ((strip_suffix_iff pattern (codes ".*") prefix).0 e)
          (or-IsUnder prefix topic (rw e at h))
  ]

  Names-under_pattern :
      Names pattern topic
      → text_eq pattern (codes "*") ≡ false
      → under_pattern pattern topic (strip_suffix pattern (codes ".*")) ≡ true
  unfolding under_pattern
  Names-under_pattern (every e) h = absurd (ground (arith, (text_eq_iff pattern (codes "*")).1 e))
  Names-under_pattern (under prefix e below) h =
      rw ((strip_suffix_iff pattern (codes ".*") prefix).1 e) (IsUnder-true prefix topic below)
  Names-under_pattern (exact e) h = elim (Option-cases (strip_suffix pattern (codes ".*"))) [
    | inl n ↦ rw n ((text_eq_iff topic pattern).1 e)
    | inr (prefix, s) ↦
        let whole : pattern ≡ prefix ++ codes ".*" =
          (strip_suffix_iff pattern (codes ".*") prefix).0 s in
        rw s (
          IsUnder-true prefix topic
            (inr (codes "*", e ∙ whole ∙ sym (append_assoc prefix (codes ".") (codes "*")))))
  ]

topic_matches_iff :
    (rule : AclRule) (topic : Text)
    → (topic_matches rule topic ≡ true) ↔ Names rule.topic_pattern topic
unfolding topic_matches
topic_matches_iff rule topic = elim (Bool-cases (text_eq rule.topic_pattern (codes "*"))) [
  | inl e ↦ (λ _. every ((text_eq_iff _ _).0 e), λ _. rw e)
  | inr e ↦ (
    λ h. under_pattern-Names rule.topic_pattern topic (rw e at h),
    λ n. rw e (Names-under_pattern rule.topic_pattern topic n e),
  )
]

rule_permits_iff :
    (rule : AclRule) (action : AclAction) (topic : Text)
    → (rule_permits rule action topic ≡ true)
      ↔ (Grants rule.action action × Names rule.topic_pattern topic)
unfolding rule_permits
rule_permits_iff rule action topic = (
  λ h.
      let (a, t) = &&_true (action_ok rule.action action) (topic_matches rule topic) h in
      ((action_ok_iff rule.action action).0 a, (topic_matches_iff rule topic).0 t),
  λ (g, n). rw ((action_ok_iff rule.action action).1 g) ((topic_matches_iff rule topic).1 n),
)

-- An access list permits an action on a topic exactly when one of its rules is for that action, or
-- for both, and names the topic: by the pattern `*`, by a pattern `p.*` with the topic `p` or one
-- below it, or by the topic itself.
pub permits_iff :
    (acl : MqttAcl) (action : AclAction) (topic : Text)
    → (permits acl action topic ≡ true)
      ↔ Any
          (λ (rule : AclRule). Grants rule.action action × Names rule.topic_pattern topic)
          acl.rules
unfolding permits
permits_iff acl action topic = go acl.rules
  where
    go :
        (rules : List AclRule)
        → (any (λ r. rule_permits r action topic) rules ≡ true)
          ↔ Any
              (λ (rule : AclRule). Grants rule.action action × Names rule.topic_pattern topic)
              rules
    go [] = (λ h. ground arith, λ e. absurd e)
    go (r ∷ rs) =
        let head = rule_permits_iff r action topic in
        let tail = go rs in
        elim (Bool-cases (rule_permits r action topic)) [
          | inl e ↦ (λ _. inl (head.0 e), λ _. rw e)
          | inr e ↦ (
            λ h. inr (tail.0 (rw e at h)),
            λ s. rw e (elim s [ inl g ↦ absurd (ground (arith, head.1 g)) | inr t ↦ tail.1 t ]),
          )
        ]
