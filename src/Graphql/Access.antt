-- ===== src/Graphql/Access.antt =====
-- crates/themql-graphql/src/lib.rs: which requests reach a handler, and with what.
use the_mql.Base.{
  ℕ, ◌≤◌, true, Option, none, some, Result, ok, err, ◌≡◌, ◌↔◌, ◌⊎◌, inl, inr, refl, arith,
  Result-cases,
}
use the_mql.Base.Effects.{◌>>=◌}
use the_mql.Base.Text.{Text}
use the_mql.Core.Message.{Message, json_value, new_message, new_metadata, command}
use the_mql.Core.Subject.{Subject, SubjectError, parse_subject}
use the_mql.Core.Time.{now_monotonic}
use the_mql.Graphql.{
  AuthRole, admin, operator, observer, satisfies, check, Values, Handler, fail_with, project,
  dispatch_command, dispatch_mutation,
}

-- The height of a role.
abbrev pub rank : AuthRole → ℕ
rank observer = 0
rank operator = 1
rank admin = 2

-- A role satisfies exactly those that are not above it.
pub satisfies_iff :
    (role required : AuthRole) → (satisfies role required ≡ true) ↔ (rank required ≤ rank role)
unfolding satisfies
satisfies_iff role required = ground arith

-- The text is no subject.
abbrev pub IsMalformed : Text → Type 0
IsMalformed subject = (e : SubjectError) × (parse_subject subject ≡ err e)

module _ {J U W : Type 0} (values : Values J) (handler : Handler J U W) where
  -- The message that a handler gets: a command to the subject with the payload as JSON.
  abbrev pub command_to : U → Subject → J → Message J U
  command_to fresh subject payload = record {
    id = record { uuid = fresh };
    timestamp = now_monotonic;
    subject = subject;
    operation = command;
    payload = json_value payload;
    metadata = new_metadata;
  }

  -- Nothing ran: there is an error, and the state is as before.
  abbrev pub IsRefused : Result Text J × W → W → Type 0
  IsRefused outcome w = (e : Text) × (outcome ≡ (err e, w))

  dispatch_command-cases :
      (fresh : U) (subject : Text) (payload : J) (w : W)
      → (IsMalformed subject
          × IsRefused
              (fail_with (λ e. e.message) (dispatch_command values handler fresh subject payload) w)
              w)
        ⊎ ((s : Subject) × (parse_subject subject ≡ ok s)
            × (fail_with (λ e. e.message) (dispatch_command values handler fresh subject payload) w
                ≡ fail_with
                    (λ e. e.message)
                    (handler (command_to fresh s payload) >>= project values)
                    w))
  unfolding dispatch_command new_message
  dispatch_command-cases fresh subject payload w = elim (Result-cases (parse_subject subject)) [
    | inl (s, e) ↦ inr (s, e, rw e refl)
    | inr (e, h) ↦ inl ((e, h), rw h (_, refl))
  ]

  -- A dispatch through GraphQL has no role, that of an observer, or a subject that is not well-formed,
  -- and is refused without any effect; or the role of the request is admin or operator, its subject is
  -- well-formed, and the handler runs once, on a command to that subject with the payload of the
  -- request; its error is passed on as its message.
  pub dispatch_mutation-cases :
      (role : Option AuthRole) (fresh : U) (subject : Text) (payload : J) (w : W)
      → ((((role ≡ none) ⊎ (role ≡ some observer)) ⊎ IsMalformed subject)
          × IsRefused (dispatch_mutation values handler role fresh subject payload w) w)
        ⊎ (((role ≡ some admin) ⊎ (role ≡ some operator))
            × ((s : Subject) × (parse_subject subject ≡ ok s)
                × (dispatch_mutation values handler role fresh subject payload w
                    ≡ fail_with
                        (λ e. e.message)
                        (handler (command_to fresh s payload) >>= project values)
                        w)))
  unfolding dispatch_mutation check satisfies
  dispatch_mutation-cases none fresh subject payload w = inl (inl (inl refl), (_, refl))
  dispatch_mutation-cases (some observer) fresh subject payload w = inl (inl (inr refl), (_, refl))
  dispatch_mutation-cases (some admin) fresh subject payload w =
      elim (dispatch_command-cases fresh subject payload w) [
        | inl (m, r) ↦ inl (inr m, r)
        | inr r ↦ inr (inl refl, r)
      ]
  dispatch_mutation-cases (some operator) fresh subject payload w =
      elim (dispatch_command-cases fresh subject payload w) [
        | inl (m, r) ↦ inl (inr m, r)
        | inr r ↦ inr (inr refl, r)
      ]
