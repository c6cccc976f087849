-- ===== src/Desktop/Session.antt =====
-- crates/themql-desktop/src/main.rs: whose commands reach a handler through the gateway.
use the_mql.Base.{
  Option, none, some, ok, ◌≡◌, ◌⊎◌, inl, inr, refl, sym, ap, ◌∙◌, Option-cases, Result-cases,
}
use the_mql.Base.Effects.{◌>>=◌}
use the_mql.Base.Text.{Text}
use the_mql.Core.Subject.{Subject, parse_subject}
use the_mql.Graphql.{
  AuthRole, admin, operator, observer, parse_role, Values, Handler, fail_with, project,
  dispatch_mutation,
}
use the_mql.Graphql.Access.{IsMalformed, IsRefused, command_to, dispatch_mutation-cases}
use the_mql.Desktop.{
  HeaderMap, BetterAuth, extract_session_token, parsed_role, named_role, role_of_user,
  role_of_token, resolve_role_from_headers,
}

-- The headers carry the token of a session, whose user has a name of this role.
abbrev pub HasRole : BetterAuth → HeaderMap → AuthRole → Type 0
HasRole auth headers role =
    (token : Text) × (user : Text) × (name : Text) × (extract_session_token headers auth.cookie_name
      ≡ some token)
    × (auth.session_user token ≡ some user)
    × (auth.user_role user ≡ some (some name))
    × (parse_role name ≡ ok role)

named_role-cases :
    (role : Option (Option Text))
    → (named_role role ≡ observer)
      ⊎ ((name : Text) × (role ≡ some (some name)) × (parse_role name ≡ ok (named_role role)))
named_role-cases none = inl refl
named_role-cases (some none) = inl refl
named_role-cases (some (some name)) = elim (Result-cases (parse_role name)) [
  | inl (role, p) ↦ inr (name, refl, p ∙ ap ok (sym (ap parsed_role p)))
  | inr (_, p) ↦ inl (ap parsed_role p)
]

-- A request is an observer's, or its headers show its role.
resolve_role-cases :
    (auth : BetterAuth) (headers : HeaderMap)
    → (resolve_role_from_headers auth headers ≡ observer)
      ⊎ HasRole auth headers (resolve_role_from_headers auth headers)
unfolding resolve_role_from_headers
resolve_role-cases auth headers =
    elim (Option-cases (extract_session_token headers auth.cookie_name)) [
      | inl t ↦ inl (ap (role_of_token auth) t)
      | inr (token, t) ↦ elim (Option-cases (auth.session_user token)) [
        | inl u ↦ inl (ap (role_of_token auth) t ∙ ap (role_of_user auth) u)
        | inr (user, u) ↦
            let q = ap (role_of_token auth) t ∙ ap (role_of_user auth) u in
            elim (named_role-cases (auth.user_role user)) [
              | inl r ↦ inl (q ∙ r)
              | inr (name, r, p) ↦ inr (token, user, name, t, u, r, p ∙ ap ok (sym q))
            ]
      ]
    ]

command_role :
    (role : AuthRole)
    → (some role ≡ some admin) ⊎ (some role ≡ some operator)
    → (role ≡ admin) ⊎ (role ≡ operator)
command_role role (inl a) = inl cc
command_role role (inr a) = inr cc

refusal {ℓ} :
    {A : Type ℓ} (role : AuthRole)
    → ((some role ≡ none) ⊎ (some role ≡ some observer)) ⊎ A
    → (role ≡ observer) ⊎ A
refusal role (inl (inl a)) = cc
refusal role (inl (inr a)) = inl cc
refusal role (inr a) = inr a

known {ℓ} :
    {A : Type ℓ} {role : AuthRole} → (role ≡ observer) ⊎ A → (role ≡ admin) ⊎ (role ≡ operator) → A
known (inr a) _ = a
known (inl o) (inl a) = cc
known (inl o) (inr a) = cc

module _ {J U W : Type 0} (values : Values J) (handler : Handler J U W) where
  -- A request to dispatch through the gateway shows the role of an observer, or its subject is not
  -- well-formed, and it is refused without any effect; or its headers carry the token of a session,
  -- whose user has the name of the role of an admin or an operator, its subject is well-formed, and
  -- the handler runs once, on a command to that subject with the payload of the request; its error
  -- is passed on as its message. So the commands of an operator run on every well-formed subject,
  -- also on those that are not under `vehicle`.
  pub dispatch_mutation-authed :
      (auth : BetterAuth) (headers : HeaderMap) (fresh : U) (subject : Text) (payload : J) (w : W)
      → let role = resolve_role_from_headers auth headers in
        (((role ≡ observer) ⊎ IsMalformed subject)
          × IsRefused values handler
              (dispatch_mutation values handler (some role) fresh subject payload w)
              w)
        ⊎ (((role ≡ admin) ⊎ (role ≡ operator))
            × HasRole auth headers role
            × ((s : Subject) × (parse_subject subject ≡ ok s)
                × (dispatch_mutation values handler (some role) fresh subject payload w
                    ≡ fail_with
                        (λ e. e.message)
                        (handler (command_to values handler fresh s payload) >>= project values)
                        w)))
  dispatch_mutation-authed auth headers fresh subject payload w =
      let role = resolve_role_from_headers auth headers in
      elim (dispatch_mutation-cases values handler (some role) fresh subject payload w) [
        | inl (why, r) ↦ inl (refusal role why, r)
        | inr (a, runs) ↦
            let c = command_role role a in inr (c, known (resolve_role-cases auth headers) c, runs)
      ]
