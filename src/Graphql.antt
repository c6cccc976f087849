-- ===== src/Graphql.antt =====
-- crates/themql-graphql/src/lib.rs: the roles and the guard of a field, the bridges to resolvers and
-- handlers, and the fields of the roots. A guard of `async_graphql` runs before its field; the JSON
-- values, the resolver, the handler and the source of subscriptions are parameters.
use the_mql.Base.{
  ℕ, ◌+◌, Bool, true, false, ◌&&◌, Option, none, some, List, [], ◌∷◌, ◌++◌, map, leb, if◌then◌else◌,
  Result, ok, err,
}
use the_mql.Base.Effects.{M, throw, continue, ◌>>=◌, ◌>>◌}
use the_mql.Base.Text.{Text, codes, text_eq}
use the_mql.Core.Context.{Context, new_context}
use the_mql.Core.Error.{Error, validation_error, internal_error, resolver_error}
use the_mql.Core.Message.{Message, new_message, command}
use the_mql.Core.Message
use the_mql.Core.Query.{
  Query, new_query, with_arguments, Resource, parse_resource, Response, ResponseValue, json_value,
  bytes, unit, format_tag_text,
}
use the_mql.Core.Subject.{Subject, SubjectError, subject_error_text, parse_subject}
pub mod Access
mod Tests

pub data AuthRole : Type 0 where
  admin operator observer : AuthRole

-- `AuthRole::satisfies`
unfoldable pub satisfies : AuthRole → AuthRole → Bool
satisfies admin required = true
satisfies operator admin = false
satisfies operator operator = true
satisfies operator observer = true
satisfies observer admin = false
satisfies observer operator = false
satisfies observer observer = true

-- `to_ascii_lowercase`
unfoldable pub to_ascii_lowercase : Text → Text
to_ascii_lowercase [] = []
to_ascii_lowercase (c ∷ s) = (if leb b'A' c && leb c b'Z' then c + 32 else c) ∷ to_ascii_lowercase s

-- `AuthRole::from_str`
unfoldable pub parse_role : Text → Result (Unit {0}) AuthRole
unfolding to_ascii_lowercase text_eq
parse_role s =
    let lower = to_ascii_lowercase s in
    if text_eq lower (codes "admin")
    then ok admin
    else if text_eq lower (codes "operator")
    then ok operator
    else if text_eq lower (codes "observer")
    then ok observer
    else err tt

-- The derived `Debug`.
abbrev pub role_debug : AuthRole → Text
role_debug admin = codes "Admin"
role_debug operator = codes "Operator"
role_debug observer = codes "Observer"

-- `RoleGuard::check`, by the role in the context of the request, if there is one.
unfoldable pub check : AuthRole → Option AuthRole → Result Text (Unit {0})
unfolding satisfies
check required none = err (codes "no auth role in context (auth not enabled?)")
check required (some role) =
    if satisfies role required
    then ok tt
    else err (
        codes "insufficient role: requires "
        ++ role_debug required
        ++ codes ", have "
        ++ role_debug role)

pub data GraphqlError : Type 0 where
  schema_build_failed resolution_failed mapping_error : Text → GraphqlError

-- The `#[error("…")]` texts.
unfoldable pub graphql_error_text : GraphqlError → Text
graphql_error_text (schema_build_failed e) = codes "graphql schema build failed: " ++ e
graphql_error_text (resolution_failed e) = codes "graphql resolution failed: " ++ e
graphql_error_text (mapping_error e) = codes "graphql mapping error: " ++ e

-- `From<GraphqlError> for Error`
unfoldable pub error_of_graphql_error : {J U : Type 0} → GraphqlError → Error J U
unfolding internal_error resolver_error graphql_error_text
error_of_graphql_error (schema_build_failed e) =
    internal_error (graphql_error_text (schema_build_failed e))
error_of_graphql_error (mapping_error e) = internal_error (graphql_error_text (mapping_error e))
error_of_graphql_error (resolution_failed e) =
    resolver_error (graphql_error_text (resolution_failed e))

-- What is used of `serde_json::Value`: null, `{"format": …, "bytes": …}`, `{"pattern": …}` and arrays.
pub record Values (J : Type 0) : Type 0 where
  pub null : J
  pub is_null : J → Bool
  pub of_bytes : Text → List ℕ → J
  pub of_pattern : Text → J
  pub as_array : J → Option (List J)

-- `response_value_to_json`
unfoldable pub response_value_to_json : {J : Type 0} → Values J → ResponseValue J → J
response_value_to_json values (json_value v) = v
response_value_to_json values (bytes b tag) = values.of_bytes (format_tag_text tag) b
response_value_to_json values unit = values.null

-- A result without an effect.
abbrev pub lift : {W E A : Type 0} → Result E A → M W E A
lift r w = (r, w)

-- `.map_err(f)` on an outcome.
abbrev pub map_error : {E F A : Type 0} → (E → F) → Result E A → Result F A
map_error f (ok a) = ok a
map_error f (err e) = err (f e)

abbrev pub fail_with : {W E F A : Type 0} → (E → F) → M W E A → M W F A
fail_with f m w = (map_error f (m w).0, (m w).1)

-- The guard of a field runs first; if it refuses, the field does not run.
abbrev pub after_guard : {W A : Type 0} → Result Text (Unit {0}) → M W Text A → M W Text A
after_guard (ok _) field w = field w
after_guard (err e) field w = (err e, w)

-- The traits `Resolver` and `MessageHandler`, and `GraphqlSubscriptionSource` with its streams `S`.
abbrev pub Resolver : Type 0 → Type 0 → Type 0 → Type 0
Resolver J U W = Query J U → Context U → M W (Error J U) (Response J U)

abbrev pub Handler : Type 0 → Type 0 → Type 0 → Type 0
Handler J U W = Message J U → M W (Error J U) (Response J U)

abbrev pub Source : Type 0 → Type 0 → Type 0 → Type 0 → Type 0
Source J U W S = Subject → M W (Error J U) S

abbrev pub or_null : {J : Type 0} → Values J → Option J → J
or_null values none = values.null
or_null values (some args) = args

-- An array is its items, and any other value is the one item.
abbrev pub items : {J : Type 0} → Values J → J → List J
items values value = elim (values.as_array value) [ some js ↦ js | none ↦ value ∷ [] ]

-- The query of a field: the context is replaced, and arguments that are null are left out.
unfoldable pub field_query : {J U : Type 0} → Values J → Resource → J → Context U → Query J U
unfolding new_query with_arguments
field_query values resource args ctx =
    let query = record (new_query resource) { context = ctx } in
    if values.is_null args then query else with_arguments query args

module _ {J U W : Type 0} (values : Values J) where
  -- `response_value_to_json(response.result?)`
  abbrev pub project : Response J U → M W (Error J U) J
  project response =
      lift response.result >>= λ value. lift (ok (response_value_to_json values value))

  abbrev pub resolve_parsed :
      Resolver J U W → Result SubjectError Resource → J → Context U → M W (Error J U) J
  resolve_parsed resolver (err e) args ctx = throw (validation_error (subject_error_text e))
  resolve_parsed resolver (ok resource) args ctx =
      resolver (field_query values resource args ctx) ctx >>= project

  -- `GraphqlResolverBridgeImpl::resolve_field`
  unfoldable pub resolve_field : Resolver J U W → Text → J → Context U → M W (Error J U) J
  unfolding parse_resource field_query validation_error
  resolve_field resolver field args ctx = resolve_parsed resolver (parse_resource field) args ctx

  abbrev pub dispatch_parsed :
      Handler J U W → Result SubjectError (Message J U) → J → M W (Error J U) J
  dispatch_parsed handler (err e) payload = throw (validation_error (subject_error_text e))
  dispatch_parsed handler (ok msg) payload =
      handler (record msg { payload = Message.json_value payload }) >>= project

  -- `DispatchBridgeImpl::dispatch`, with the identifier that the message gets.
  unfoldable pub dispatch_command : Handler J U W → U → Text → J → M W (Error J U) J
  unfolding new_message validation_error
  dispatch_command handler fresh subject payload =
      dispatch_parsed handler (new_message fresh subject command) payload

  -- `QueryRoot::resource`; the selection is dropped.
  unfoldable pub resource :
      Resolver J U W → Option AuthRole → Text → Option J → Option J → M W Text J
  unfolding check resolve_field
  resource resolver role subject selection args = after_guard (check observer role) (
      fail_with (λ e. e.message) (resolve_field resolver subject (or_null values args) new_context))

  -- `QueryRoot::resources`
  unfoldable pub resources : Resolver J U W → Option AuthRole → Text → M W Text (List J)
  unfolding check resolve_field
  resources resolver role pattern = after_guard (check observer role) (
      fail_with (λ e. e.message)
        (resolve_field resolver (codes "resources") (values.of_pattern pattern) new_context)
      >>= λ value. lift (ok (items values value)))

  -- `MutationRoot::dispatch`
  unfoldable pub dispatch_mutation : Handler J U W → Option AuthRole → U → Text → J → M W Text J
  unfolding check dispatch_command
  dispatch_mutation handler role fresh subject payload =
      after_guard (check operator role)
        (fail_with (λ e. e.message) (dispatch_command handler fresh subject payload))

module _ {J U W S : Type 0} where
  abbrev pub subscribe_parsed : Source J U W S → Result SubjectError Subject → M W Text S
  subscribe_parsed source (err e) = throw (subject_error_text e)
  subscribe_parsed source (ok subject) = fail_with (λ e. e.message) (source subject)

  abbrev pub subscribe_from : Option (Source J U W S) → Text → M W Text S
  subscribe_from none subject = throw (codes "no subscription source configured")
  subscribe_from (some source) subject = subscribe_parsed source (parse_subject subject)

  -- `SubscriptionRoot::subscribe`
  unfoldable pub subscribe_field : Option (Source J U W S) → Option AuthRole → Text → M W Text S
  unfolding check parse_subject
  subscribe_field source role subject =
      after_guard (check observer role) (subscribe_from source subject)
