-- ===== src/Desktop.antt =====
-- crates/themql-desktop/src/main.rs: the role of a request to the GraphQL gateway, and the queue of
-- jobs. The sessions and the users of `better_auth` are a parameter.
use the_mql.Base.{
  ℕ, Bool, true, false, ◌||◌, ◌&&◌, Option, none, some, List, [], ◌∷◌, ◌++◌, is_empty, length, leb,
  ◌==◌, if◌then◌else◌, Result, ok, err,
}
use the_mql.Base.Effects.{M}
use the_mql.Base.Slices.{take, reverse}
use the_mql.Base.Text.{Text, codes, split, strip_prefix}
use the_mql.Core.Error.{Error}
use the_mql.Graphql.{AuthRole, observer, parse_role}
pub mod Session
mod Tests

-- The two headers that are looked at, where they are there and are text.
pub record HeaderMap : Type 0 where
  pub authorization : Option Text
  pub cookie : Option Text

-- `char::is_whitespace`
abbrev pub is_whitespace : ℕ → Bool
is_whitespace c =
    (leb 9 c && leb c 13)
    || (c == 32)
    || (c == 133)
    || (c == 160)
    || (c == 5760)
    || (leb 8192 c && leb c 8202)
    || (c == 8232)
    || (c == 8233)
    || (c == 8239)
    || (c == 8287)
    || (c == 12288)

unfoldable pub trim_start : Text → Text
trim_start [] = []
trim_start (c ∷ s) = let rest = trim_start s in if is_whitespace c then rest else c ∷ s

-- `str::trim`
unfoldable pub trim : Text → Text
unfolding trim_start
trim s = reverse (trim_start (reverse (trim_start s)))

-- A token that is not empty.
abbrev pub nonempty : Option Text → Option Text
nonempty none = none
nonempty (some token) = if is_empty token then none else some token

-- The token of `Authorization: Bearer <token>`.
abbrev pub bearer_token : Option Text → Option Text
bearer_token none = none
bearer_token (some auth_str) = nonempty (strip_prefix auth_str (codes "Bearer "))

-- The first cookie of the name with a value.
unfoldable pub find_cookie : Text → List Text → Option Text
unfolding trim
find_cookie prefix [] = none
find_cookie prefix (part ∷ parts) =
    let rest = find_cookie prefix parts in
    elim (nonempty (strip_prefix (trim part) prefix)) [ some value ↦ some value | none ↦ rest ]

abbrev pub cookie_token : Text → Option Text → Option Text
cookie_token cookie_name none = none
cookie_token cookie_name (some cookie_str) =
    find_cookie (cookie_name ++ codes "=") (split cookie_str b';')

-- `extract_session_token`
unfoldable pub extract_session_token : HeaderMap → Text → Option Text
unfolding find_cookie split
extract_session_token headers cookie_name = elim (bearer_token headers.authorization) [
  | some token ↦ some token
  | none ↦ cookie_token cookie_name headers.cookie
]

-- `better_auth`: the identifier of the user of the session of a token, and the role, which need not
-- be set, of the user of an identifier; each if it is there and no error is met.
pub record BetterAuth : Type 0 where
  pub cookie_name : Text
  pub session_user : Text → Option Text
  pub user_role : Text → Option (Option Text)

abbrev pub parsed_role : Result (Unit {0}) AuthRole → AuthRole
parsed_role (ok role) = role
parsed_role (err _) = observer

abbrev pub named_role : Option (Option Text) → AuthRole
named_role none = observer
named_role (some none) = observer
named_role (some (some name)) = parsed_role (parse_role name)

abbrev pub role_of_user : BetterAuth → Option Text → AuthRole
role_of_user auth none = observer
role_of_user auth (some user) = named_role (auth.user_role user)

abbrev pub role_of_token : BetterAuth → Option Text → AuthRole
role_of_token auth none = observer
role_of_token auth (some token) = role_of_user auth (auth.session_user token)

-- `resolve_role_from_headers`
unfoldable pub resolve_role_from_headers : BetterAuth → HeaderMap → AuthRole
resolve_role_from_headers auth headers =
    role_of_token auth (extract_session_token headers auth.cookie_name)

-- `InMemoryJobQueue`, of which the lock is never poisoned.
abbrev pub InMemoryJobQueue : Type 0 → Type 0
InMemoryJobQueue J = List (Text × J)

-- `InMemoryJobQueue::enqueue`
unfoldable pub enqueue : {J U : Type 0} → Text → J → M (InMemoryJobQueue J) (Error J U) (Unit {0})
enqueue name payload jobs = (ok tt, jobs ++ (name, payload) ∷ [])

-- `InMemoryJobQueue::pending_count`
unfoldable pub pending_count : {J : Type 0} → InMemoryJobQueue J → ℕ
pending_count jobs = length jobs
