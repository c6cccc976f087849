-- ===== src/Desktop/Tests.antt =====
-- crates/themql-desktop/src/main.rs: requests with a token in either header, and a job.
use the_mql.Base.{ℕ, ◌+◌, none, some, ok, List, [], ◌∷◌, ◌≡◌, ◌⊎◌, false, if◌then◌else◌, refl}
use the_mql.Base.Effects.{◌>>=◌}
use the_mql.Base.Text.{Text, codes, text_eq}
use the_mql.Core.Query.{json_value}
use the_mql.Core.Subject.{Subject, parse_subject}
use the_mql.Graphql.{
  admin, operator, observer, parse_role, Values, Handler, dispatch_mutation, fail_with, project,
}
use the_mql.Graphql.Access.{IsMalformed, IsRefused, command_to}
use the_mql.Desktop.{
  HeaderMap, BetterAuth, trim, extract_session_token, resolve_role_from_headers, enqueue,
  pending_count,
}
use the_mql.Desktop.Session.{HasRole, dispatch_mutation-authed}

abbrev headers : HeaderMap
headers = record {
  authorization = some (codes "Bearer ");
  cookie = some (codes "theme=dark; session=cookie-token-456");
}

abbrev auth : BetterAuth
auth = record {
  cookie_name = codes "session";
  session_user =
      λ token. if text_eq token (codes "cookie-token-456") then some (codes "u1") else none;
  user_role = λ user. some (some (codes "Operator"));
}

cookie_read : extract_session_token headers (codes "session") ≡ some (codes "cookie-token-456")
unfolding extract_session_token trim
cookie_read = refl

role_read : resolve_role_from_headers auth headers ≡ operator
unfolding resolve_role_from_headers extract_session_token trim parse_role
role_read = refl

abbrev values : Values ℕ
values = record {
  null = 0;
  is_null = λ j. false;
  of_bytes = λ t b. 1;
  of_pattern = λ t. 2;
  as_array = λ j. none;
}

abbrev handler : Handler ℕ ℕ ℕ
handler msg w =
    (ok (record { result = ok (json_value w); correlation_id = record { uuid = 0 } }), w + 1)

dispatch_mutation-authed_example :
    (((resolve_role_from_headers auth headers ≡ observer) ⊎ IsMalformed (codes "car.horn"))
      × IsRefused values handler
          (dispatch_mutation values handler
            (some (resolve_role_from_headers auth headers))
            9
            (codes "car.horn")
            5
            0)
          0)
    ⊎ (((resolve_role_from_headers auth headers ≡ admin)
          ⊎ (resolve_role_from_headers auth headers ≡ operator))
        × HasRole auth headers (resolve_role_from_headers auth headers)
        × ((s : Subject) × (parse_subject (codes "car.horn") ≡ ok s)
            × (dispatch_mutation values handler
                  (some (resolve_role_from_headers auth headers))
                  9
                  (codes "car.horn")
                  5
                  0
                ≡ fail_with
                    (λ e. e.message)
                    (handler (command_to values handler 9 s 5) >>= project values)
                    0)))
dispatch_mutation-authed_example =
    dispatch_mutation-authed values handler auth headers 9 (codes "car.horn") 5 0

abbrev jobs : List (Text × ℕ)
jobs = (codes "prune", 4) ∷ []

enqueued : pending_count (enqueue {U = ℕ} (codes "train") 7 jobs).1 ≡ 2
unfolding enqueue pending_count
enqueued = refl
