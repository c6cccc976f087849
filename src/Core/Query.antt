-- ===== src/Core/Query.antt =====
-- crates/themql-core/src/lib.rs: `Predicate`, `Selection`, `Projection`, `Resource`, `Query`,
-- `FormatTag`, `ResponseValue` and `Response`. `J` is `serde_json::Value`, `U` is `uuid::Uuid`.
use the_mql.Base.{
  ℕ, Bool, ◌||◌, Option, none, some, List, [], ◌∷◌, ◌++◌, is_empty, Result, ok, err, ◌>>=◌,
}
use the_mql.Base.Text.{Text, codes}
use the_mql.Core.Context.{CachePolicy, Context, new_context}
use the_mql.Core.Error.{Error}
use the_mql.Core.FieldPath.{FieldPath}
use the_mql.Core.Identity.{CorrelationId}
use the_mql.Core.Subject.{Subject, SubjectError, parse_subject, subject_text}
use the_mql.Core.Time.{Deadline}

pub data Comparison : Type 0 where
  eq ne lt le gt ge in_set contains : Comparison

mutual
  pub data Predicate (J : Type 0) : Type 0 where
    field : FieldPath → Comparison → J → Predicate J
    and : Predicates J → Predicate J
    or : Predicates J → Predicate J
    not : Predicate J → Predicate J

  pub data Predicates (J : Type 0) : Type 0 where
    nil : Predicates J
    cons : Predicate J → Predicates J → Predicates J

pub data Selection (J : Type 0) : Type 0 where
  all : Selection J
  filter : Predicate J → Selection J

pub record Projection : Type 0 where
  pub include : List FieldPath
  pub exclude : List FieldPath

-- `Projection::new`
abbrev pub new_projection : Projection
new_projection = record { include = []; exclude = [] }

-- `Projection::include`
unfoldable pub include : Projection → FieldPath → Projection
include p path = record p { include = p.include ++ path ∷ [] }

-- `Projection::exclude`
unfoldable pub exclude : Projection → FieldPath → Projection
exclude p path = record p { exclude = p.exclude ++ path ∷ [] }

-- `Projection::is_valid`
unfoldable pub is_valid : Projection → Bool
is_valid p = is_empty p.include || is_empty p.exclude

pub record Resource : Type 0 where
  pub subject : Subject

-- `Resource::from_str`
unfoldable pub parse_resource : Text → Result SubjectError Resource
unfolding parse_subject
parse_resource s = do subject ← parse_subject s; ok (record { subject = subject })

-- `Display for Resource`
unfoldable pub resource_text : Resource → Text
resource_text r = subject_text r.subject

pub data FormatTag : Type 0 where
  json bincode postcard : FormatTag
  custom : Text → FormatTag

-- `Display for FormatTag`
unfoldable pub format_tag_text : FormatTag → Text
format_tag_text json = codes "json"
format_tag_text bincode = codes "bincode"
format_tag_text postcard = codes "postcard"
format_tag_text (custom name) = codes "custom:" ++ name

pub data ResponseValue (J : Type 0) : Type 0 where
  json_value : J → ResponseValue J
  bytes : List ℕ → FormatTag → ResponseValue J
  unit : ResponseValue J

pub record Response (J U : Type 0) : Type 0 where
  pub result : Result (Error J U) (ResponseValue J)
  pub correlation_id : CorrelationId U

pub record Query (J U : Type 0) : Type 0 where
  pub resource : Resource
  pub selection : Selection J
  pub arguments : Option J
  pub projection : Option Projection
  pub context : Context U
  pub cache_policy : Option CachePolicy
  pub deadline : Option Deadline

module _ {J U : Type 0} where
  -- `Response::ok`
  unfoldable pub response_ok : ResponseValue J → CorrelationId U → Response J U
  response_ok value id = record { result = ok value; correlation_id = id }

  -- `Response::err`
  unfoldable pub response_err : Error J U → CorrelationId U → Response J U
  response_err error id = record { result = err error; correlation_id = id }

  -- `Query::new`
  unfoldable pub new_query : Resource → Query J U
  new_query resource = record {
    resource = resource;
    selection = all;
    arguments = none;
    projection = none;
    context = new_context;
    cache_policy = none;
    deadline = none;
  }

  -- `with_selection`, `with_projection`, `with_arguments`
  unfoldable pub with_selection : Query J U → Selection J → Query J U
  with_selection q s = record q { selection = s }

  unfoldable pub with_projection : Query J U → Projection → Query J U
  with_projection q p = record q { projection = some p }

  unfoldable pub with_arguments : Query J U → J → Query J U
  with_arguments q args = record q { arguments = some args }
