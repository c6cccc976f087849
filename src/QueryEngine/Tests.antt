-- ===== src/QueryEngine/Tests.antt =====
-- crates/themql-query/src/lib.rs: runs with a resolver that answers 42, and a cache that is a list.
use the_mql.Base.{
  ℕ, suc, true, Option, none, some, List, [], ◌∷◌, ok, err, ◌≡◌, refl, ◌↔◌, if◌then◌else◌,
}
use the_mql.Base.Int.{pos}
use the_mql.Base.Text.{
  starts_with_char, ends_with_char, contains, split, codes, Without, text_eq, text_eq_refl,
}
use the_mql.Core.Context.{Context, new_context, disabled_policy, default_policy, is_cancelled}
use the_mql.Core.Error.{timeout}
use the_mql.Core.Query.{
  Query, Response, Selection, json_value, new_query, with_projection, Projection,
}
use the_mql.Core.Subject.{Subject, parse_subject, is_segment_char}
use the_mql.Core.Subject.Grammar.{parse_subject-eq-ok, IsWellFormed}
use the_mql.Core.Time.{Deadline, wall_clock}
use the_mql.QueryEngine.Executor.{QueryCache, DefaultQueryExecutor, past_deadline, execute}
use the_mql.QueryEngine.Executor.Caching.{IsLive, IsCached, execute_again}
use the_mql.QueryEngine.Executor.Runs.{Runs}
use the_mql.QueryEngine.Executor.Runs.Exact.{execute_iff}
use the_mql.QueryEngine.Key.{CacheKey, Encoding, or_default, arguments_json, key_material, key}
use the_mql.QueryEngine.Key.Material.{key_material_iff}

-- The state: how often the resolver ran, and what the cache holds.
abbrev World : Type 0
World = ℕ × List (CacheKey × Response ℕ ℕ)

abbrev find : CacheKey → List (CacheKey × Response ℕ ℕ) → Option (Response ℕ ℕ)
find k [] = none
find k ((j, r) ∷ rest) = if text_eq j.hash k.hash then some r else find k rest

abbrev cache : QueryCache ℕ ℕ World
cache = record { get = λ k w. (ok (find k w.1), w); put = λ k r w. (ok tt, (w.0, (k, r) ∷ w.1)) }

abbrev encoding : Encoding ℕ
encoding = record {
  blake3 = λ bytes. bytes;
  selection_json = λ _. some (codes "all");
  value_json = λ n. some (n ∷ []);
}

abbrev resolved : Response ℕ ℕ
resolved = record { result = ok (json_value 42); correlation_id = record { uuid = 1 } }

abbrev exec : DefaultQueryExecutor ℕ ℕ World
exec = record {
  resolver = λ q ctx w. (ok resolved, (suc w.0, w.1));
  cache = some cache;
  keyer = encoding;
}

abbrev failing : DefaultQueryExecutor ℕ ℕ World
failing = record exec { resolver = λ q ctx w. (err (timeout (codes "slow")), (suc w.0, w.1)) }

abbrev engine : Subject
engine = record { segments = record { text = codes "car" } ∷ record { text = codes "rpm" } ∷ [] }

abbrev query : Query ℕ ℕ
query = new_query (record { subject = engine })

abbrev start : World
start = (0, [])

abbrev warm : World
warm = (1, (key encoding query, resolved) ∷ [])

abbrev cancelled : Context ℕ
cancelled = record new_context { cancellation = record { cancelled = true } }

abbrev overdue : Deadline
overdue = record { kind = wall_clock; nanos_since_epoch = pos 0 }

abbrev late : Context ℕ
late = record new_context { deadline = some overdue }

abbrev uncached : Context ℕ
uncached = record new_context { cache_policy = disabled_policy }

abbrev bypassing : Context ℕ
bypassing = record new_context { cache_policy = record default_policy { bypass = true } }

program : Unit {0}
unfolding is_cancelled past_deadline key key_material text_eq is_segment_char parse_subject
    starts_with_char ends_with_char contains split
program = tt

cached : IsCached exec cache new_context
cached = record { there = refl; enabled = refl; read = refl }

failing-IsCached : IsCached failing cache new_context
failing-IsCached = record { there = refl; enabled = refl; read = refl }

live : IsLive exec query new_context start
unfolding program
live = (refl, refl)

live_failing : IsLive failing query new_context start
unfolding program
live_failing = (refl, refl)

live_warm : IsLive exec query new_context warm
unfolding program
live_warm = (refl, refl)

live_uncached : IsLive exec query uncached start
unfolding program
live_uncached = (refl, refl)

live_bypassing : IsLive exec query bypassing start
unfolding program
live_bypassing = (refl, refl)

find_first :
    (k : CacheKey) (r : Response ℕ ℕ) (w : World)
    → (cache.get k (cache.put k r w).1).0 ≡ ok (some r)
find_first k r w = rw (text_eq_refl k.hash)

found : cache.get (key encoding query) warm ≡ (ok (some resolved), warm)
found = rw (text_eq_refl (key encoding query).hash)

stopped : is_cancelled cancelled.cancellation ≡ true
unfolding program
stopped = refl

execute_iff_example :
    (execute exec query late start ≡ (ok resolved, warm))
    ↔ Runs exec query late start (ok resolved) warm
execute_iff_example = execute_iff exec query late start warm (ok resolved)

abbrev only_unit : Projection
only_unit = record { include = record { segments = codes "unit" ∷ [] } ∷ []; exclude = [] }

execute_again_example :
    execute exec
      (with_projection query only_unit)
      new_context
      (execute exec query new_context start).1
    ≡ (ok resolved, (cache.get (key encoding query) (execute exec query new_context start).1).1)
execute_again_example =
    execute_again exec cache query only_unit new_context start start (1, []) resolved find_first
      live cached refl refl

parsed : parse_subject (codes "car.rpm") ≡ ok engine
unfolding program
parsed = refl

engine-IsWellFormed : IsWellFormed engine
engine-IsWellFormed = (parse_subject-eq-ok (codes "car.rpm") engine parsed).0

no_zero : (s : Selection ℕ) → Without 0 (or_default (encoding.selection_json s))
no_zero s = ((λ e. cc), ((λ e. cc), ((λ e. cc), tt)))

abbrev projected : Query ℕ ℕ
projected = record query { projection = some only_unit }

key_material_iff_example : (key_material encoding query ≡ key_material encoding projected) ↔ (
    (query.resource.subject ≡ projected.resource.subject)
    × (or_default (encoding.selection_json query.selection)
        ≡ or_default (encoding.selection_json projected.selection))
    × (arguments_json encoding query.arguments ≡ arguments_json encoding projected.arguments))
unfolding new_query
key_material_iff_example =
    key_material_iff encoding query projected no_zero engine-IsWellFormed engine-IsWellFormed

abbrev octets : List ℕ
octets = 255 ∷ 16 ∷ []
