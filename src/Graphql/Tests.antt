-- ===== src/Graphql/Tests.antt =====
-- crates/themql-graphql/src/lib.rs: requests of each role.
use the_mql.Base.{ok, ◌≡◌, refl}
use the_mql.Base.Text.{codes, text_eq}
use the_mql.Graphql.{operator, parse_role, to_ascii_lowercase}

program : Unit {0}
unfolding parse_role to_ascii_lowercase text_eq
program = tt

parsed : parse_role (codes "OPERATOR") ≡ ok operator
unfolding program
parsed = refl
