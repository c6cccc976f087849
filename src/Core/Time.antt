-- ===== src/Core/Time.antt =====
-- crates/themql-core/src/lib.rs: `Timestamp` and `Deadline`. An `i64` is an integer here; no
-- operation of these types does arithmetic on it.
use the_mql.Base.{Bool, true, false, ◌&&◌, ◌≡◌, refl, arith}
use the_mql.Base.Int.{ℤ, pos, leb_ℤ, ◌≤ℤ◌}

pub data TimestampKind : Type 0 where
  monotonic wall_clock : TimestampKind

-- The derived `==`.
unfoldable pub kind_eq : TimestampKind → TimestampKind → Bool
kind_eq monotonic monotonic = true
kind_eq monotonic wall_clock = false
kind_eq wall_clock monotonic = false
kind_eq wall_clock wall_clock = true

pub record Timestamp : Type 0 where
  pub kind : TimestampKind
  pub nanos_since_epoch : ℤ

-- `Timestamp::now_monotonic`, which reads no clock.
unfoldable pub now_monotonic : Timestamp
now_monotonic = record { kind = monotonic; nanos_since_epoch = pos 0 }

-- `Timestamp::now_wall_clock`, which reads no clock either.
unfoldable pub now_wall_clock : Timestamp
now_wall_clock = record { kind = wall_clock; nanos_since_epoch = pos 0 }

pub record Deadline : Type 0 where
  pub kind : TimestampKind
  pub nanos_since_epoch : ℤ

-- `Deadline::is_expired`
unfoldable pub is_expired : Deadline → Timestamp → Bool
unfolding kind_eq
is_expired deadline now =
    kind_eq deadline.kind now.kind && leb_ℤ deadline.nanos_since_epoch now.nanos_since_epoch

kind_eq-eq : (a b : TimestampKind) → kind_eq a b ≡ true → a ≡ b
unfolding kind_eq
kind_eq-eq monotonic monotonic h = refl
kind_eq-eq monotonic wall_clock h = cc
kind_eq-eq wall_clock monotonic h = cc
kind_eq-eq wall_clock wall_clock h = refl

kind_eq_refl : (a : TimestampKind) → kind_eq a a ≡ true
unfolding kind_eq
kind_eq_refl monotonic = refl
kind_eq_refl wall_clock = refl

leb_ℤ_trans : (a b c : ℤ) → leb_ℤ a b ≡ true → b ≤ℤ c → leb_ℤ a c ≡ true
leb_ℤ_trans a b c h k = ground arith

-- A deadline that has expired stays expired at every later timestamp of its kind.
pub is_expired_mono :
    (deadline : Deadline) (now later : Timestamp)
    → is_expired deadline now ≡ true
    → later.kind ≡ now.kind
    → now.nanos_since_epoch ≤ℤ later.nanos_since_epoch
    → is_expired deadline later ≡ true
unfolding is_expired
is_expired_mono deadline now later h k le = rw k (
    ground
      (arith, leb_ℤ_trans deadline.nanos_since_epoch now.nanos_since_epoch later.nanos_since_epoch))
