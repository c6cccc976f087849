-- ===== src/Embedded/Payload/Formats.antt =====
-- crates/themql-embedded/src/mqtt.rs: the two formatters never leave the buffer.
use the_mql.Base.{
  ℕ, ◌≤◌, min, some, none, List, length, ltb, ◌≡◌, refl, arith, Bool-cases, inl, inr,
}
use the_mql.Base.Text.{codes}
use the_mql.Embedded.Payload.{
  Written, ◌then_write◌, Floats, capped, format_diagnostics, format_state_estimate,
}
use the_mql.Embedded.Payload.Bounds.{
  Fits, then-Fits, write_str-IsSafe, write_u64_dec-IsSafe, write_f64_array-IsSafe, add_len-IsSafe,
}

-- A formatter that returned: its length is within the buffer, which keeps its size.
abbrev pub IsBounded : List ℕ → Written → Type 0
IsBounded buf r =
    (len : ℕ) × (out : List ℕ) × (r ≡ some (len, out))
    × (len ≤ length buf)
    × (length out ≡ length buf)

capped-IsBounded : (buf : List ℕ) (r : Written) → Fits 0 buf r → IsBounded buf (r then_write capped)
capped-IsBounded buf none f = absurd f
capped-IsBounded buf (some (o, out)) f = (min o (length out), out, refl, omega (arith, f.0), f.0)

-- On every buffer and for all counts, `format_diagnostics` returns without an access outside the
-- buffer, the length that it returns is at most that of the buffer, and the buffer keeps its size.
pub format_diagnostics-IsBounded :
    (cycle_count error_count : ℕ) (buf : List ℕ)
    → IsBounded buf (format_diagnostics cycle_count error_count buf)
unfolding format_diagnostics
format_diagnostics-IsBounded cycle_count error_count buf = elim (Bool-cases (ltb (length buf) 32)) [
  | inl e ↦ rw e (0, buf, refl, omega arith, refl)
  | inr e ↦ rw e (
      capped-IsBounded buf _ (
        then-Fits 0 buf _ _
          (then-Fits 0 buf _ _
            (then-Fits 0 buf _ _
              (then-Fits 0 buf _ _
                (add_len-IsSafe _ (write_str-IsSafe (codes "{\"cycles\":")) 0 buf)
                (add_len-IsSafe _ (write_u64_dec-IsSafe cycle_count)))
              (add_len-IsSafe _ (write_str-IsSafe (codes ",\"errors\":"))))
            (add_len-IsSafe _ (write_u64_dec-IsSafe error_count)))
          (add_len-IsSafe _ (write_str-IsSafe (codes "}")))))
]

-- The same of `format_state_estimate`, for all positions and velocities and whatever the floating-point
-- operations return: no access leaves the buffer, and the length is at most that of the buffer.
pub format_state_estimate-IsBounded :
    {F : Type 0} (floats : Floats F) (pos vel : F × F × F) (buf : List ℕ)
    → IsBounded buf (format_state_estimate floats pos vel buf)
unfolding format_state_estimate
format_state_estimate-IsBounded floats (px, py, pz) (vx, vy, vz) buf =
    elim (Bool-cases (ltb (length buf) 32)) [
      | inl e ↦ rw e (0, buf, refl, omega arith, refl)
      | inr e ↦ rw e (
          capped-IsBounded buf _ (
            then-Fits 0 buf _ _
              (then-Fits 0 buf _ _
                (then-Fits 0 buf _ _
                  (then-Fits 0 buf _ _
                    (add_len-IsSafe _ (write_str-IsSafe (codes "{\"pos\":")) 0 buf)
                    (add_len-IsSafe _ (write_f64_array-IsSafe floats px py pz)))
                  (add_len-IsSafe _ (write_str-IsSafe (codes ",\"vel\":"))))
                (add_len-IsSafe _ (write_f64_array-IsSafe floats vx vy vz)))
              (add_len-IsSafe _ (write_str-IsSafe (codes "}")))))
    ]
