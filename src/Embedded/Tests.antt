-- ===== src/Embedded/Tests.antt =====
-- crates/themql-embedded/src: runs of the payload formatters and of the GPS receiver.
use the_mql.Base.{
  ℕ, ◌*◌, ◌-◌, true, false, some, List, [], ◌∷◌, ◌++◌, map, ◌≡◌, ◌≢◌, ◌↔◌, refl, arith,
}
use the_mql.Base.Decimal.{decimal, digits_of}
use the_mql.Base.Slices.{take}
use the_mql.Base.Text.{codes}
use the_mql.Embedded.Gps.{
  Neo6m, new_neo6m, failed, nothing, byte, answered_by, judge, read_sentence, validate_checksum,
  find_byte, hex_val, xor_all,
}
use the_mql.Embedded.Gps.Checksum.{IsChecked, validate_checksum_iff}
use the_mql.Embedded.Gps.Framing.{Returns, IsSized, read_sentence-Returns}
use the_mql.Embedded.Gps.Resync.{read_sentence-line}
use the_mql.Embedded.Payload.{
  Floats, low_digits, write_str, write_u64_dec, write_u64_padded, write_f64, format_diagnostics,
  format_state_estimate,
}
use the_mql.Embedded.Payload.Formats.{IsBounded, format_state_estimate-IsBounded}
use the_mql.Embedded.Payload.Gap.{diagnostics_text, format_diagnostics-garbled}
use the_mql.Embedded.Sensors.{zero_bytes}

program : Unit {0}
unfolding low_digits write_str write_u64_dec write_u64_padded write_f64 format_diagnostics
    format_state_estimate decimal digits_of new_neo6m validate_checksum find_byte hex_val xor_all
program = tt

-- Whole numbers in the place of floating-point ones.
abbrev floats : Floats ℕ
floats = record {
  is_negative = λ x. false;
  negate = λ x. x;
  to_u64 = λ x. x;
  of_u64 = λ x. x;
  minus = λ x y. x - y;
  times_million = λ x. x * 1000000;
}

abbrev buffer : List ℕ
buffer = zero_bytes 64

-- The bytes between the fields are those of the buffer, and the closing brace does not fit.
diagnostics :
    format_diagnostics 12345 2 buffer
    ≡ some (
      64,
      codes "{\"cycles\":12345"
          ++ zero_bytes 10
          ++ codes ",\"errors\":"
          ++ zero_bytes 25
          ++ codes "2"
          ++ zero_bytes 3,
    )
unfolding program
diagnostics = refl

format_state_estimate-IsBounded_example :
    IsBounded buffer (format_state_estimate floats (1, 2, 3) (40, 50, 60) buffer)
format_state_estimate-IsBounded_example =
    format_state_estimate-IsBounded floats (1, 2, 3) (40, 50, 60) buffer

format_diagnostics-garbled_example :
    (len : ℕ) × (out : List ℕ) × (format_diagnostics 12345 2 buffer ≡ some (len, out))
    × (take len out ≢ diagnostics_text 12345 2)
unfolding program
format_diagnostics-garbled_example =
    format_diagnostics-garbled 12345 2 buffer (omega arith) (omega arith) (λ e. cc)

abbrev sentence : List ℕ
sentence = codes "$AB*03\r\n"

accepted : validate_checksum sentence ≡ some true
unfolding program
accepted = refl

validate_checksum_iff_example : (validate_checksum sentence ≡ some true) ↔ IsChecked sentence
validate_checksum_iff_example = validate_checksum_iff sentence

abbrev device : Neo6m
device = record { rate_hz = 10; buf = zero_bytes 82; len = 5 }

device-IsSized : IsSized device
device-IsSized = record { size = refl; room = omega arith }

read_sentence-Returns_example :
    Returns (read_sentence (byte 7 ∷ nothing ∷ byte b'$' ∷ failed ∷ []) device)
read_sentence-Returns_example =
    read_sentence-Returns (byte 7 ∷ nothing ∷ byte b'$' ∷ failed ∷ []) device device-IsSized

read_sentence-line_example :
    (next : Neo6m) × (read_sentence
        (byte b'$' ∷ map byte (codes "AB*03\r") ++ byte b'\n' ∷ [])
        device
      ≡ answered_by next [] (judge (b'$' ∷ codes "AB*03\r" ++ b'\n' ∷ [])))
    × IsSized next
read_sentence-line_example =
    read_sentence-line device (codes "AB*03\r") [] device-IsSized
      (
        ((λ e. cc), (λ e. cc)),
        (
          ((λ e. cc), (λ e. cc)),
          (
            ((λ e. cc), (λ e. cc)),
            (((λ e. cc), (λ e. cc)), (((λ e. cc), (λ e. cc)), (((λ e. cc), (λ e. cc)), tt))),
          ),
        ),
      )
      (omega arith) (omega arith)
