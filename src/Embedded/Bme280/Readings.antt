-- ===== src/Embedded/Bme280/Readings.antt =====
-- crates/themql-embedded/src/sensors/bme280.rs: what a reading of the barometer holds.
use the_mql.Base.{
  ℕ, ◌+◌, ◌*◌, ◌/◌, ◌^◌, ◌<◌, Bool, true, false, not, Option, none, some, List, [], ◌∷◌, length,
  get_or, ok, ◌≡◌, refl, subst, ◌∙◌, if◌then◌else◌, arith,
}
use the_mql.Base.Int.{ℤ, pos, leb_ℤ}
use the_mql.Base.Words.{
  bits, bits-lt, signed, wrap, asr, to_le_bytes, of_le_bytes, of_le_bytes-bits, wrap-wrap,
}
use the_mql.Embedded.Bus.{I2c}
use the_mql.Embedded.Sensors.{SensorReading, barometer}
use the_mql.Embedded.Bme280.{
  Bme280, Bme280Calib, compensate_temp, compensate_pressure, compensate_humidity, limited,
  corrected, corrected_if, pack_reading, u32_from_3, read, i32, reading_of,
}

-- The integer of 32 bits at an offset, the lowest byte first.
abbrev pub i32_at : List ℕ → ℕ → ℤ
i32_at raw off =
    of_le_bytes (get_or raw off 0) (get_or raw (off + 1) 0) (get_or raw (off + 2) 0)
      (get_or raw (off + 3) 0)

-- The value is one of 32 bits.
abbrev IsI32 : ℤ → Type 0
IsI32 z = wrap 32 z ≡ z

zero-IsI32 : IsI32 (pos 0)
unfolding wrap
zero-IsI32 = refl

most-IsI32 : IsI32 (pos 1_000_000)
unfolding wrap
most-IsI32 = refl

signed-asr : (r : ℕ) → r < 2 ^ 32 → IsI32 (asr (signed 32 r) 8)
unfolding wrap asr
signed-asr r h = ground arith

wrap-asr : (z : ℤ) → IsI32 (asr (wrap 32 z) 8)
unfolding wrap
wrap-asr z = signed-asr (bits 32 z) (bits-lt z)

corrected-IsI32 : (c : Bme280Calib) (p : ℤ) → IsI32 (corrected c p)
unfolding corrected
corrected-IsI32 c p = wrap-wrap _

pressure-IsI32 :
    (b : Bool) (c : Bme280Calib) (q : Option ℤ) (p : ℤ)
    → (if b then some (pos 0) else corrected_if c q) ≡ some p
    → IsI32 p
pressure-IsI32 true c q p h = subst IsI32 (cc) zero-IsI32
pressure-IsI32 false c none p h = cc
pressure-IsI32 false c (some q) p h = subst IsI32 (cc) (corrected-IsI32 c q)

limits-IsI32 :
    (a b c : Bool) (v : ℤ)
    → IsI32 (if a then pos 0 else if b then pos 0 else if c then pos 1_000_000 else i32 v)
limits-IsI32 true b c v = zero-IsI32
limits-IsI32 false true c v = zero-IsI32
limits-IsI32 false false true v = most-IsI32
limits-IsI32 false false false v = wrap-wrap v

limited-IsI32 : (h v : ℤ) → IsI32 (limited h v)
unfolding limited
limited-IsI32 h v =
    limits-IsI32 (not (leb_ℤ (pos 0) h)) (not (leb_ℤ v (pos 4_294_967_296)))
      (not (leb_ℤ v (pos 1_000_000))) v

-- The reading is a barometer's of twelve bytes in a buffer of 32, and these are the three values.
pub record Holds (t p h : ℤ) (reading : SensorReading) : Type 0 where
  pub of_barometer : reading.kind ≡ barometer
  pub sized : (reading.len ≡ 12) × (length reading.raw ≡ 32)
  pub temperature : i32_at reading.raw 0 ≡ t
  pub pressure : i32_at reading.raw 4 ≡ p
  pub humidity : i32_at reading.raw 8 ≡ h

pack_reading-Holds : (t p h : ℤ) → IsI32 t → IsI32 p → IsI32 h → Holds t p h (pack_reading t p h)
unfolding pack_reading to_le_bytes
pack_reading-Holds t p h it ip ih = record {
  of_barometer = refl;
  sized = (omega arith, omega arith);
  temperature = of_le_bytes-bits t ∙ it;
  pressure = of_le_bytes-bits p ∙ ip;
  humidity = of_le_bytes-bits h ∙ ih;
}

temp-IsI32 : {B : Type 0} (dev : Bme280 B) (raw : ℕ) → IsI32 (compensate_temp dev raw).0
unfolding compensate_temp
temp-IsI32 dev raw = wrap-asr _

pressed-IsI32 :
    {B : Type 0} (dev : Bme280 B) (raw : ℕ) (p : ℤ) → compensate_pressure dev raw ≡ some p → IsI32 p
unfolding compensate_pressure
pressed-IsI32 dev raw p h = pressure-IsI32 _ dev.calib _ p h

humid-IsI32 : {B : Type 0} (dev : Bme280 B) (raw : ℕ) → IsI32 (compensate_humidity dev raw)
unfolding compensate_humidity
humid-IsI32 dev raw = search limited-IsI32

module _ {B : Type 0} (bus : I2c B) where
  reading_of-eq :
      (buf : ℕ → ℕ) (dev : Bme280 B) (p : ℤ)
      → let (t, warm) = compensate_temp dev (u32_from_3 buf 3 / 16) in
        compensate_pressure warm (u32_from_3 buf 0 / 16) ≡ some p
        → reading_of bus buf dev
          ≡ some (ok (pack_reading t p (compensate_humidity warm (buf 6 * 256 + buf 7))), warm)
  reading_of-eq buf dev p q = rw (q, reading_of)

  -- Where the bus delivers the data and no quotient panics, a read returns a reading of twelve bytes
  -- that decodes to the compensated temperature, pressure and humidity, the latter two at the fine
  -- temperature of this read, which is kept.
  pub read-Holds :
      (dev : Bme280 B) (buf : ℕ → ℕ) (after : B) (p : ℤ)
      → bus.write_read dev.addr (0xF7 ∷ []) dev.i2c ≡ (ok buf, after)
      → let filled = record dev { i2c = after } in
        let (t, warm) = compensate_temp filled (u32_from_3 buf 3 / 16) in
        compensate_pressure warm (u32_from_3 buf 0 / 16) ≡ some p
        → (reading : SensorReading) × (read bus dev ≡ some (ok reading, warm))
          × Holds t p (compensate_humidity warm (buf 6 * 256 + buf 7)) reading
  unfolding read
  read-Holds dev buf after p h q =
      let filled = record dev { i2c = after } in
      let warm = (compensate_temp filled (u32_from_3 buf 3 / 16)).1 in
      (
        _,
        rw h (reading_of-eq buf filled p q),
        pack_reading-Holds _ p _ (temp-IsI32 filled _) (pressed-IsI32 warm _ p q)
            (humid-IsI32 warm _),
      )
