-- ===== src/Embedded/Bme280.antt =====
-- crates/themql-embedded/src/sensors/bme280.rs: the barometer. Words wrap, as in a release build; the
-- one quotient that still panics, the least `i64` by -1, is `none`.
use the_mql.Base.{
  ℕ, ◌+◌, ◌*◌, ◌/◌, ◌%◌, Bool, true, false, not, ◌&&◌, Option, none, some, List, [], ◌∷◌, ◌++◌,
  ◌==◌, if◌then◌else◌, Result, ok, err,
}
use Prim.Native.Nat.{bit_or}
use the_mql.Base.Effects.{M, ◌>>=◌, ◌>>◌, return, throw}
use the_mql.Base.Int.{ℤ, pos, negsuc, ◌+ℤ◌, ◌-ℤ◌, ◌*ℤ◌, leb_ℤ}
use the_mql.Base.Text.{Text, codes}
use the_mql.Base.Words.{signed, wrap, asr, div_trunc, to_le_bytes}
use the_mql.Embedded.Bus.{I2c, bus_fault}
use the_mql.Embedded.Sensors.{
  SensorError, sensor_not_responding, SensorReading, barometer, zero_bytes,
}
pub mod Readings
pub mod Startup

pub record Bme280Calib : Type 0 where
  pub t1 : ℤ
  pub t2 : ℤ
  pub t3 : ℤ
  pub p1 : ℤ
  pub p2 : ℤ
  pub p3 : ℤ
  pub p4 : ℤ
  pub p5 : ℤ
  pub p6 : ℤ
  pub p7 : ℤ
  pub p8 : ℤ
  pub p9 : ℤ
  pub h1 : ℤ
  pub h2 : ℤ
  pub h3 : ℤ
  pub h4 : ℤ
  pub h5 : ℤ
  pub h6 : ℤ

pub record Bme280 (B : Type 0) : Type 0 where
  pub i2c : B
  pub addr : ℕ
  pub rate_hz : ℕ
  pub calib : Bme280Calib
  pub t_fine : ℤ

-- `Bme280Calib::default`
abbrev pub default_calib : Bme280Calib
default_calib =
    let o = pos 0 in
    record {
      t1 = o;
      t2 = o;
      t3 = o;
      p1 = o;
      p2 = o;
      p3 = o;
      p4 = o;
      p5 = o;
      p6 = o;
      p7 = o;
      p8 = o;
      p9 = o;
      h1 = o;
      h2 = o;
      h3 = o;
      h4 = o;
      h5 = o;
      h6 = o;
    }

-- `Bme280::with_address`
unfoldable pub with_address : {B : Type 0} → B → ℕ → ℕ → Bme280 B
with_address i2c addr rate_hz = record {
  i2c = i2c;
  addr = addr;
  rate_hz = rate_hz;
  calib = default_calib;
  t_fine = pos 0;
}

-- `Bme280::new`
unfoldable pub new : {B : Type 0} → B → ℕ → Bme280 B
unfolding with_address
new i2c rate_hz = with_address i2c 0x76 rate_hz

abbrev pub i32 : ℤ → ℤ
i32 = wrap 32

abbrev pub i64 : ℤ → ℤ
i64 = wrap 64

-- `u16::from_le_bytes`, `i16::from_le_bytes`
abbrev pub u16_of : ℕ → ℕ → ℤ
u16_of lo hi = pos (lo + hi * 256)

abbrev pub i16_of : ℕ → ℕ → ℤ
i16_of lo hi = signed 16 (lo + hi * 256)

-- `parse_calibration`
unfoldable pub parse_calibration : (ℕ → ℕ) → (ℕ → ℕ) → Bme280Calib
parse_calibration buf1 buf2 = record {
  t1 = u16_of (buf1 0) (buf1 1);
  t2 = i16_of (buf1 2) (buf1 3);
  t3 = i16_of (buf1 4) (buf1 5);
  p1 = u16_of (buf1 6) (buf1 7);
  p2 = i16_of (buf1 8) (buf1 9);
  p3 = i16_of (buf1 10) (buf1 11);
  p4 = i16_of (buf1 12) (buf1 13);
  p5 = i16_of (buf1 14) (buf1 15);
  p6 = i16_of (buf1 16) (buf1 17);
  p7 = i16_of (buf1 18) (buf1 19);
  p8 = i16_of (buf1 20) (buf1 21);
  p9 = i16_of (buf1 22) (buf1 23);
  h1 = pos (buf1 25);
  h2 = i16_of (buf2 0) (buf2 1);
  h3 = pos (buf2 2);
  h4 = pos (bit_or (buf2 3 * 16) (buf2 4 % 16));
  h5 = pos (bit_or (buf2 5 * 16) (buf2 4 / 16));
  h6 = signed 8 (buf2 6);
}

-- `u32_from_3`
unfoldable pub u32_from_3 : (ℕ → ℕ) → ℕ → ℕ
u32_from_3 buf off = bit_or (bit_or (buf off * 65_536) (buf (off + 1) * 256)) (buf (off + 2))

-- `compensate_temp`: the new `t_fine`, and the temperature.
unfoldable pub fine_temp : Bme280Calib → ℕ → ℤ
fine_temp c raw =
    let var1 = i32 (asr (i32 (pos raw)) 3 -ℤ i32 (c.t1 *ℤ pos 2)) in
    let var2 = asr (i32 (var1 *ℤ c.t2)) 11 in
    let var3 = asr (i32 (asr var1 1 *ℤ asr var1 1)) 12 in
    let var3 = asr (i32 (var3 *ℤ c.t3)) 14 in i32 (var2 +ℤ var3)

unfoldable pub compensate_temp : {B : Type 0} → Bme280 B → ℕ → ℤ × Bme280 B
unfolding fine_temp
compensate_temp dev raw =
    let t_fine = fine_temp dev.calib raw in
    (asr (i32 (i32 (t_fine *ℤ pos 5) +ℤ pos 128)) 8, record dev { t_fine = t_fine })

abbrev pub is_zero : ℤ → Bool
is_zero (pos n) = n == 0
is_zero (negsuc n) = false

abbrev pub is_minus_one : ℤ → Bool
is_minus_one (pos n) = false
is_minus_one (negsuc n) = n == 0

abbrev pub is_least : ℤ → Bool
is_least (pos n) = false
is_least (negsuc n) = n == 9_223_372_036_854_775_807

-- `a / b`
abbrev pub quotient : ℤ → ℤ → Option ℤ
quotient a b = if is_least a && is_minus_one b then none else some (div_trunc a b)

-- The last lines of `compensate_pressure`, from the quotient on.
unfoldable pub corrected : Bme280Calib → ℤ → ℤ
corrected c p =
    let var1 = asr (i64 (c.p9 *ℤ i64 (asr p 3 *ℤ asr p 3))) 12 in
    let var2 = asr (i64 (c.p8 *ℤ p)) 13 in i32 (i64 (p +ℤ asr (i64 (i64 (var1 +ℤ var2) +ℤ c.p7)) 4))

abbrev pub corrected_if : Bme280Calib → Option ℤ → Option ℤ
corrected_if c none = none
corrected_if c (some p) = some (corrected c p)

-- `compensate_pressure`
unfoldable pub compensate_pressure : {B : Type 0} → Bme280 B → ℕ → Option ℤ
unfolding corrected
compensate_pressure dev raw =
    let c = dev.calib in
    let var1 = i64 (i64 (dev.t_fine *ℤ pos 4) -ℤ pos 64_000) in
    let var2 = i64 (asr (i64 (var1 *ℤ var1)) 11 *ℤ c.p6) in
    let var2 = i64 (var2 +ℤ i64 (i64 (var1 *ℤ c.p5) *ℤ pos 2)) in
    let var2 = i64 (asr var2 2 +ℤ i64 (c.p4 *ℤ pos 65_536)) in
    let var1 =
      i64 (asr (i64 (c.p3 *ℤ asr (i64 (var1 *ℤ var1)) 13)) 3 +ℤ asr (i64 (c.p2 *ℤ var1)) 1) in
    let var1 = asr var1 18 in
    let var1 = asr (i64 (i64 (pos 32_768 +ℤ var1) *ℤ c.p1)) 15 in
    let p = i64 (i64 (i64 (pos 1_048_576 -ℤ pos raw) -ℤ asr var2 12) *ℤ pos 3_125) in
    if is_zero var1 then some (pos 0) else corrected_if c (quotient (i64 (p *ℤ pos 2)) var1)

-- The tests of `compensate_humidity`; what is computed from a negative `h_x3` is not used.
unfoldable pub limited : ℤ → ℤ → ℤ
limited h_x3 v =
    if not (leb_ℤ (pos 0) h_x3)
    then pos 0
    else if not (leb_ℤ v (pos 4_294_967_296))
    then pos 0
    else if not (leb_ℤ v (pos 1_000_000))
    then pos 1_000_000
    else i32 v

-- `compensate_humidity`
unfoldable pub compensate_humidity : {B : Type 0} → Bme280 B → ℕ → ℤ
compensate_humidity dev raw =
    let c = dev.calib in
    let h = i64 (dev.t_fine -ℤ pos 76_800) in
    let h_x1 = i64 (
      i64 (i64 (i64 (pos raw *ℤ pos 16_384) -ℤ i64 (c.h4 *ℤ pos 1_048_576)) -ℤ i64 (c.h5 *ℤ h))
      +ℤ pos 4_096) in
    let h_x2 = asr (i64 (h_x1 *ℤ c.h6)) 10 in
    let h_x3 = asr (i64 (h_x2 *ℤ c.h3)) 11 in
    let h_x4 = asr (i64 (h_x3 *ℤ h_x3)) 12 in
    let h_x5 = asr (i64 (h_x4 *ℤ pos 16_384)) 10 in
    let h_x6 = i64 (h_x3 +ℤ h_x5) in let v = i64 (asr h_x6 2 *ℤ pos 100) in limited h_x3 v

-- `pack_reading`
unfoldable pub pack_reading : ℤ → ℤ → ℤ → SensorReading
unfolding to_le_bytes
pack_reading temp_c100 press_pa hum_c100 = record {
  kind = barometer;
  raw = to_le_bytes temp_c100 ++ (to_le_bytes press_pa ++ (to_le_bytes hum_c100 ++ zero_bytes 20));
  len = 12;
}

module _ {B : Type 0} (bus : I2c B) where
  -- A transfer of the driver, with the text of its error.
  abbrev pub write_read : List ℕ → Text → M (Bme280 B) SensorError (ℕ → ℕ)
  write_read bytes fault dev =
      let r = bus.write_read dev.addr bytes dev.i2c in
      (bus_fault fault r.0, record dev { i2c = r.1 })

  -- `read_reg8`
  unfoldable pub read_reg8 : ℕ → M (Bme280 B) SensorError ℕ
  read_reg8 reg = do buf ← write_read (reg ∷ []) (codes "i2c read"); return (buf 0)

  -- `write_reg8`
  unfoldable pub write_reg8 : ℕ → ℕ → M (Bme280 B) SensorError (Unit {0})
  write_reg8 reg val dev =
      let r = bus.write dev.addr (reg ∷ val ∷ []) dev.i2c in
      (bus_fault (codes "i2c write") r.0, record dev { i2c = r.1 })

  abbrev pub set_calib : Bme280Calib → M (Bme280 B) SensorError (Unit {0})
  set_calib calib dev = (ok tt, record dev { calib = calib })

  -- `read_calibration`
  unfoldable pub read_calibration : M (Bme280 B) SensorError (Unit {0})
  unfolding parse_calibration
  read_calibration = do
    buf1 ← write_read (0x88 ∷ []) (codes "calib1")
    buf2 ← write_read (0xE1 ∷ []) (codes "calib2")
    set_calib (parse_calibration buf1 buf2)

  -- `configure`
  unfoldable pub configure : M (Bme280 B) SensorError (Unit {0})
  unfolding write_reg8
  configure = do write_reg8 0xF2 0x01; write_reg8 0xF5 0xA0; write_reg8 0xF4 0x27

  abbrev pub set_up : Bool → M (Bme280 B) SensorError (Unit {0})
  set_up false = throw sensor_not_responding
  set_up true = do write_reg8 0xE0 0xB6; read_calibration; configure

  -- `init`
  unfoldable pub init : M (Bme280 B) SensorError (Unit {0})
  unfolding read_reg8 write_reg8 read_calibration configure
  init = do id ← read_reg8 0xD0; set_up (id == 0x60)

  -- What `read` makes of the bytes that it read.
  abbrev pub reading_of : (ℕ → ℕ) → Bme280 B → Option (Result SensorError SensorReading × Bme280 B)
  reading_of buf dev =
      let (temp_c100, warm) = compensate_temp dev (u32_from_3 buf 3 / 16) in
      elim (compensate_pressure warm (u32_from_3 buf 0 / 16)) [
        | none ↦ none
        | some press_pa ↦ some (
          ok (pack_reading temp_c100 press_pa (compensate_humidity warm (buf 6 * 256 + buf 7))),
          warm,
        )
      ]

  abbrev pub read_of :
      Result SensorError (ℕ → ℕ) → Bme280 B → Option (Result SensorError SensorReading × Bme280 B)
  read_of (err e) dev = some (err e, dev)
  read_of (ok buf) dev = reading_of buf dev

  -- `read`
  unfoldable pub read : Bme280 B → Option (Result SensorError SensorReading × Bme280 B)
  unfolding compensate_temp compensate_pressure compensate_humidity limited pack_reading u32_from_3
  read dev = let r = write_read (0xF7 ∷ []) (codes "data read") dev in read_of r.0 r.1
