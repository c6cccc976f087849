-- ===== src/Embedded/Lsm6ds3.antt =====
-- crates/themql-embedded/src/sensors/lsm6ds3.rs: the driver of the accelerometer and gyroscope. The
-- conversions of a raw value by floating-point numbers, which no driver calls, are left out.
use the_mql.Base.{ℕ, Bool, true, false, List, [], ◌∷◌, ◌++◌, ◌==◌}
use the_mql.Base.Effects.{M, ◌>>=◌, ◌>>◌, return, throw}
use the_mql.Base.Text.{Text, codes}
use the_mql.Embedded.Bus.{I2c, bus_fault}
use the_mql.Embedded.Sensors.{SensorError, sensor_not_responding, SensorReading, imu, zero_bytes}

pub record Lsm6ds3 (B : Type 0) : Type 0 where
  pub i2c : B
  pub addr : ℕ
  pub rate_hz : ℕ

-- `Lsm6ds3::with_address`
unfoldable pub with_address : {B : Type 0} → B → ℕ → ℕ → Lsm6ds3 B
with_address i2c addr rate_hz = record { i2c = i2c; addr = addr; rate_hz = rate_hz }

-- `Lsm6ds3::new`
unfoldable pub new : {B : Type 0} → B → ℕ → Lsm6ds3 B
unfolding with_address
new i2c rate_hz = with_address i2c 0x6A rate_hz

-- The six bytes of a buffer.
abbrev pub six : (ℕ → ℕ) → List ℕ
six buf = buf 0 ∷ buf 1 ∷ buf 2 ∷ buf 3 ∷ buf 4 ∷ buf 5 ∷ []

-- `pack_imu_reading`
unfoldable pub pack_imu_reading : (ℕ → ℕ) → (ℕ → ℕ) → SensorReading
pack_imu_reading accel gyro = record {
  kind = imu;
  raw = six accel ++ (six gyro ++ zero_bytes 20);
  len = 12;
}

module _ {B : Type 0} (bus : I2c B) where
  abbrev pub write_read : List ℕ → Text → M (Lsm6ds3 B) SensorError (ℕ → ℕ)
  write_read bytes fault dev =
      let r = bus.write_read dev.addr bytes dev.i2c in
      (bus_fault fault r.0, record dev { i2c = r.1 })

  -- `read_reg8`
  unfoldable pub read_reg8 : ℕ → M (Lsm6ds3 B) SensorError ℕ
  read_reg8 reg = do buf ← write_read (reg ∷ []) (codes "i2c read"); return (buf 0)

  -- `write_reg8`
  unfoldable pub write_reg8 : ℕ → ℕ → M (Lsm6ds3 B) SensorError (Unit {0})
  write_reg8 reg val dev =
      let r = bus.write dev.addr (reg ∷ val ∷ []) dev.i2c in
      (bus_fault (codes "i2c write") r.0, record dev { i2c = r.1 })

  abbrev pub set_up : Bool → M (Lsm6ds3 B) SensorError (Unit {0})
  set_up false = throw sensor_not_responding
  set_up true = do write_reg8 0x10 0x6A; write_reg8 0x11 0x6C

  -- `init`
  unfoldable pub init : M (Lsm6ds3 B) SensorError (Unit {0})
  unfolding read_reg8 write_reg8
  init = do id ← read_reg8 0x0F; set_up (id == 0x69)

  -- `read`
  unfoldable pub read : M (Lsm6ds3 B) SensorError SensorReading
  unfolding pack_imu_reading
  read = do
    gyro ← write_read (0x22 ∷ []) (codes "gyro read")
    accel ← write_read (0x28 ∷ []) (codes "accel read")
    return (pack_imu_reading accel gyro)
