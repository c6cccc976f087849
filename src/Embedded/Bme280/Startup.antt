-- ===== src/Embedded/Bme280/Startup.antt =====
-- crates/themql-embedded/src/sensors/bme280.rs: which sensors the driver sets up.
use the_mql.Base.{ℕ, false, [], ◌∷◌, ◌==◌, ok, err, ◌≡◌, ◌≢◌, arith}
use the_mql.Embedded.Bus.{I2c}
use the_mql.Embedded.Sensors.{sensor_not_responding}
use the_mql.Embedded.Bme280.{Bme280, init, read_reg8}

module _ {B : Type 0} (bus : I2c B) where
  -- A chip whose identifier is not 0x60 is refused after that one transfer: nothing is written to it,
  -- and the driver keeps its calibration.
  init_refused :
      (dev : Bme280 B) (buf : ℕ → ℕ) (after : B)
      → bus.write_read dev.addr (0xD0 ∷ []) dev.i2c ≡ (ok buf, after)
      → buf 0 ≢ 0x60
      → init bus dev ≡ (err sensor_not_responding, record dev { i2c = after })
  unfolding init read_reg8
  init_refused dev buf after h n = let e : (buf 0 == 0x60) ≡ false = ground arith in rw (h, e)
