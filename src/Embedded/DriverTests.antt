-- ===== src/Embedded/DriverTests.antt =====
-- crates/themql-embedded/src/sensors: the barometer with the numbers of its datasheet's example, and
-- both drivers on a bus that keeps what was written to it.
use the_mql.Base.{ℕ, ◌+◌, ◌*◌, ◌/◌, some, List, [], ◌∷◌, ◌++◌, get_or, ok, err, ◌≡◌, refl}
use the_mql.Base.Int.{pos, negsuc, ◌+ℤ◌, ◌-ℤ◌, ◌*ℤ◌}
use the_mql.Base.Words.{wrap, asr, div_trunc}
use the_mql.Embedded.Bus.{I2c}
use the_mql.Embedded.Sensors.{sensor_not_responding, SensorReading}
use the_mql.Embedded.Bme280.{
  Bme280, Bme280Calib, fine_temp, compensate_temp, compensate_pressure, compensate_humidity,
  limited, corrected, u32_from_3, read, default_calib,
}
use the_mql.Embedded.Bme280.Readings.{Holds, read-Holds}
use the_mql.Embedded.Lsm6ds3

abbrev calib : Bme280Calib
calib = record default_calib {
  t1 = pos 27504;
  t2 = pos 26435;
  t3 = negsuc 999;
  p1 = pos 36477;
  p2 = negsuc 10684;
  p3 = pos 3024;
  p4 = pos 2855;
  p5 = pos 140;
  p6 = negsuc 6;
  p7 = pos 15500;
  p8 = negsuc 14599;
  p9 = pos 6000;
  h2 = pos 370;
  h3 = pos 0;
  h4 = pos 313;
  h5 = pos 50;
  h6 = pos 30;
}

abbrev device : Bme280 (List ℕ)
device = record { i2c = []; addr = 0x76; rate_hz = 10; calib = calib; t_fine = pos 128422 }

program : Unit {0}
unfolding fine_temp compensate_temp compensate_pressure corrected compensate_humidity limited wrap
    asr div_trunc ◌+ℤ◌ ◌-ℤ◌ ◌*ℤ◌ u32_from_3
program = tt

-- The fine temperature of the example, 25.08 °C.
fine : fine_temp calib 519888 ≡ pos 128422
unfolding program
fine = refl

-- The datasheet has 100653 Pa here.
pressed : compensate_pressure device 415148 ≡ some (pos 5035723)
unfolding program
pressed = refl

abbrev bytes : List ℕ
bytes = 0x65 ∷ 0x5A ∷ 0xC0 ∷ 0x7E ∷ 0xED ∷ 0 ∷ 0x75 ∷ 0x30 ∷ []

-- The bus answers with these bytes, and keeps the bytes that are written.
abbrev bus : I2c (List ℕ)
bus = record {
  write_read = λ addr out sent. (ok (λ i. get_or bytes i 0), sent);
  write = λ addr out sent. (ok tt, sent ++ out);
}

abbrev warm : Bme280 (List ℕ)
unfolding program
warm = (compensate_temp device (u32_from_3 (λ i. get_or bytes i 0) 3 / 16)).1

read-Holds_example :
    (reading : SensorReading) × (read bus device ≡ some (ok reading, warm))
    × Holds
        (compensate_temp device (u32_from_3 (λ i. get_or bytes i 0) 3 / 16)).0
        (pos 5035723)
        (compensate_humidity warm (0x75 * 256 + 0x30))
        reading
unfolding program
read-Holds_example = read-Holds bus device (λ i. get_or bytes i 0) [] (pos 5035723) refl refl

-- The other sensor is refused as well: its identifier is 0x69.
other : (Lsm6ds3.init bus (Lsm6ds3.new [] 100)).0 ≡ err sensor_not_responding
unfolding Lsm6ds3.init Lsm6ds3.new
other = refl
