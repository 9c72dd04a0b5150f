-- ===== src/AppSettings.antt =====
-- src/app_settings.c: the settings, which nothing changes at run time, with their limits. A coordinate is the
-- float nearest to the decimal of the source.
use telenode.Prelude.{ℕ, ◌*◌, ◌^◌, Bool, false}
use telenode.Obd.{ℤ, pos}
use telenode.Sensors.Float32.{neg}
use telenode.Sensors.Fixes.{Settings}

-- The statics
abbrev pub loop_delay_s : ℕ
loop_delay_s = 5

abbrev pub gps_delay_s : ℕ
gps_delay_s = 3

abbrev pub fake_gps_enabled_s : Bool
fake_gps_enabled_s = false

abbrev pub fake_gps_latitude_s : ℤ
fake_gps_latitude_s = pos (9906417 * 2 ^ 131)

abbrev pub fake_gps_longitude_s : ℤ
fake_gps_longitude_s = neg (pos (8021663 * 2 ^ 133))

abbrev pub vehicle_speed_delay_s : ℕ
vehicle_speed_delay_s = 1

-- Their getters
abbrev pub get_loop_delay_s : ℕ
get_loop_delay_s = loop_delay_s

abbrev pub get_gps_delay_s : ℕ
get_gps_delay_s = gps_delay_s

abbrev pub get_fake_gps_enabled_s : Bool
get_fake_gps_enabled_s = fake_gps_enabled_s

abbrev pub get_fake_gps_latitude_s : ℤ
get_fake_gps_latitude_s = fake_gps_latitude_s

abbrev pub get_fake_gps_longitude_s : ℤ
get_fake_gps_longitude_s = fake_gps_longitude_s

abbrev pub get_vehicle_speed_delay_s : ℕ
get_vehicle_speed_delay_s = vehicle_speed_delay_s

-- What `process_reading` reads of them.
abbrev pub compiled_in : Settings
compiled_in = record {
  gps_delay_s = get_gps_delay_s;
  fake_gps_enabled = get_fake_gps_enabled_s;
  fake_gps_latitude = get_fake_gps_latitude_s;
  fake_gps_longitude = get_fake_gps_longitude_s;
}
