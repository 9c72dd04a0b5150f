-- ===== src/Sensors/Coord.antt =====
-- `coord_to_minmea` of src/app_sensors.c: a coordinate in degrees as minmea keeps it, in 1 / 100000 of a minute
-- with the degrees in front (DDDMM.MMMMM).
pub mod Degrees
use telenode.Prelude.{ℕ, Bool, ◌||◌, Option, none, some, if◌then◌else◌}
use telenode.Obd.{ℤ, pos, negsuc}
use telenode.Sensors.Float32.{of_int, to_int, add, sub, scale, less, times, neg}

-- `INT32_MIN` and `(float)(INT32_MAX - 1)` as floats
abbrev int32_min : ℤ
int32_min = of_int (negsuc 2147483647)

abbrev int32_max : ℤ
int32_max = of_int (pos 2147483646)

-- `struct minmea_float`
pub record MinmeaFloat : Type 0 where
  pub value : ℤ
  pub scaled_by : ℕ

-- `coord_to_minmea`: `none` is -ERANGE.
unfoldable pub coord_to_minmea : ℤ → Option MinmeaFloat
coord_to_minmea coord =
    let degrees = to_int coord in
    let minutes = scale (sub coord (of_int degrees)) 60 in
    let degrees = times 100000 (times 100 degrees) in
    let minutes = scale minutes 100000 in
    if less minutes int32_min || less int32_max minutes
    then none
    else some (record { value = to_int (add (of_int degrees) minutes); scaled_by = 100000 })
