-- ===== src/Sensors.antt =====
-- src/app_sensors.c: sentences from the GNSS receiver's UART, the fixes taken from them, and the records
-- and events made of fixes, OBD-II values and trouble codes. minmea and printf are parameters.
pub mod Serial
pub mod Fixes
pub mod Rate
pub mod Queues
pub mod Float32
pub mod Coord
pub mod Stream
mod Tests
