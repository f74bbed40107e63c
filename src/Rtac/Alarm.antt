-- ===== src/Rtac/Alarm.antt =====
-- Alarm points, the flags read from the RTAC, alarm events and their history
-- (neems-data/src/rtac: alarm_definitions.rs, state.rs, alarms.rs).
pub mod Definition
pub mod Site
pub mod Megapacks1
pub mod Megapacks2
pub mod Table
pub mod Flags
