-- ===== src/Schedules.antt =====
-- The schedule library of neems-api: which schedule runs on a day, and which command at a time.
pub mod Model
pub mod Db
pub mod Chrono
pub mod Rules
pub mod Store
pub mod Library
pub mod Active
pub mod Holidays
pub mod Season
pub mod Months
pub mod Listings
