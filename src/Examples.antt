-- ===== src/Examples.antt =====
-- Concrete inputs: instances of the interfaces, and an example of each theorem.
pub mod Instances
mod Calendar
mod Schedules
mod Library
mod Days
mod Alarms
mod Devices
mod Workers
mod Controls
mod Stores
