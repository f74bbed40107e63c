-- ===== src/Rtac.antt =====
-- The RTAC collector (neems-data/src/rtac): protocol, alarms, Modbus client and worker, control.
pub mod RegisterMap
pub mod Protocol
pub mod Registers
pub mod Alarm
pub mod State
pub mod History
pub mod Client
pub mod WorkerState
pub mod Worker
pub mod Control
pub mod Poller
pub mod Storage
