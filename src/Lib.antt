-- ===== src/Lib.antt =====
-- The neems-core repository: control of battery sites. This library models the part of it that
-- talks to a site's real-time automation controller (RTAC), the simulated RTAC, the library of
-- schedules and the choice of the command of a site, the queries of the web API, and the coordinate
-- phrases.
--
-- The program's parts and how they meet. A Modbus worker (neems-data/src/rtac/worker.rs) polls the
-- RTAC through a client with a bounded number of reconnects (modbus_client.rs), decodes the 30
-- status registers (protocol.rs), publishes the shared state (state.rs), compares the 22 alarm
-- registers with the last ones against the table of alarm points (alarm_definitions.rs) and sends
-- each change to the alarm task, which keeps a history (alarms.rs), and readings to the storage
-- writer, which batches them (storage.rs). The control logic (control.rs) reads the shared state
-- and the schedule and puts one command at a time in a watch channel, which the worker encodes and
-- writes. The simulator (neems-rtac-sim) stands on the other side of the wire and shares
-- protocol.rs. The schedules that the control logic follows come from the web API: neems-api keeps
-- library items, with their commands, and rules that say on which days an item applies
-- (orm/schedule_library.rs, orm/application_rule.rs); it answers with the command that a site runs
-- now (api/application_rule.rs), which the poller (schedule_http.rs) asks for at each tick and puts
-- in the cache that the control logic reads. A rule for a season leaves out the federal holidays
-- (orm/holidays.rs). Lists that the web API returns pass through odata_query.rs. crates/fixphrase
-- names coordinates by four words.
--
-- The files.
-- Rtac/RegisterMap, Rtac/Protocol, Rtac/Registers: neems-data/src/rtac/protocol.rs.
-- Rtac/Alarm (Definition, Site, Megapacks1, Megapacks2, Table): alarm_definitions.rs, all 281 rows.
-- Rtac/Alarm/Flags: `AlarmFlags` of state.rs. Rtac/State: the rest of state.rs.
-- Rtac/History: `Alarm` and `AlarmHistory` of alarms.rs.
-- Rtac/Client: `ModbusClient` of modbus_client.rs. Rtac/WorkerState,
-- Rtac/Worker: `ModbusWorker` of worker.rs.
-- Rtac/Storage: `InMemoryStorage`, `DataSampler` and `StorageWriterTask` of storage.rs.
-- Rtac/Control: `ControlLogicTask` and `InMemoryScheduleProvider` of control.rs.
-- Rtac/Client/Calls: the read and the write of modbus_client.rs that reconnect. Rtac/Poller:
-- schedule_http.rs. Sim: neems-rtac-sim/src/state.rs and config.rs. Sim/Console: control.rs of it.
-- Sim/Wire: a command frame of the client in the simulator.
-- Schedules/Model: neems-api/src/models/schedule_library.rs and application_rule.rs.
-- Schedules/Db: the tables, their constraints and their cascades, from
-- neems-api/migrations/2025-12-14-120000_add_schedule_library_system/up.sql.
-- Schedules/Library, Schedules/Library/Edit, Schedules/Store: neems-api/src/orm/schedule_library.rs,
-- and creating and deleting rules of orm/application_rule.rs. Schedules/Rules: the choice of the
-- schedule of a day of orm/application_rule.rs. Schedules/Active: `get_site_active_command` of
-- api/application_rule.rs. Schedules/Listings, Schedules/Months: the
-- queries for rules and the calendars of a month of
-- orm/application_rule.rs. Schedules/Holidays: orm/holidays.rs. Schedules/Season: the season fill of
-- orm/application_rule.rs. Odata: neems-api/src/odata_query.rs.
-- FixPhrase: crates/fixphrase/src/lib.rs.
-- Platform: what is relied on of `f32` (`Float32`, `IsIeee`) and of chrono (`Clock`, `IsOrdered`).
-- Schedules/Chrono: the calendar of chrono. `Sqlite` of Schedules/Db: the ids and the order of names
-- that SQLite gives. `Text` of Odata and `WordReader` of Sim/Console: what is used of `str`.
-- Prelude: shared names and lemmas. Examples: concrete instances of Platform, and an example of each
-- theorem. A child file of a module holds the theorems about it, named for what they show.
--
-- How the code is modelled. A struct is a record and an enum a data type; a method is a function
-- from the old state to the new. An i32, i64 or u16 is an integer or a number, with the wrap, the
-- shift or the cast of the source written out. The network is an argument: what a connect, a read
-- or a write answers, and for the reconnect loop what attempt k answers. A channel is the list of
-- what was sent, and the watch channel the latest value. A HashMap is an association list with one
-- entry to a key. A panic is none, so adding a day to the last date of chrono is none. The loop of
-- `reconnect` runs on fuel, the number of attempts left, which is all that its guard allows. A
-- table is the list of its rows, a transaction that fails leaves the tables as they were, and the
-- JSON of a column is the list that it holds, or malformed. A date is a day number. The walk back
-- to a weekday has seven steps, the calendar of a month one for each of its days, the season fill
-- one for each day from its start to its end, and the holidays of a range one for each year of it.
-- A tick of the poller carries the answers of neems-api to its requests. `select!` is a list of
-- events, in any order; one tick has one instant for all its calls of `Utc::now()`. The counters
-- are unbounded numbers (u64 in the source). The mode in a reading is kept as the mode, not as its
-- text. `WORDLIST` is its length: a word is its position.
--
-- Not modelled: logging, error texts, the activity log, the awaits, locks and sleeps around the
-- operations, the TCP server, the database engine, the handlers of the web API around the modelled
-- functions, the deletion of sites and companies with what it cascades to, the parsers of query
-- text, and the rounding in FixPhrase (the theorems speak of coordinates after it).
pub mod Prelude
pub mod Platform
pub mod Rtac
pub mod Sim
pub mod FixPhrase
pub mod Examples
pub mod Odata
pub mod Schedules
