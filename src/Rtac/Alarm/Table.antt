-- ===== src/Rtac/Alarm/Table.antt =====
-- neems-data/src/rtac/alarm_definitions.rs: the table of all alarm points and its queries.
pub mod Wiring
use mathlib.Core.Logic.{ite}
use neems_core.Rtac.Alarm.Definition.{AlarmZone, AlarmZone-discrete, AlarmDefinition}
use neems_core.Rtac.Alarm.Site.{
  site_alarms, breaker_relay_alarms, meter_alarms, transformer1_alarms, transformer2_alarms,
  rtac_alarms, facp_alarms, tesla_site_controller_alarms,
}
use neems_core.Rtac.Alarm.Megapacks1.{mp1a_alarms, mp1b_alarms, mp1c_alarms}
use neems_core.Rtac.Alarm.Megapacks2.{mp2a_alarms, mp2b_alarms, mp2c_alarms}
use neems_core.Prelude.{ℕ, true, false, Option, List, leb, find, filter, ◌++◌, ◌==◌}

abbrev pub estop_alarm_num : ℕ
estop_alarm_num = 104

abbrev pub fire_alarm_num : ℕ
fire_alarm_num = 401

unfoldable pub alarm_definitions : List AlarmDefinition
unfolding site_alarms breaker_relay_alarms meter_alarms transformer1_alarms transformer2_alarms
    rtac_alarms facp_alarms tesla_site_controller_alarms mp1a_alarms mp1b_alarms mp1c_alarms
    mp2a_alarms mp2b_alarms mp2c_alarms
alarm_definitions =
    site_alarms
    ++ (breaker_relay_alarms
        ++ (meter_alarms
            ++ (transformer1_alarms
                ++ (transformer2_alarms
                    ++ (rtac_alarms
                        ++ (facp_alarms
                            ++ (tesla_site_controller_alarms
                                ++ (mp1a_alarms
                                    ++ (mp1b_alarms
                                        ++ (mp1c_alarms
                                            ++ (mp2a_alarms
                                                ++ (mp2b_alarms ++ mp2c_alarms))))))))))))

unfoldable pub find_by_alarm_num : ℕ → Option AlarmDefinition
unfolding alarm_definitions
find_by_alarm_num num = find (λ d. d.alarm_num == num) alarm_definitions

unfoldable pub alarms_in_zone : AlarmZone → List AlarmDefinition
unfolding alarm_definitions
alarms_in_zone zone =
    filter (λ d. ite (AlarmZone-discrete d.zone zone) true false) alarm_definitions

unfoldable pub alarms_at_level_or_above : ℕ → List AlarmDefinition
unfolding alarm_definitions
alarms_at_level_or_above max_level = filter (λ d. leb d.level max_level) alarm_definitions
