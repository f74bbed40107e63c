-- ===== src/Rtac/Alarm/Site.antt =====
-- neems-data/src/rtac/alarm_definitions.rs: the rows of `ALARM_DEFINITIONS` of the site and plant zones.
use neems_core.Rtac.Alarm.Definition.{
  AlarmDefinition, alarm, site, breaker_relay, meter, transformer1, transformer2, rtac, facp,
  tesla_site_controller,
}
use neems_core.Prelude.{List, [], ◌∷◌}

unfoldable pub site_alarms : List AlarmDefinition
site_alarms =
    alarm 1 site "loss_fiber" 3 0 0
    ∷ alarm 2 site "loss_cellular" 4 0 1
    ∷ alarm 3 site "no_ip_connection" 3 0 2
    ∷ alarm 4 site "loss_managed_switch" 5 0 3
    ∷ alarm 5 site "site_cyber_event" 5 0 4
    ∷ alarm 6 site "scada_cabinet_door_open" 5 0 5
    ∷ alarm 7 site "intruder_detected" 5 0 6
    ∷ []

unfoldable pub breaker_relay_alarms : List AlarmDefinition
breaker_relay_alarms =
    alarm 101 breaker_relay "bps_89l1_open" 4 1 0
    ∷ alarm 102 breaker_relay "bps_89l2_open" 5 1 1
    ∷ alarm 103 breaker_relay "relay_86_m1_set" 2 1 2
    ∷ alarm 104 breaker_relay "estop" 2 1 3
    ∷ alarm 105 breaker_relay "salarm_451" 3 1 4
    ∷ alarm 106 breaker_relay "halarm_451" 3 1 5
    ∷ alarm 107 breaker_relay "ansi_27_1" 4 1 6
    ∷ alarm 108 breaker_relay "ansi_27_2" 5 1 7
    ∷ alarm 109 breaker_relay "ansi_59_1" 4 1 8
    ∷ alarm 110 breaker_relay "ansi_59_2" 5 1 9
    ∷ alarm 111 breaker_relay "ansi_81u_1" 4 1 10
    ∷ alarm 112 breaker_relay "ansi_81u_2" 5 1 11
    ∷ alarm 113 breaker_relay "ansi_81o_1" 4 1 12
    ∷ alarm 114 breaker_relay "ansi_81o_2" 5 1 13
    ∷ alarm 115 breaker_relay "ansi_50p1t" 4 1 14
    ∷ alarm 116 breaker_relay "ansi_50p2t" 5 1 15
    ∷ alarm 117 breaker_relay "ansi_51s1t" 4 2 0
    ∷ alarm 118 breaker_relay "ansi_50g1t" 5 2 1
    ∷ alarm 119 breaker_relay "ansi_50g2t" 5 2 2
    ∷ alarm 120 breaker_relay "ansi_51s2t" 5 2 3
    ∷ alarm 121 breaker_relay "ansi_32r" 2 2 4
    ∷ alarm 122 breaker_relay "ansi_32f" 5 2 5
    ∷ alarm 123 breaker_relay "ansi_psv01t" 5 2 6
    ∷ alarm 124 breaker_relay "ansi_psv02t" 5 2 7
    ∷ alarm 125 breaker_relay "ansi_psv03t" 5 2 8
    ∷ alarm 126 breaker_relay "ansi_psv04t" 5 2 9
    ∷ []

unfoldable pub meter_alarms : List AlarmDefinition
meter_alarms =
    alarm 201 meter "salarm_735" 2 3 0
    ∷ alarm 202 meter "halarm_735" 2 3 1
    ∷ alarm 203 meter "meter_loss_of_comms" 5 3 2
    ∷ []

unfoldable pub transformer1_alarms : List AlarmDefinition
transformer1_alarms =
    alarm 301 transformer1 "t1_temp_alarm" 4 4 0
    ∷ alarm 302 transformer1 "t1_temp_trip" 2 4 1
    ∷ alarm 303 transformer1 "t1_temp_fault" 3 4 2
    ∷ alarm 304 transformer1 "t1_reserved_4" 5 4 3
    ∷ alarm 305 transformer1 "t1_reserved_5" 5 4 4
    ∷ alarm 306 transformer1 "t1_reserved_6" 5 4 5
    ∷ alarm 307 transformer1 "t1_reserved_7" 5 4 6
    ∷ alarm 308 transformer1 "t1_reserved_8" 5 4 7
    ∷ alarm 309 transformer1 "t1_reserved_9" 5 4 8
    ∷ alarm 310 transformer1 "t1_reserved_10" 5 4 9
    ∷ []

unfoldable pub transformer2_alarms : List AlarmDefinition
transformer2_alarms =
    alarm 311 transformer2 "t2_temp_alarm" 4 5 0
    ∷ alarm 312 transformer2 "t2_temp_trip" 2 5 1
    ∷ alarm 313 transformer2 "t2_temp_fault" 3 5 2
    ∷ alarm 314 transformer2 "t2_reserved_4" 5 5 3
    ∷ alarm 315 transformer2 "t2_reserved_5" 5 5 4
    ∷ alarm 316 transformer2 "t2_reserved_6" 5 5 5
    ∷ alarm 317 transformer2 "t2_reserved_7" 5 5 6
    ∷ alarm 318 transformer2 "t2_reserved_8" 5 5 7
    ∷ alarm 319 transformer2 "t2_reserved_9" 5 5 8
    ∷ alarm 320 transformer2 "t2_reserved_10" 5 5 9
    ∷ []

unfoldable pub rtac_alarms : List AlarmDefinition
rtac_alarms =
    alarm 321 rtac "coned_curtailment_trip" 4 6 0
    ∷ alarm 322 rtac "utility_lop" 4 6 1
    ∷ alarm 323 rtac "low_ups_battery" 3 6 2
    ∷ alarm 324 rtac "ups_ground_fault_pos" 5 6 3
    ∷ alarm 325 rtac "ups_ground_fault_neg" 5 6 4
    ∷ alarm 326 rtac "rtac_reserved_6" 5 6 5
    ∷ alarm 327 rtac "rtac_reserved_7" 5 6 6
    ∷ alarm 328 rtac "rtac_reserved_8" 5 6 7
    ∷ alarm 329 rtac "rtac_reserved_9" 5 6 8
    ∷ alarm 330 rtac "rtac_general_alarm" 4 6 9
    ∷ []

unfoldable pub facp_alarms : List AlarmDefinition
facp_alarms =
    alarm 401 facp "fire_alarm" 1 7 0
    ∷ alarm 402 facp "facp_trouble" 2 7 1
    ∷ alarm 403 facp "facp_supervisory" 1 7 2
    ∷ alarm 404 facp "flir_zone_1" 2 7 3
    ∷ alarm 405 facp "flir_zone_2" 1 7 4
    ∷ alarm 406 facp "flir_zone_3" 2 7 5
    ∷ alarm 407 facp "flir_zone_4" 5 7 6
    ∷ alarm 408 facp "flir_zone_5" 1 7 7
    ∷ alarm 409 facp "flir_zone_6" 2 7 8
    ∷ alarm 410 facp "flir_zone_7" 5 7 9
    ∷ alarm 411 facp "flir_zone_8" 1 7 10
    ∷ alarm 412 facp "flir_zone_9" 2 7 11
    ∷ alarm 413 facp "flir_zone_10" 1 7 12
    ∷ alarm 414 facp "suppression_zone_1" 2 7 13
    ∷ alarm 415 facp "suppression_zone_2" 5 7 14
    ∷ alarm 416 facp "suppression_zone_3" 1 7 15
    ∷ alarm 417 facp "suppression_zone_4" 1 8 0
    ∷ alarm 418 facp "suppression_zone_5" 2 8 1
    ∷ alarm 419 facp "alarm_mp_1a" 5 8 2
    ∷ alarm 420 facp "alarm_mp_1b" 1 8 3
    ∷ alarm 421 facp "alarm_mp_1c" 5 8 4
    ∷ alarm 422 facp "alarm_mp_2a" 5 8 5
    ∷ alarm 423 facp "alarm_mp_2b" 5 8 6
    ∷ alarm 424 facp "alarm_mp_2c" 5 8 7
    ∷ alarm 425 facp "facp_reserved" 2 8 8
    ∷ []

unfoldable pub tesla_site_controller_alarms : List AlarmDefinition
tesla_site_controller_alarms =
    alarm 501 tesla_site_controller "battery_meter_invalid_1" 4 9 0
    ∷ alarm 502 tesla_site_controller "battery_meter_mia_1" 4 9 1
    ∷ alarm 503 tesla_site_controller "battery_meter_ct_pt_fail_1" 4 9 2
    ∷ alarm 504 tesla_site_controller "battery_meter_out_of_bounds_1" 4 9 3
    ∷ alarm 505 tesla_site_controller "battery_meter_unreasonable_1" 4 9 4
    ∷ alarm 506 tesla_site_controller "battery_meter_invalid_2" 4 9 5
    ∷ alarm 507 tesla_site_controller "battery_meter_mia_2" 4 9 6
    ∷ alarm 508 tesla_site_controller "battery_meter_ct_pt_fail_2" 4 9 7
    ∷ alarm 509 tesla_site_controller "battery_meter_out_of_bounds_2" 4 9 8
    ∷ alarm 510 tesla_site_controller "battery_meter_unreasonable_2" 4 9 9
    ∷ []
