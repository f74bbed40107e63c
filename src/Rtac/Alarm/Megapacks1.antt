-- ===== src/Rtac/Alarm/Megapacks1.antt =====
-- neems-data/src/rtac/alarm_definitions.rs: the rows of `ALARM_DEFINITIONS` of the first megapack row zones.
use neems_core.Rtac.Alarm.Definition.{AlarmDefinition, alarm, mp1a, mp1b, mp1c}
use neems_core.Prelude.{List, [], ◌∷◌}

unfoldable pub mp1a_alarms : List AlarmDefinition
mp1a_alarms =
    alarm 601 mp1a "megapack_loss_of_comms" 3 10 0
    ∷ alarm 602 mp1a "megapack_iso_failure" 2 10 1
    ∷ alarm 603 mp1a "megapack_inverter_fault" 2 10 2
    ∷ alarm 604 mp1a "enable_circuit_open" 3 10 3
    ∷ alarm 605 mp1a "enable_switch_off" 3 10 4
    ∷ alarm 606 mp1a "door_switch_open" 4 10 5
    ∷ alarm 607 mp1a "ac_breaker_closed" 4 10 6
    ∷ alarm 608 mp1a "bus_controller_prolonged_fault" 2 10 7
    ∷ alarm 609 mp1a "remote_shutdown" 3 10 8
    ∷ alarm 610 mp1a "coolant_low" 3 10 9
    ∷ alarm 611 mp1a "extreme_temp_warning" 3 10 10
    ∷ alarm 612 mp1a "extreme_temp_fault" 2 10 11
    ∷ alarm 613 mp1a "grid_uncompliant" 3 10 12
    ∷ alarm 614 mp1a "low_state_of_energy" 4 10 13
    ∷ alarm 615 mp1a "breaker_irrational" 3 10 14
    ∷ alarm 616 mp1a "breaker_ready_to_close" 5 10 15
    ∷ alarm 617 mp1a "megapack_disabled" 3 11 0
    ∷ alarm 618 mp1a "power_elec_over_temp" 2 11 1
    ∷ alarm 619 mp1a "sparker" 2 11 2
    ∷ alarm 620 mp1a "cell_modem_en" 5 11 3
    ∷ alarm 621 mp1a "mp_comms_warning" 4 11 4
    ∷ alarm 622 mp1a "di_spare_1" 5 11 5
    ∷ alarm 623 mp1a "di_spare_2" 5 11 6
    ∷ alarm 624 mp1a "di_spare_3" 5 11 7
    ∷ alarm 625 mp1a "di_spare_4" 5 11 8
    ∷ alarm 626 mp1a "di_spare_5" 5 11 9
    ∷ alarm 627 mp1a "di_spare_6" 5 11 10
    ∷ alarm 628 mp1a "di_spare_7" 5 11 11
    ∷ alarm 629 mp1a "di_spare_8" 5 11 12
    ∷ alarm 630 mp1a "di_spare_9" 5 11 13
    ∷ []

unfoldable pub mp1b_alarms : List AlarmDefinition
mp1b_alarms =
    alarm 631 mp1b "megapack_loss_of_comms" 3 12 0
    ∷ alarm 632 mp1b "megapack_iso_failure" 2 12 1
    ∷ alarm 633 mp1b "megapack_inverter_fault" 2 12 2
    ∷ alarm 634 mp1b "enable_circuit_open" 3 12 3
    ∷ alarm 635 mp1b "enable_switch_off" 3 12 4
    ∷ alarm 636 mp1b "door_switch_open" 4 12 5
    ∷ alarm 637 mp1b "ac_breaker_closed" 4 12 6
    ∷ alarm 638 mp1b "bus_controller_prolonged_fault" 2 12 7
    ∷ alarm 639 mp1b "remote_shutdown" 3 12 8
    ∷ alarm 640 mp1b "coolant_low" 3 12 9
    ∷ alarm 641 mp1b "extreme_temp_warning" 3 12 10
    ∷ alarm 642 mp1b "extreme_temp_fault" 2 12 11
    ∷ alarm 643 mp1b "grid_uncompliant" 3 12 12
    ∷ alarm 644 mp1b "low_state_of_energy" 4 12 13
    ∷ alarm 645 mp1b "breaker_irrational" 3 12 14
    ∷ alarm 646 mp1b "breaker_ready_to_close" 5 12 15
    ∷ alarm 647 mp1b "megapack_disabled" 3 13 0
    ∷ alarm 648 mp1b "power_elec_over_temp" 2 13 1
    ∷ alarm 649 mp1b "sparker" 2 13 2
    ∷ alarm 650 mp1b "cell_modem_en" 5 13 3
    ∷ alarm 651 mp1b "mp_comms_warning" 4 13 4
    ∷ alarm 652 mp1b "di_spare_1" 5 13 5
    ∷ alarm 653 mp1b "di_spare_2" 5 13 6
    ∷ alarm 654 mp1b "di_spare_3" 5 13 7
    ∷ alarm 655 mp1b "di_spare_4" 5 13 8
    ∷ alarm 656 mp1b "di_spare_5" 5 13 9
    ∷ alarm 657 mp1b "di_spare_6" 5 13 10
    ∷ alarm 658 mp1b "di_spare_7" 5 13 11
    ∷ alarm 659 mp1b "di_spare_8" 5 13 12
    ∷ alarm 660 mp1b "di_spare_9" 5 13 13
    ∷ []

unfoldable pub mp1c_alarms : List AlarmDefinition
mp1c_alarms =
    alarm 661 mp1c "megapack_loss_of_comms" 3 14 0
    ∷ alarm 662 mp1c "megapack_iso_failure" 2 14 1
    ∷ alarm 663 mp1c "megapack_inverter_fault" 2 14 2
    ∷ alarm 664 mp1c "enable_circuit_open" 3 14 3
    ∷ alarm 665 mp1c "enable_switch_off" 3 14 4
    ∷ alarm 666 mp1c "door_switch_open" 4 14 5
    ∷ alarm 667 mp1c "ac_breaker_closed" 4 14 6
    ∷ alarm 668 mp1c "bus_controller_prolonged_fault" 2 14 7
    ∷ alarm 669 mp1c "remote_shutdown" 3 14 8
    ∷ alarm 670 mp1c "coolant_low" 3 14 9
    ∷ alarm 671 mp1c "extreme_temp_warning" 3 14 10
    ∷ alarm 672 mp1c "extreme_temp_fault" 2 14 11
    ∷ alarm 673 mp1c "grid_uncompliant" 3 14 12
    ∷ alarm 674 mp1c "low_state_of_energy" 4 14 13
    ∷ alarm 675 mp1c "breaker_irrational" 3 14 14
    ∷ alarm 676 mp1c "breaker_ready_to_close" 5 14 15
    ∷ alarm 677 mp1c "megapack_disabled" 3 15 0
    ∷ alarm 678 mp1c "power_elec_over_temp" 2 15 1
    ∷ alarm 679 mp1c "sparker" 2 15 2
    ∷ alarm 680 mp1c "cell_modem_en" 5 15 3
    ∷ alarm 681 mp1c "mp_comms_warning" 4 15 4
    ∷ alarm 682 mp1c "di_spare_1" 5 15 5
    ∷ alarm 683 mp1c "di_spare_2" 5 15 6
    ∷ alarm 684 mp1c "di_spare_3" 5 15 7
    ∷ alarm 685 mp1c "di_spare_4" 5 15 8
    ∷ alarm 686 mp1c "di_spare_5" 5 15 9
    ∷ alarm 687 mp1c "di_spare_6" 5 15 10
    ∷ alarm 688 mp1c "di_spare_7" 5 15 11
    ∷ alarm 689 mp1c "di_spare_8" 5 15 12
    ∷ alarm 690 mp1c "di_spare_9" 5 15 13
    ∷ []
