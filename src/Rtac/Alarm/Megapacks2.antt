-- ===== src/Rtac/Alarm/Megapacks2.antt =====
-- neems-data/src/rtac/alarm_definitions.rs: the rows of `ALARM_DEFINITIONS` of the second megapack row zones.
use neems_core.Prelude.{List, [], ◌∷◌}
use neems_core.Rtac.Alarm.Definition.{AlarmDefinition, alarm, mp2a, mp2b, mp2c}

unfoldable pub mp2a_alarms : List AlarmDefinition
mp2a_alarms =
    alarm 691 mp2a "megapack_loss_of_comms" 3 16 0
    ∷ alarm 692 mp2a "megapack_iso_failure" 2 16 1
    ∷ alarm 693 mp2a "megapack_inverter_fault" 2 16 2
    ∷ alarm 694 mp2a "enable_circuit_open" 3 16 3
    ∷ alarm 695 mp2a "enable_switch_off" 3 16 4
    ∷ alarm 696 mp2a "door_switch_open" 4 16 5
    ∷ alarm 697 mp2a "ac_breaker_closed" 4 16 6
    ∷ alarm 698 mp2a "bus_controller_prolonged_fault" 2 16 7
    ∷ alarm 699 mp2a "remote_shutdown" 3 16 8
    ∷ alarm 700 mp2a "coolant_low" 3 16 9
    ∷ alarm 701 mp2a "extreme_temp_warning" 3 16 10
    ∷ alarm 702 mp2a "extreme_temp_fault" 2 16 11
    ∷ alarm 703 mp2a "grid_uncompliant" 3 16 12
    ∷ alarm 704 mp2a "low_state_of_energy" 4 16 13
    ∷ alarm 705 mp2a "breaker_irrational" 3 16 14
    ∷ alarm 706 mp2a "breaker_ready_to_close" 5 16 15
    ∷ alarm 707 mp2a "megapack_disabled" 3 17 0
    ∷ alarm 708 mp2a "power_elec_over_temp" 2 17 1
    ∷ alarm 709 mp2a "sparker" 2 17 2
    ∷ alarm 710 mp2a "cell_modem_en" 5 17 3
    ∷ alarm 711 mp2a "mp_comms_warning" 4 17 4
    ∷ alarm 712 mp2a "di_spare_1" 5 17 5
    ∷ alarm 713 mp2a "di_spare_2" 5 17 6
    ∷ alarm 714 mp2a "di_spare_3" 5 17 7
    ∷ alarm 715 mp2a "di_spare_4" 5 17 8
    ∷ alarm 716 mp2a "di_spare_5" 5 17 9
    ∷ alarm 717 mp2a "di_spare_6" 5 17 10
    ∷ alarm 718 mp2a "di_spare_7" 5 17 11
    ∷ alarm 719 mp2a "di_spare_8" 5 17 12
    ∷ alarm 720 mp2a "di_spare_9" 5 17 13
    ∷ []

unfoldable pub mp2b_alarms : List AlarmDefinition
mp2b_alarms =
    alarm 721 mp2b "megapack_loss_of_comms" 3 18 0
    ∷ alarm 722 mp2b "megapack_iso_failure" 2 18 1
    ∷ alarm 723 mp2b "megapack_inverter_fault" 2 18 2
    ∷ alarm 724 mp2b "enable_circuit_open" 3 18 3
    ∷ alarm 725 mp2b "enable_switch_off" 3 18 4
    ∷ alarm 726 mp2b "door_switch_open" 4 18 5
    ∷ alarm 727 mp2b "ac_breaker_closed" 4 18 6
    ∷ alarm 728 mp2b "bus_controller_prolonged_fault" 2 18 7
    ∷ alarm 729 mp2b "remote_shutdown" 3 18 8
    ∷ alarm 730 mp2b "coolant_low" 3 18 9
    ∷ alarm 731 mp2b "extreme_temp_warning" 3 18 10
    ∷ alarm 732 mp2b "extreme_temp_fault" 2 18 11
    ∷ alarm 733 mp2b "grid_uncompliant" 3 18 12
    ∷ alarm 734 mp2b "low_state_of_energy" 4 18 13
    ∷ alarm 735 mp2b "breaker_irrational" 3 18 14
    ∷ alarm 736 mp2b "breaker_ready_to_close" 5 18 15
    ∷ alarm 737 mp2b "megapack_disabled" 3 19 0
    ∷ alarm 738 mp2b "power_elec_over_temp" 2 19 1
    ∷ alarm 739 mp2b "sparker" 2 19 2
    ∷ alarm 740 mp2b "cell_modem_en" 5 19 3
    ∷ alarm 741 mp2b "mp_comms_warning" 4 19 4
    ∷ alarm 742 mp2b "di_spare_1" 5 19 5
    ∷ alarm 743 mp2b "di_spare_2" 5 19 6
    ∷ alarm 744 mp2b "di_spare_3" 5 19 7
    ∷ alarm 745 mp2b "di_spare_4" 5 19 8
    ∷ alarm 746 mp2b "di_spare_5" 5 19 9
    ∷ alarm 747 mp2b "di_spare_6" 5 19 10
    ∷ alarm 748 mp2b "di_spare_7" 5 19 11
    ∷ alarm 749 mp2b "di_spare_8" 5 19 12
    ∷ alarm 750 mp2b "di_spare_9" 5 19 13
    ∷ []

unfoldable pub mp2c_alarms : List AlarmDefinition
mp2c_alarms =
    alarm 751 mp2c "megapack_loss_of_comms" 3 20 0
    ∷ alarm 752 mp2c "megapack_iso_failure" 2 20 1
    ∷ alarm 753 mp2c "megapack_inverter_fault" 2 20 2
    ∷ alarm 754 mp2c "enable_circuit_open" 3 20 3
    ∷ alarm 755 mp2c "enable_switch_off" 3 20 4
    ∷ alarm 756 mp2c "door_switch_open" 4 20 5
    ∷ alarm 757 mp2c "ac_breaker_closed" 4 20 6
    ∷ alarm 758 mp2c "bus_controller_prolonged_fault" 2 20 7
    ∷ alarm 759 mp2c "remote_shutdown" 3 20 8
    ∷ alarm 760 mp2c "coolant_low" 3 20 9
    ∷ alarm 761 mp2c "extreme_temp_warning" 3 20 10
    ∷ alarm 762 mp2c "extreme_temp_fault" 2 20 11
    ∷ alarm 763 mp2c "grid_uncompliant" 3 20 12
    ∷ alarm 764 mp2c "low_state_of_energy" 4 20 13
    ∷ alarm 765 mp2c "breaker_irrational" 3 20 14
    ∷ alarm 766 mp2c "breaker_ready_to_close" 5 20 15
    ∷ alarm 767 mp2c "megapack_disabled" 3 21 0
    ∷ alarm 768 mp2c "power_elec_over_temp" 2 21 1
    ∷ alarm 769 mp2c "sparker" 2 21 2
    ∷ alarm 770 mp2c "cell_modem_en" 5 21 3
    ∷ alarm 771 mp2c "mp_comms_warning" 4 21 4
    ∷ alarm 772 mp2c "di_spare_1" 5 21 5
    ∷ alarm 773 mp2c "di_spare_2" 5 21 6
    ∷ alarm 774 mp2c "di_spare_3" 5 21 7
    ∷ alarm 775 mp2c "di_spare_4" 5 21 8
    ∷ alarm 776 mp2c "di_spare_5" 5 21 9
    ∷ alarm 777 mp2c "di_spare_6" 5 21 10
    ∷ alarm 778 mp2c "di_spare_7" 5 21 11
    ∷ alarm 779 mp2c "di_spare_8" 5 21 12
    ∷ alarm 780 mp2c "di_spare_9" 5 21 13
    ∷ []
