-- ===== src/Register/AlStatusCode.antt =====
-- src/register/application.rs: `AlStatusCode`, the reason a slave gives for an error.
use ethercat.Base.{ℕ}

pub data AlStatusCode : Type 0 where
  no_error unspecified_error no_memory invalid_revision invalid_device_setup
        sii_infomation_does_not_match_firmware firmware_update_not_successful licence_error
        invalid_requested_state_change unknown_requested_state_change bootstrap_not_supported
        no_valid_firmware invalid_mailbox_configuration invalid_sync_manager_configuration
        no_valid_inputs_available no_valid_outputs synchronization_error sync_manager_watchdog
        invalid_sync_manager_types invalid_output_configuration invalid_input_configuration
        invalid_watchdog_configuraion slave_needs_cold_start slave_needs_init slave_needs_preop
        slave_needs_safeop invalid_input_mapping invalid_output_mapping inconsistent_settings
        freerun_not_supported synchronization_not_supported freerun_needs3_buffer_mode
        background_watch_dog no_valid_inputs_and_outputs fatal_sync_error no_sync_error
        cycle_time_too_small invalid_dc_sync_configuration invalid_dc_latch_configuration pll_error
        dc_sync_io_error dc_sync_timeout_error dc_invalid_sync_cycle_time dc_sync0_cycle_time
        dc_sync1_cycle_time mbx_aoe mbx_eoe mbx_coe mbx_foe mbx_soe mbx_voe eeprom_no_access
        eeprom_error external_hardware_not_ready slave_restarted_locally
        device_identification_value_updated detected_module_ident_list_does_not_match
        supply_voltage_toolow supply_voltage_yoo_high temperature_too_low temperature_too_high
        applocation_controller_available undefined_error :
      AlStatusCode

-- `code as u16`.
unfoldable pub discriminant : AlStatusCode → ℕ
discriminant no_error = 0x0000
discriminant unspecified_error = 0x0001
discriminant no_memory = 0x0002
discriminant invalid_revision = 0x0004
discriminant invalid_device_setup = 0x0003
discriminant sii_infomation_does_not_match_firmware = 0x0006
discriminant firmware_update_not_successful = 0x0007
discriminant licence_error = 0x000e
discriminant invalid_requested_state_change = 0x0011
discriminant unknown_requested_state_change = 0x0012
discriminant bootstrap_not_supported = 0x0013
discriminant no_valid_firmware = 0x0014
discriminant invalid_mailbox_configuration = 0x0015
discriminant invalid_sync_manager_configuration = 0x0017
discriminant no_valid_inputs_available = 0x0018
discriminant no_valid_outputs = 0x0019
discriminant synchronization_error = 0x001a
discriminant sync_manager_watchdog = 0x001b
discriminant invalid_sync_manager_types = 0x001c
discriminant invalid_output_configuration = 0x001d
discriminant invalid_input_configuration = 0x001e
discriminant invalid_watchdog_configuraion = 0x001f
discriminant slave_needs_cold_start = 0x0020
discriminant slave_needs_init = 0x0021
discriminant slave_needs_preop = 0x0022
discriminant slave_needs_safeop = 0x0023
discriminant invalid_input_mapping = 0x0024
discriminant invalid_output_mapping = 0x0025
discriminant inconsistent_settings = 0x0026
discriminant freerun_not_supported = 0x0027
discriminant synchronization_not_supported = 0x0028
discriminant freerun_needs3_buffer_mode = 0x0029
discriminant background_watch_dog = 0x002a
discriminant no_valid_inputs_and_outputs = 0x002b
discriminant fatal_sync_error = 0x002c
discriminant no_sync_error = 0x002d
discriminant cycle_time_too_small = 0x002e
discriminant invalid_dc_sync_configuration = 0x0030
discriminant invalid_dc_latch_configuration = 0x0031
discriminant pll_error = 0x0032
discriminant dc_sync_io_error = 0x0033
discriminant dc_sync_timeout_error = 0x0034
discriminant dc_invalid_sync_cycle_time = 0x0035
discriminant dc_sync0_cycle_time = 0x0036
discriminant dc_sync1_cycle_time = 0x0037
discriminant mbx_aoe = 0x0041
discriminant mbx_eoe = 0x0042
discriminant mbx_coe = 0x0043
discriminant mbx_foe = 0x0044
discriminant mbx_soe = 0x0045
discriminant mbx_voe = 0x004f
discriminant eeprom_no_access = 0x0050
discriminant eeprom_error = 0x0051
discriminant external_hardware_not_ready = 0x0052
discriminant slave_restarted_locally = 0x0060
discriminant device_identification_value_updated = 0x0061
discriminant detected_module_ident_list_does_not_match = 0x0070
discriminant supply_voltage_toolow = 0x0080
discriminant supply_voltage_yoo_high = 0x0081
discriminant temperature_too_low = 0x0082
discriminant temperature_too_high = 0x0083
discriminant applocation_controller_available = 0x00f0
discriminant undefined_error = 0x00f1
