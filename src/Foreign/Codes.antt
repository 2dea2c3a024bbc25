-- ===== src/Foreign/Codes.antt =====
-- A conversion to `AlStatusCode` that searches the variants, which shows that the laws of
-- `TryFromPrimitive` can be met and lets tests run.
use ethercat.Base.{ℕ, ◌≡◌, ◌≢◌, refl, Option, none, some, List, [], ◌∷◌, ◌==◌, if◌then◌else◌, arith}
use ethercat.Foreign.{TryFromPrimitive}
use ethercat.Register.AlStatusCode
use ethercat.Register.AlStatusCode.{AlStatusCode}

abbrev pub variants : List AlStatusCode
variants =
    AlStatusCode.no_error ∷ AlStatusCode.unspecified_error ∷ AlStatusCode.no_memory
    ∷ AlStatusCode.invalid_revision ∷ AlStatusCode.invalid_device_setup
    ∷ AlStatusCode.sii_infomation_does_not_match_firmware
    ∷ AlStatusCode.firmware_update_not_successful ∷ AlStatusCode.licence_error
    ∷ AlStatusCode.invalid_requested_state_change ∷ AlStatusCode.unknown_requested_state_change
    ∷ AlStatusCode.bootstrap_not_supported ∷ AlStatusCode.no_valid_firmware
    ∷ AlStatusCode.invalid_mailbox_configuration ∷ AlStatusCode.invalid_sync_manager_configuration
    ∷ AlStatusCode.no_valid_inputs_available ∷ AlStatusCode.no_valid_outputs
    ∷ AlStatusCode.synchronization_error ∷ AlStatusCode.sync_manager_watchdog
    ∷ AlStatusCode.invalid_sync_manager_types ∷ AlStatusCode.invalid_output_configuration
    ∷ AlStatusCode.invalid_input_configuration ∷ AlStatusCode.invalid_watchdog_configuraion
    ∷ AlStatusCode.slave_needs_cold_start ∷ AlStatusCode.slave_needs_init
    ∷ AlStatusCode.slave_needs_preop ∷ AlStatusCode.slave_needs_safeop
    ∷ AlStatusCode.invalid_input_mapping ∷ AlStatusCode.invalid_output_mapping
    ∷ AlStatusCode.inconsistent_settings ∷ AlStatusCode.freerun_not_supported
    ∷ AlStatusCode.synchronization_not_supported ∷ AlStatusCode.freerun_needs3_buffer_mode
    ∷ AlStatusCode.background_watch_dog ∷ AlStatusCode.no_valid_inputs_and_outputs
    ∷ AlStatusCode.fatal_sync_error ∷ AlStatusCode.no_sync_error ∷ AlStatusCode.cycle_time_too_small
    ∷ AlStatusCode.invalid_dc_sync_configuration ∷ AlStatusCode.invalid_dc_latch_configuration
    ∷ AlStatusCode.pll_error ∷ AlStatusCode.dc_sync_io_error ∷ AlStatusCode.dc_sync_timeout_error
    ∷ AlStatusCode.dc_invalid_sync_cycle_time ∷ AlStatusCode.dc_sync0_cycle_time
    ∷ AlStatusCode.dc_sync1_cycle_time ∷ AlStatusCode.mbx_aoe ∷ AlStatusCode.mbx_eoe
    ∷ AlStatusCode.mbx_coe ∷ AlStatusCode.mbx_foe ∷ AlStatusCode.mbx_soe ∷ AlStatusCode.mbx_voe
    ∷ AlStatusCode.eeprom_no_access ∷ AlStatusCode.eeprom_error
    ∷ AlStatusCode.external_hardware_not_ready ∷ AlStatusCode.slave_restarted_locally
    ∷ AlStatusCode.device_identification_value_updated
    ∷ AlStatusCode.detected_module_ident_list_does_not_match ∷ AlStatusCode.supply_voltage_toolow
    ∷ AlStatusCode.supply_voltage_yoo_high ∷ AlStatusCode.temperature_too_low
    ∷ AlStatusCode.temperature_too_high ∷ AlStatusCode.applocation_controller_available
    ∷ AlStatusCode.undefined_error ∷ []

pub find_code : List AlStatusCode → ℕ → Option AlStatusCode
find_code [] n = none
find_code (c ∷ cs) n = if AlStatusCode.discriminant c == n then some c else find_code cs n

pub find_code-discriminant :
    (c : AlStatusCode) → find_code variants (AlStatusCode.discriminant c) ≡ some c
unfolding find_code AlStatusCode.discriminant
find_code-discriminant AlStatusCode.no_error = refl
find_code-discriminant _ = refl

pub find_code-none :
    (cs : List AlStatusCode) (n : ℕ)
    → ((c : AlStatusCode) → AlStatusCode.discriminant c ≢ n)
    → find_code cs n ≡ none
unfolding find_code
find_code-none [] n h = refl
find_code-none (c ∷ cs) n h = ground (arith, h c, find_code-none cs n h)

instance abbrev pub al_status_codes : TryFromPrimitive AlStatusCode AlStatusCode.discriminant
al_status_codes = record {
  try_from = find_code variants;
  try_from-discriminant = find_code-discriminant;
  try_from-none = find_code-none variants;
}
