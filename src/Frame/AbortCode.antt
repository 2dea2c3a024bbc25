-- ===== src/Frame/AbortCode.antt =====
-- src/frame/coe.rs: `AbortCode`, the reasons for which a transfer of an object is aborted.
use ethercat.Base.{ℕ}

pub data AbortCode : Type 0 where
  no_toggle_bit_change timeout unknown_client outside_memory_range not_supported_access write_only
        read_only sub_index_cannot_be_written not_support_for_variable_length
        length_exceeds_mailbox_size object_mapped_to_rx_pdo does_not_exist_in_dict
        unable_to_map_to_pdo pdo_limit parameter_incompatibilities device_incompatibilities
        failure_due_to_write_protect parameter_length_mismatch parameter_length_too_long
        parameter_length_too_short sub_index_does_not_exist value_range_exceeded
        write_parameter_too_large write_parameter_too_small configured_module_list_does_not_match
        max_value_is_less_than_min_value general_error cannot_transfer
        cannot_transfer_due_to_local_control cannot_transfer_in_current_state
        object_dictionary_does_not_exist unknown_abort_code :
      AbortCode

-- `code as u32`. The default variant has the number after the last one.
unfoldable pub discriminant : AbortCode → ℕ
discriminant no_toggle_bit_change = 0x05030000
discriminant timeout = 0x05040000
discriminant unknown_client = 0x05040001
discriminant outside_memory_range = 0x05040005
discriminant not_supported_access = 0x06010000
discriminant write_only = 0x06010001
discriminant read_only = 0x06010002
discriminant sub_index_cannot_be_written = 0x06010003
discriminant not_support_for_variable_length = 0x06010004
discriminant length_exceeds_mailbox_size = 0x06010005
discriminant object_mapped_to_rx_pdo = 0x06010006
discriminant does_not_exist_in_dict = 0x06020000
discriminant unable_to_map_to_pdo = 0x06040041
discriminant pdo_limit = 0x06040042
discriminant parameter_incompatibilities = 0x06040043
discriminant device_incompatibilities = 0x06040047
discriminant failure_due_to_write_protect = 0x06060000
discriminant parameter_length_mismatch = 0x06070010
discriminant parameter_length_too_long = 0x06070012
discriminant parameter_length_too_short = 0x06070013
discriminant sub_index_does_not_exist = 0x06090011
discriminant value_range_exceeded = 0x06090030
discriminant write_parameter_too_large = 0x06090031
discriminant write_parameter_too_small = 0x06090032
discriminant configured_module_list_does_not_match = 0x06090033
discriminant max_value_is_less_than_min_value = 0x06090036
discriminant general_error = 0x08000000
discriminant cannot_transfer = 0x08000020
discriminant cannot_transfer_due_to_local_control = 0x08000021
discriminant cannot_transfer_in_current_state = 0x08000022
discriminant object_dictionary_does_not_exist = 0x08000023
discriminant unknown_abort_code = 0x08000024
