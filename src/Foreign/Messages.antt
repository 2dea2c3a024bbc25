-- ===== src/Foreign/Messages.antt =====
-- Conversions to the numbered types of mailbox messages that search the variants, which show that the laws of
-- `FromPrimitive` can be met and let tests run.
use ethercat.Base.{ℕ, ◌≡◌, ◌≢◌, refl, List, [], ◌∷◌, ◌==◌, if◌then◌else◌, arith}
use ethercat.Foreign.{FromPrimitive}
use ethercat.Frame.AbortCode
use ethercat.Frame.AbortCode.{AbortCode}
use ethercat.Frame.Coe
use ethercat.Frame.Coe.{CoeServiceType}
use ethercat.Frame.Mailbox.{
  MailboxType, discriminant, error_type, aoe_type, eoe_type, coe_type, foe_type, soe_type, voe_type,
  other_type, MailboxErrorDetail, detail_number, unspecified, syntax, unsupported_protocol_error,
  invalid_channel, service_not_supported, invalid_header, size_too_short, no_more_memory,
  invalid_size,
}

abbrev pub mailbox_type_variants : List MailboxType
mailbox_type_variants =
    error_type ∷ aoe_type ∷ eoe_type ∷ coe_type ∷ foe_type ∷ soe_type ∷ voe_type ∷ other_type ∷ []

unfoldable pub find_mailbox_type : List MailboxType → ℕ → MailboxType
find_mailbox_type [] n = other_type
find_mailbox_type (c ∷ cs) n = if discriminant c == n then c else find_mailbox_type cs n

pub find_mailbox_type-discriminant :
    (c : MailboxType) → find_mailbox_type mailbox_type_variants (discriminant c) ≡ c
unfolding find_mailbox_type discriminant
find_mailbox_type-discriminant error_type = refl
find_mailbox_type-discriminant _ = refl

pub find_mailbox_type-default :
    (cs : List MailboxType) (n : ℕ)
    → ((c : MailboxType) → discriminant c ≢ n)
    → find_mailbox_type cs n ≡ other_type
unfolding find_mailbox_type
find_mailbox_type-default [] n h = refl
find_mailbox_type-default (c ∷ cs) n h = ground (arith, h c, find_mailbox_type-default cs n h)

instance abbrev pub mailbox_types : FromPrimitive MailboxType discriminant other_type
mailbox_types = record {
  from = find_mailbox_type mailbox_type_variants;
  from-discriminant = find_mailbox_type-discriminant;
  from-default = find_mailbox_type-default mailbox_type_variants;
}

abbrev pub detail_variants : List MailboxErrorDetail
detail_variants =
    unspecified ∷ syntax ∷ unsupported_protocol_error ∷ invalid_channel ∷ service_not_supported
    ∷ invalid_header ∷ size_too_short ∷ no_more_memory ∷ invalid_size ∷ []

unfoldable pub find_detail : List MailboxErrorDetail → ℕ → MailboxErrorDetail
find_detail [] n = unspecified
find_detail (c ∷ cs) n = if detail_number c == n then c else find_detail cs n

pub find_detail-discriminant :
    (c : MailboxErrorDetail) → find_detail detail_variants (detail_number c) ≡ c
unfolding find_detail detail_number
find_detail-discriminant unspecified = refl
find_detail-discriminant _ = refl

pub find_detail-default :
    (cs : List MailboxErrorDetail) (n : ℕ)
    → ((c : MailboxErrorDetail) → detail_number c ≢ n)
    → find_detail cs n ≡ unspecified
unfolding find_detail
find_detail-default [] n h = refl
find_detail-default (c ∷ cs) n h = ground (arith, h c, find_detail-default cs n h)

instance abbrev pub details : FromPrimitive MailboxErrorDetail detail_number unspecified
details = record {
  from = find_detail detail_variants;
  from-discriminant = find_detail-discriminant;
  from-default = find_detail-default detail_variants;
}

abbrev pub service_type_variants : List CoeServiceType
service_type_variants =
    CoeServiceType.emmergency ∷ CoeServiceType.sdo_req ∷ CoeServiceType.sdo_res
    ∷ CoeServiceType.tx_pdo ∷ CoeServiceType.rx_pdo ∷ CoeServiceType.tx_pdo_remote_req
    ∷ CoeServiceType.rx_pdo_remote_req ∷ CoeServiceType.sdo_info ∷ CoeServiceType.other ∷ []

unfoldable pub find_service_type : List CoeServiceType → ℕ → CoeServiceType
find_service_type [] n = CoeServiceType.other
find_service_type (c ∷ cs) n = if Coe.discriminant c == n then c else find_service_type cs n

pub find_service_type-discriminant :
    (c : CoeServiceType) → find_service_type service_type_variants (Coe.discriminant c) ≡ c
unfolding find_service_type Coe.discriminant
find_service_type-discriminant CoeServiceType.emmergency = refl
find_service_type-discriminant _ = refl

pub find_service_type-default :
    (cs : List CoeServiceType) (n : ℕ)
    → ((c : CoeServiceType) → Coe.discriminant c ≢ n)
    → find_service_type cs n ≡ CoeServiceType.other
unfolding find_service_type
find_service_type-default [] n h = refl
find_service_type-default (c ∷ cs) n h = ground (arith, h c, find_service_type-default cs n h)

instance abbrev pub service_types :
    FromPrimitive CoeServiceType Coe.discriminant CoeServiceType.other
service_types = record {
  from = find_service_type service_type_variants;
  from-discriminant = find_service_type-discriminant;
  from-default = find_service_type-default service_type_variants;
}

abbrev pub abort_code_variants : List AbortCode
abort_code_variants =
    AbortCode.no_toggle_bit_change ∷ AbortCode.timeout ∷ AbortCode.unknown_client
    ∷ AbortCode.outside_memory_range ∷ AbortCode.not_supported_access ∷ AbortCode.write_only
    ∷ AbortCode.read_only ∷ AbortCode.sub_index_cannot_be_written
    ∷ AbortCode.not_support_for_variable_length ∷ AbortCode.length_exceeds_mailbox_size
    ∷ AbortCode.object_mapped_to_rx_pdo ∷ AbortCode.does_not_exist_in_dict
    ∷ AbortCode.unable_to_map_to_pdo ∷ AbortCode.pdo_limit ∷ AbortCode.parameter_incompatibilities
    ∷ AbortCode.device_incompatibilities ∷ AbortCode.failure_due_to_write_protect
    ∷ AbortCode.parameter_length_mismatch ∷ AbortCode.parameter_length_too_long
    ∷ AbortCode.parameter_length_too_short ∷ AbortCode.sub_index_does_not_exist
    ∷ AbortCode.value_range_exceeded ∷ AbortCode.write_parameter_too_large
    ∷ AbortCode.write_parameter_too_small ∷ AbortCode.configured_module_list_does_not_match
    ∷ AbortCode.max_value_is_less_than_min_value ∷ AbortCode.general_error
    ∷ AbortCode.cannot_transfer ∷ AbortCode.cannot_transfer_due_to_local_control
    ∷ AbortCode.cannot_transfer_in_current_state ∷ AbortCode.object_dictionary_does_not_exist
    ∷ AbortCode.unknown_abort_code ∷ []

unfoldable pub find_abort_code : List AbortCode → ℕ → AbortCode
find_abort_code [] n = AbortCode.unknown_abort_code
find_abort_code (c ∷ cs) n = if AbortCode.discriminant c == n then c else find_abort_code cs n

pub find_abort_code-discriminant :
    (c : AbortCode) → find_abort_code abort_code_variants (AbortCode.discriminant c) ≡ c
unfolding find_abort_code AbortCode.discriminant
find_abort_code-discriminant AbortCode.no_toggle_bit_change = refl
find_abort_code-discriminant _ = refl

pub find_abort_code-default :
    (cs : List AbortCode) (n : ℕ)
    → ((c : AbortCode) → AbortCode.discriminant c ≢ n)
    → find_abort_code cs n ≡ AbortCode.unknown_abort_code
unfolding find_abort_code
find_abort_code-default [] n h = refl
find_abort_code-default (c ∷ cs) n h = ground (arith, h c, find_abort_code-default cs n h)

instance abbrev pub abort_codes :
    FromPrimitive AbortCode AbortCode.discriminant AbortCode.unknown_abort_code
abort_codes = record {
  from = find_abort_code abort_code_variants;
  from-discriminant = find_abort_code-discriminant;
  from-default = find_abort_code-default abort_code_variants;
}
