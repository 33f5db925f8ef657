-- ===== src/Types/Codes.antt =====
-- crates/tandem-core/src/types.rs: the protocol constants, the enums and their wire codes.
pub mod Wire
use tandem_verifier_rs.Prelude.{
  ℕ, List, [], ◌∷◌, Option, none, some, Bool, true, false, Eq, ◌↔◌, ◌≡◌, if◌then◌else◌, ◌==◌,
  nat_eq,
}

-- b"TNDM"
abbrev pub magic : List ℕ
magic = b'T' ∷ b'N' ∷ b'D' ∷ b'M' ∷ []

abbrev pub version : ℕ
version = 1

abbrev pub carrier_value : ℕ
carrier_value = 20_000

abbrev pub refund_delay : ℕ
refund_delay = 52_560

abbrev pub founding_window : ℕ
founding_window = 4_320

abbrev pub init_lead : ℕ
init_lead = 1_008

abbrev pub change_floor : ℕ
change_floor = 1_000

abbrev pub rbf_sequence : ℕ
rbf_sequence = 0xffff_fffd

-- `u32::MAX` and `u64::MAX`
abbrev pub u32_max : ℕ
u32_max = 0xffff_ffff

abbrev pub u64_max : ℕ
u64_max = 0xffff_ffff_ffff_ffff

pub data Network : Type 0 where
  mainnet signet testnet4 regtest : Network

-- `Network::code`
unfoldable pub network_code : Network → ℕ
network_code mainnet = 0
network_code signet = 1
network_code testnet4 = 2
network_code regtest = 3

pub data Opcode : Type 0 where
  init create mark rotate close : Opcode

-- `opcode as u8`
unfoldable pub opcode_code : Opcode → ℕ
opcode_code init = 0
opcode_code create = 1
opcode_code mark = 2
opcode_code rotate = 3
opcode_code close = 4

-- `Opcode::from_byte`
unfoldable pub from_byte : ℕ → Option Opcode
from_byte value =
    if value == 0
    then some init
    else if value == 1
    then some create
    else if value == 2
    then some mark
    else if value == 3
    then some rotate
    else if value == 4
    then some close
    else none

-- `Opcode::payload_len`
unfoldable pub payload_len : Opcode → ℕ
payload_len init = 59
payload_len create = 40
payload_len mark = 78
payload_len rotate = 44
payload_len close = 80

-- `opcode == Opcode::Init`
abbrev pub is_init : Opcode → Bool
is_init init = true
is_init _ = false

pub data Reason : Type 0 where
  valid multiple_markers bad_marker_encoding_or_length unknown_version wrong_network : Reason
  unknown_opcode wrong_namespace unsupported_or_reserved_field : Reason
  bad_tx_version_or_locktime bad_input_count_or_order bad_output_count_or_order : Reason
  unconfirmed_or_same_block_prevout bad_input_script bad_key_order_or_binding : Reason
  bad_signature_or_sighash bad_output_script_or_value nonpositive_or_invalid_fee : Reason
  bad_fee_split_or_change predecessor_not_active bad_state_sequence bad_successor : Reason
  bad_commitment bad_height_or_phase bad_refund_shape_or_maturity : Reason
  multiple_carriers unmarked_carrier_spend : Reason

-- `reason as u16`
unfoldable pub reason_code : Reason → ℕ
reason_code valid = 0x0000
reason_code multiple_markers = 0x0001
reason_code bad_marker_encoding_or_length = 0x0002
reason_code unknown_version = 0x0003
reason_code wrong_network = 0x0004
reason_code unknown_opcode = 0x0005
reason_code wrong_namespace = 0x0006
reason_code unsupported_or_reserved_field = 0x0007
reason_code bad_tx_version_or_locktime = 0x0010
reason_code bad_input_count_or_order = 0x0011
reason_code bad_output_count_or_order = 0x0012
reason_code unconfirmed_or_same_block_prevout = 0x0013
reason_code bad_input_script = 0x0014
reason_code bad_key_order_or_binding = 0x0015
reason_code bad_signature_or_sighash = 0x0016
reason_code bad_output_script_or_value = 0x0017
reason_code nonpositive_or_invalid_fee = 0x0018
reason_code bad_fee_split_or_change = 0x0019
reason_code predecessor_not_active = 0x001a
reason_code bad_state_sequence = 0x001b
reason_code bad_successor = 0x001c
reason_code bad_commitment = 0x001d
reason_code bad_height_or_phase = 0x001e
reason_code bad_refund_shape_or_maturity = 0x001f
reason_code multiple_carriers = 0x0020
reason_code unmarked_carrier_spend = 0x0030

pub data EventType : Type 0 where
  init create mark rotate close refund exited_noncanonical invalid : EventType

-- `event_type as u8`
unfoldable pub event_type_code : EventType → ℕ
event_type_code init = 0
event_type_code create = 1
event_type_code mark = 2
event_type_code rotate = 3
event_type_code close = 4
event_type_code refund = 5
event_type_code exited_noncanonical = 6
event_type_code invalid = 7

-- `EventType::from(opcode)`
unfoldable pub event_type_of : Opcode → EventType
event_type_of init = EventType.init
event_type_of create = EventType.create
event_type_of mark = EventType.mark
event_type_of rotate = EventType.rotate
event_type_of close = EventType.close

pub data ValidityClass : Type 0 where
  invalid_no_state valid_operation terminal_noncanonical : ValidityClass

-- `validity_class as u8`
unfoldable pub validity_code : ValidityClass → ℕ
validity_code invalid_no_state = 0
validity_code valid_operation = 1
validity_code terminal_noncanonical = 2

pub data ObjectStatus : Type 0 where
  active closed refunded exited_noncanonical : ObjectStatus

-- `status as u8`
unfoldable pub status_code : ObjectStatus → ℕ
status_code active = 0
status_code closed = 1
status_code refunded = 2
status_code exited_noncanonical = 3

-- `status == ObjectStatus::Active`
abbrev pub is_active : ObjectStatus → Bool
is_active active = true
is_active _ = false
