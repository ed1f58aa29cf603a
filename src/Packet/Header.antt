-- ===== src/Packet/Header.antt =====
-- packet.c: the header of a protocol data unit. The bit fields of `Pdu_header` (types.h) are
-- numbers below the power of two that their width gives.
pub mod Static
pub mod Build
pub mod RoundTrip
use ccsds_file_delivery_prot.Common.{
  ℕ, ◌+◌, ◌*◌, ◌%◌, ◌^◌, ◌<◌, Bool, not, ◌==◌, if◌then◌else◌, Option, none, some, u8, u16, u32,
}
use ccsds_file_delivery_prot.Wire.{Buffer, Endian, memset}
use ccsds_file_delivery_prot.Packet.Fields.{
  set_bits_to_protocol_byte, get_bits_from_protocol_byte, set_data_length, get_data_length,
}
use ccsds_file_delivery_prot.Packet.Ids.{copy_id_to_packet, copy_id_from_packet, error_id}

pub record PduHeader : Type 0 where
  pub version : ℕ
  pub pdu_type : ℕ
  pub direction : ℕ
  pub transmission_mode : ℕ
  pub crc_flag : ℕ
  pub reserved_bit_0 : ℕ
  pub pdu_data_field_len : ℕ
  pub reserved_bit_1 : ℕ
  pub length_of_entity_ids : ℕ
  pub reserved_bit_2 : ℕ
  pub transaction_seq_num_len : ℕ
  pub source_id : ℕ
  pub transaction_sequence_number : ℕ
  pub destination_id : ℕ
  pub reserved_space_for_header : ℕ

abbrev pub packet_static_header_len : ℕ
packet_static_header_len = 4

-- Whether a length that `copy_id_to_packet` returned is the expected one; -1 is not.
abbrev pub is_length : Option ℕ → ℕ → Bool
is_length none n = Bool.false
is_length (some len) n = len == n

-- The fields of the first byte, and those of the fourth.
unfoldable pub set_flags : Buffer → ℕ → PduHeader → Buffer
set_flags m transmission_mode h =
    let m = set_bits_to_protocol_byte m 0 0 2 h.version in
    let m = set_bits_to_protocol_byte m 0 3 3 h.pdu_type in
    let m = set_bits_to_protocol_byte m 0 4 4 h.direction in
    let m = set_bits_to_protocol_byte m 0 5 5 (u8 transmission_mode) in
    let m = set_bits_to_protocol_byte m 0 6 6 h.crc_flag in
    set_bits_to_protocol_byte m 0 7 7 h.reserved_bit_0

unfoldable pub set_lengths : Buffer → PduHeader → Buffer
set_lengths m h =
    let m = set_bits_to_protocol_byte m 3 0 0 h.reserved_bit_1 in
    let m = set_bits_to_protocol_byte m 3 1 3 h.length_of_entity_ids in
    let m = set_bits_to_protocol_byte m 3 4 4 h.reserved_bit_2 in
    set_bits_to_protocol_byte m 3 5 7 h.transaction_seq_num_len

module _ (host : Endian) where
  -- The first four bytes.
  unfoldable pub build_static_header : Buffer → ℕ → ℕ → PduHeader → Buffer
  build_static_header m transmission_mode data_len h =
      let m = set_flags (memset m 0 0 4) transmission_mode h in
      set_lengths (set_data_length host m data_len) h

  -- Where the data start, or `none` for -1: an id does not have the length that the header states.
  unfoldable pub build_pdu_header : Buffer → ℕ → ℕ → ℕ → PduHeader → Option ℕ × Buffer
  build_pdu_header m transaction_sequence_number transmission_mode data_len h =
      let m = build_static_header m transmission_mode data_len h in
      let source_id_location = packet_static_header_len in
      let (len, m) = copy_id_to_packet host m source_id_location h.source_id in
      if not (is_length len h.length_of_entity_ids)
      then (none, m)
      else let transaction_number_location = u32 (source_id_location + h.length_of_entity_ids) in
        let (len, m) =
          copy_id_to_packet host m transaction_number_location transaction_sequence_number in
        if not (is_length len h.transaction_seq_num_len)
        then (none, m)
        else let dest_id_location = u32 (transaction_number_location + h.transaction_seq_num_len) in
          let (len, m) = copy_id_to_packet host m dest_id_location h.destination_id in
          if not (is_length len h.length_of_entity_ids)
          then (none, m)
          else (some (dest_id_location + h.length_of_entity_ids), m)

  -- The return value, `none` for -1, and the header as far as it was filled in. The two 32-bit ids
  -- are compared with a 64-bit error value.
  unfoldable pub get_pdu_header_from_packet : Buffer → PduHeader → Option ℕ × PduHeader
  get_pdu_header_from_packet m h =
      let get = get_bits_from_protocol_byte in
      let h : PduHeader = record h {
        version = get (m.byte 0) 0 2;
        pdu_type = get (m.byte 0) 3 3;
        direction = get (m.byte 0) 4 4;
        transmission_mode = get (m.byte 0) 5 5;
        crc_flag = get (m.byte 0) 6 6;
        reserved_bit_0 = get (m.byte 0) 7 7;
        pdu_data_field_len = get_data_length host m;
        reserved_bit_1 = get (m.byte 3) 0 0;
        length_of_entity_ids = get (m.byte 3) 1 3;
        reserved_bit_2 = get (m.byte 3) 4 4;
        transaction_seq_num_len = get (m.byte 3) 5 7;
      } in
      let source_id_location = packet_static_header_len in
      let h : PduHeader = record h {
        source_id = u32 (copy_id_from_packet host m source_id_location h.length_of_entity_ids);
      } in
      if h.source_id == error_id
      then (none, h)
      else let transaction_number_location = source_id_location + h.length_of_entity_ids in
        let h : PduHeader = record h {
          transaction_sequence_number =
              copy_id_from_packet host m transaction_number_location h.transaction_seq_num_len;
        } in
        if h.transaction_sequence_number == error_id
        then (none, h)
        else let dest_id_location = transaction_number_location + h.transaction_seq_num_len in
          let h : PduHeader = record h {
            destination_id =
                u32 (copy_id_from_packet host m dest_id_location h.length_of_entity_ids);
          } in
          if h.destination_id == error_id
          then (none, h)
          else let h : PduHeader = record h {
            reserved_space_for_header = dest_id_location + h.length_of_entity_ids;
          } in
            (some h.reserved_space_for_header, h)
