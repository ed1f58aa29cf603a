-- ===== src/Packet/Directives.antt =====
-- packet.c: the file directives of fixed length. `start` is where the data of the packet begin; the
-- bit fields are or-ed into whatever the buffer holds there.
pub mod Stale
pub mod Eof
pub mod Ack
use ccsds_file_delivery_prot.Common.{ℕ, ◌+◌, ◌-◌, u8, u16, u32}
use ccsds_file_delivery_prot.Wire.{Buffer, Endian, put, put32, get32}
use ccsds_file_delivery_prot.Packet.Fields.{
  set_bits_to_protocol_byte, get_bits_from_protocol_byte, set_packet_directive, set_packet_header,
}

-- PDU types and directive codes (types.h).
abbrev pub directive : ℕ
directive = 0

abbrev pub data_pdu : ℕ
data_pdu = 1

abbrev pub eof_pdu : ℕ
eof_pdu = 0x04

abbrev pub finished_pdu : ℕ
finished_pdu = 0x05

abbrev pub ack_pdu : ℕ
ack_pdu = 0x06

abbrev pub meta_data_pdu : ℕ
meta_data_pdu = 0x07

abbrev pub nak_pdu : ℕ
nak_pdu = 0x08

abbrev pub nak_directive : ℕ
nak_directive = 0x0d

abbrev pub cond_no_error : ℕ
cond_no_error = 0

abbrev pub file_retained_successfully : ℕ
file_retained_successfully = 3

abbrev pub ack_finished_end : ℕ
ack_finished_end = 1

pub record PduFinished : Type 0 where
  pub condition_code : ℕ
  pub end_system_status : ℕ
  pub delivery_code : ℕ
  pub file_status : ℕ

pub record PduEof : Type 0 where
  pub condition_code : ℕ
  pub spare : ℕ
  pub checksum : ℕ
  pub file_size : ℕ

pub record PduAck : Type 0 where
  pub directive_code : ℕ
  pub directive_subtype_code : ℕ
  pub condition_code : ℕ
  pub spare : ℕ
  pub transaction_status : ℕ

-- The directive code of the PDU is behind us: `i` is the place after it.
unfoldable pub get_finished_pdu : Buffer → ℕ → PduFinished
get_finished_pdu m i =
    let get = get_bits_from_protocol_byte (m.byte i) in
    record {
      condition_code = get 0 3;
      end_system_status = get 4 4;
      delivery_code = get 5 5;
      file_status = get 6 7;
    }

unfoldable pub get_ack_from_packet : Buffer → ℕ → PduAck
get_ack_from_packet m i =
    let get = get_bits_from_protocol_byte in
    record {
      directive_code = get (m.byte i) 0 3;
      directive_subtype_code = get (m.byte i) 4 7;
      condition_code = get (m.byte (i + 1)) 0 3;
      spare = get (m.byte (i + 1)) 4 5;
      transaction_status = get (m.byte (i + 1)) 6 7;
    }

module _ (host : Endian) where
  unfoldable pub get_eof_from_packet : Buffer → ℕ → PduEof
  get_eof_from_packet m i =
      let get = get_bits_from_protocol_byte (m.byte i) in
      record {
        condition_code = get 0 3;
        spare = get 4 7;
        file_size = get32 host m (i + 1);
        checksum = get32 host m (i + 5);
      }

  -- The length of the data, and the buffer.
  unfoldable pub build_finished_pdu : Buffer → ℕ → ℕ × Buffer
  build_finished_pdu m start =
      let packet_index = start in
      let m = put m packet_index finished_pdu in
      let packet_index = u32 (packet_index + 1) in
      let m = set_bits_to_protocol_byte m packet_index 0 3 cond_no_error in
      let m = set_bits_to_protocol_byte m packet_index 4 4 0 in
      let m = set_bits_to_protocol_byte m packet_index 5 5 0 in
      let m = set_bits_to_protocol_byte m packet_index 6 7 file_retained_successfully in
      let packet_index = u32 (packet_index + 1) in
      let data_len = u16 (u32 (packet_index + 0x1_0000_0000 - start)) in
      (u8 data_len, set_packet_header host m data_len directive)

  -- The index is a `uint8_t`.
  unfoldable pub build_eof_packet : Buffer → ℕ → ℕ → ℕ → Buffer
  build_eof_packet m start file_size checksum =
      let packet_index = u8 start in
      let m = set_packet_directive m packet_index eof_pdu in
      let packet_index = u8 (packet_index + 1) in
      let m = set_bits_to_protocol_byte m packet_index 0 3 cond_no_error in
      let m = set_bits_to_protocol_byte m packet_index 4 7 0 in
      let packet_index = u8 (packet_index + 1) in
      let m = put32 host m packet_index file_size in
      let packet_index = u8 (packet_index + 4) in
      let m = put32 host m packet_index checksum in
      let packet_index = u8 (packet_index + 4) in
      let data_len = u16 (u32 (packet_index + 0x1_0000_0000 - start)) in
      set_packet_header host m data_len directive

  unfoldable pub build_ack : Buffer → ℕ → ℕ → ℕ × Buffer
  build_ack m start type =
      let m = put m start ack_pdu in
      let packet_index = u32 (start + 1) in
      let m = set_bits_to_protocol_byte m packet_index 0 3 type in
      let m = set_bits_to_protocol_byte m packet_index 4 7 ack_finished_end in
      let packet_index = u32 (packet_index + 1) in
      let m = set_bits_to_protocol_byte m packet_index 0 3 cond_no_error in
      let packet_index = u32 (packet_index + 1) in
      let data_len = u16 (u32 (packet_index + 0x1_0000_0000 - start)) in
      (u8 data_len, set_packet_header host m data_len directive)

  unfoldable pub build_nak_directive : Buffer → ℕ → ℕ → ℕ × Buffer
  build_nak_directive m start missing_directive =
      let data_len : ℕ = 2 in
      let m = put m start nak_directive in
      let m = put m (start + 1) missing_directive in
      (data_len, set_packet_header host m data_len directive)
