-- ===== src/Packet/Fields.antt =====
-- packet.c: bit fields of one byte, and the parts of the header that every builder sets.
pub mod Laws
use ccsds_file_delivery_prot.Common.{
  ℕ, ◌+◌, ◌-◌, ◌*◌, ◌/◌, ◌%◌, ◌^◌, bit_or, Bool, true, false, if◌then◌else◌, u8, u16,
}
use ccsds_file_delivery_prot.Wire.{Buffer, Endian, put, put16, get16}

-- The byte after `*byte |= value << (7 - to)`, all in `char`.
abbrev pub or_bits : ℕ → ℕ → ℕ → ℕ
or_bits byte to_position value = bit_or byte (u8 (u8 value * 2 ^ u8 (7 + 256 - to_position)))

-- Bits are counted from the most significant one. The source makes no use of `from_position`.
unfoldable pub set_bits_to_protocol_byte : Buffer → ℕ → ℕ → ℕ → ℕ → Buffer
set_bits_to_protocol_byte m i from_position to_position value =
    put m i (or_bits (m.byte i) to_position value)

unfoldable pub get_bits_from_protocol_byte : ℕ → ℕ → ℕ → ℕ
get_bits_from_protocol_byte byte from_position to_position =
    let bits_to_shift_right = u8 (256 + 8 - (to_position + 1 - from_position)) in
    let bits_to_get = u8 (byte * 2 ^ from_position) in bits_to_get / 2 ^ bits_to_shift_right

unfoldable pub set_packet_directive : Buffer → ℕ → ℕ → Buffer
set_packet_directive m location directive = put m location directive

module _ (host : Endian) where
  unfoldable pub set_data_length : Buffer → ℕ → Buffer
  set_data_length m data_len = put16 host m 1 (u16 data_len)

  unfoldable pub get_data_length : Buffer → ℕ
  get_data_length m = get16 host m 1

  -- `is_data_packet` is 1 for file data, 0 for a directive.
  unfoldable pub set_packet_header : Buffer → ℕ → ℕ → Buffer
  unfolding set_data_length set_bits_to_protocol_byte
  set_packet_header m data_len is_data_packet =
      set_data_length (set_bits_to_protocol_byte m 0 3 3 is_data_packet) data_len
