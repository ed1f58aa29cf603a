-- ===== src/Mib.antt =====
-- mib.c: the header that a sender takes from the management information base.
pub mod Limits
use ccsds_file_delivery_prot.Common.{ℕ, ◌+◌, ◌*◌}
use ccsds_file_delivery_prot.Packet.Header.{PduHeader, packet_static_header_len}

-- The fields of `Remote_entity` (types.h) that are used.
pub record RemoteEntity : Type 0 where
  pub cfdp_id : ℕ
  pub default_transmission_mode : ℕ
  pub crc_required : ℕ
  pub mtu : ℕ
  pub transaction_inactivity_limit : ℕ

unfoldable pub get_header_from_mib : PduHeader → RemoteEntity → ℕ → PduHeader
get_header_from_mib pdu_header remote my_cfdp_id = record pdu_header {
  reserved_bit_0 = 0;
  reserved_bit_1 = 0;
  reserved_bit_2 = 0;
  crc_flag = remote.crc_required;
  direction = 1;
  pdu_type = 0;
  transaction_seq_num_len = 1;
  length_of_entity_ids = 1;
  transmission_mode = remote.default_transmission_mode;
  destination_id = remote.cfdp_id;
  source_id = my_cfdp_id;
  reserved_space_for_header = 1 * 2 + 1 + packet_static_header_len;
}
