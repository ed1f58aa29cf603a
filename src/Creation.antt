-- ===== src/Creation.antt =====
-- requests.c: how a request is made.
pub mod Put
use ccsds_file_delivery_prot.Common.{ℕ, true, false, none, []}
use ccsds_file_delivery_prot.Wire.{Buffer}
use ccsds_file_delivery_prot.Packet.Header.{PduHeader}
use ccsds_file_delivery_prot.Request.{Request, LocalEntity, no_procedure}

-- A header that was set to 0.
abbrev pub zero_header : PduHeader
zero_header = record {
  version = 0;
  pdu_type = 0;
  direction = 0;
  transmission_mode = 0;
  crc_flag = 0;
  reserved_bit_0 = 0;
  pdu_data_field_len = 0;
  reserved_bit_1 = 0;
  length_of_entity_ids = 0;
  reserved_bit_2 = 0;
  transaction_seq_num_len = 0;
  source_id = 0;
  transaction_sequence_number = 0;
  destination_id = 0;
  reserved_space_for_header = 0;
}

abbrev pub zero_buffer : Buffer
zero_buffer = record { byte = λ i. 0 }

abbrev pub no_indications : LocalEntity
no_indications = record {
  eof_sent_indication = false;
  metadata_sent_indication = false;
  eof_recv_indication = false;
  transaction_finished_indication = false;
  metadata_recv_indication = false;
}

-- All zero, but paused and with the time.
unfoldable pub init_request_no_client : ℕ → Request
init_request_no_client now = record {
  procedure = no_procedure;
  transaction_sequence_number = 0;
  dest_cfdp_id = 0;
  my_cfdp_id = 0;
  file = none;
  file_size = 0;
  source_file_name = zero_buffer;
  destination_file_name = zero_buffer;
  timeout_before_cancel = now;
  timeout_before_journal = now;
  segmentation_control = 0;
  transmission_mode = 0;
  paused = true;
  resent_eof = 0;
  resent_finished = 0;
  local_entity = no_indications;
  messages_to_user = [];
  buff_len = 0;
  buff = zero_buffer;
  pdu_header = zero_header;
  packet_len = 0;
}

unfoldable pub init_request : ℕ → Buffer → ℕ → Request
unfolding init_request_no_client
init_request now buff buff_len = record (init_request_no_client now) {
  buff_len = buff_len;
  buff = buff;
}
