-- ===== src/Request.antt =====
-- The state of one transaction (types.h): `Request`, its `File` and its `Local_entity`, with the
-- fields that the modelled handlers use, and the packets that were handed to `ssp_sendto`.
use ccsds_file_delivery_prot.Common.{ℕ, Bool, List, Option, ◌++◌, [], ◌∷◌}
use ccsds_file_delivery_prot.Wire.{Buffer}
use ccsds_file_delivery_prot.Packet.Header.{PduHeader}
use ccsds_file_delivery_prot.File.Missing.{Offset}
use ccsds_file_delivery_prot.Message.{Message}

pub data RequestProcedure : Type 0 where
  no_procedure sending_nak_data clean_up sending_start : RequestProcedure

abbrev pub un_acknowledged_mode : ℕ
un_acknowledged_mode = 1

pub record File : Type 0 where
  pub is_temp : Bool
  pub next_offset_to_send : ℕ
  pub total_size : ℕ
  pub partial_checksum : ℕ
  pub eof_checksum : ℕ
  pub missing_offsets : List Offset

pub record LocalEntity : Type 0 where
  pub eof_sent_indication : Bool
  pub metadata_sent_indication : Bool
  pub eof_recv_indication : Bool
  pub transaction_finished_indication : Bool
  pub metadata_recv_indication : Bool

-- `file` is `none` for NULL; `packet_len` is that of `res`.
pub record Request : Type 0 where
  pub procedure : RequestProcedure
  pub transaction_sequence_number : ℕ
  pub dest_cfdp_id : ℕ
  pub my_cfdp_id : ℕ
  pub file : Option File
  pub file_size : ℕ
  pub source_file_name : Buffer
  pub destination_file_name : Buffer
  pub timeout_before_cancel : ℕ
  pub timeout_before_journal : ℕ
  pub segmentation_control : ℕ
  pub transmission_mode : ℕ
  pub paused : Bool
  pub resent_eof : ℕ
  pub resent_finished : ℕ
  pub local_entity : LocalEntity
  pub messages_to_user : List Message
  pub buff_len : ℕ
  pub buff : Buffer
  pub pdu_header : PduHeader
  pub packet_len : ℕ

-- A request, and the buffers that were sent for it, the first one first.
pub record Turn : Type 0 where
  pub request : Request
  pub sent : List Buffer

-- The bytes in `buff` go out.
unfoldable pub ssp_sendto : Turn → Turn
ssp_sendto t = record t { sent = t.sent ++ (t.request.buff ∷ []) }
