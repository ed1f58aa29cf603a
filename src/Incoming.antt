-- ===== src/Incoming.antt =====
-- protocol_handler.c and filesystem_funcs.c: what the receiving side does with a packet. What the JSON
-- file of a saved transaction holds (`get_req_from_file`) is an argument; a program that follows NULL,
-- or an answer without a range, has no result.
pub mod Handler
pub mod Directive
pub mod Total
use ccsds_file_delivery_prot.Common.{
  ℕ, zero, suc, ◌+◌, ◌-◌, ◌==◌, ltb, if◌then◌else◌, not, ◌&&◌, Bool, true, false, Option, none,
  some, u8, u16, u32, List, [], ◌∷◌, ◌++◌,
}
use ccsds_file_delivery_prot.Wire.{Buffer, Bytes, Endian, at, get32, put32, put, memcpy, memset}
use ccsds_file_delivery_prot.Packet.Fields.{
  get_bits_from_protocol_byte, get_data_length, set_packet_directive, set_bits_to_protocol_byte,
  set_packet_header,
}
use ccsds_file_delivery_prot.Packet.Header.{PduHeader}
use ccsds_file_delivery_prot.Packet.Directives.{
  directive, data_pdu, eof_pdu, ack_pdu, finished_pdu, meta_data_pdu, get_eof_from_packet,
  get_ack_from_packet,
}
use ccsds_file_delivery_prot.File.Missing.{Offset, Alloc, add_first_offset}
use ccsds_file_delivery_prot.Message.{
  Message, MessagePutProxy, MessageContPartRequest, put_proxy, cont_part, other_message, strnlen,
  max_path, add_messages_to_packet, get_messages_from_packet,
}
use ccsds_file_delivery_prot.Request.{Request, File, LocalEntity, RequestProcedure, clean_up, Turn}
use ccsds_file_delivery_prot.Server.{send_ack}
use ccsds_file_delivery_prot.Metadata.{Started, parse_metadata_packet, process_messages}
use ccsds_file_delivery_prot.Reception.{Port, Disk, process_data}

-- The calls that a file on disk needs: `create_file`, whose result is `none` for NULL, and whether
-- there is memory for its first offset and for the node of that. Its checksum and its total size begin with 0.
pub record Storage : Type 0 where
  pub create_file : Bytes → Option File
  pub offset_memory : Bool
  pub node_memory : Bool
  -- The name that `ssp_snprintf` makes from a transaction number.
  pub temp_name : ℕ → Buffer
  -- What `get_req_from_file` makes of a request, and whether it does not return -1.
  pub saved : PduHeader → Request → Bool × Request

-- `none` for -1.
unfoldable pub with_first_offset : Storage → File → ℕ → Option File
with_first_offset disk file file_size =
    elim (add_first_offset disk.offset_memory disk.node_memory file.missing_offsets file_size) [
      | none ↦ none
      | some missing ↦ some (record file { missing_offsets = missing })
    ]

-- A file that cannot be created is followed as NULL: the outer `none`. The inner one is the NULL that
-- is returned.
unfoldable pub create_temp_file : Storage → Bytes → ℕ → Option (Option File)
create_temp_file disk name size = elim (disk.create_file name) [
  | none ↦ none
  | some file ↦
      some (with_first_offset disk (record file { is_temp = true; total_size = size }) size)
]

-- The last offset ends with the file then; a file with no offset left stays a temporary one.
abbrev pub with_last_end : Offset → List Offset → ℕ → List Offset
with_last_end o [] size = record o { end = size } ∷ []
with_last_end o (p ∷ ps) size = o ∷ with_last_end p ps size

unfoldable pub change_tempfile_to_actual : ℕ → File → File
change_tempfile_to_actual file_size file = elim file.missing_offsets [
  | [] ↦ file
  | o ∷ os ↦ record file {
    missing_offsets = with_last_end o os file_size;
    is_temp = false;
    total_size = file_size;
  }
]

unfoldable pub build_temperary_file : Storage → ℕ → Request → Option Request
build_temperary_file disk size req =
    let name = disk.temp_name req.transaction_sequence_number in
    elim (create_temp_file disk (at name 0) size) [
      | none ↦ none
      | some file ↦ some (record req { source_file_name = name; file = file })
    ]

-- EOF before any file: without metadata the file is still NULL when its checksum is set.
unfoldable pub take_eof : ℕ → ℕ → Request → Option Request
take_eof checksum size req = elim req.file [
  | none ↦ none
  | some file ↦ some (record req {
    local_entity = record req.local_entity { eof_recv_indication = true };
    file = some (record file { eof_checksum = checksum; total_size = size });
  })
]

abbrev pub is_null : Option File → Bool
is_null none = true
is_null (some file) = false

unfoldable pub process_pdu_eof : Endian → Storage → Buffer → ℕ → Request → Option Request
process_pdu_eof host disk packet i req =
    let eof = get_eof_from_packet host packet i in
    let built : Option Request = elim (build_temperary_file disk eof.file_size req) [
      | none ↦ none
      | some req ↦ take_eof eof.checksum eof.file_size req
    ] in
    if is_null req.file && req.local_entity.metadata_recv_indication
    then built
    else take_eof eof.checksum eof.file_size req

-- A file whose first offset finds no memory is freed and still pointed to: `none`. A temporary file is
-- renamed on the disk.
unfoldable pub process_file_request_metadata : Storage → Request → Option Request
process_file_request_metadata disk req = elim req.file [
  | none ↦ elim (disk.create_file (at req.destination_file_name 0)) [
    | none ↦ some req
    | some file ↦ elim (with_first_offset disk file req.file_size) [
      | none ↦ none
      | some file ↦ some (record req { file = some file })
    ]
  ]
  | some file ↦
      if file.is_temp
      then some (record req { file = some (change_tempfile_to_actual req.file_size file) })
      else elim (with_first_offset disk file req.file_size) [
        | none ↦ none
        | some file ↦ some (record req { file = some file })
      ]
]

-- A request, what was sent for it, the requests it started, and its file's contents.
pub record Receiver : Type 0 where
  pub turn : Turn
  pub started : List Started
  pub disk : Disk

abbrev pub with_request : Receiver → Request → Receiver
with_request r req = record r { turn = record r.turn { request = req } }

abbrev pub temp_filesize : ℕ
temp_filesize = 1_000

unfoldable pub finish_metadata : Storage → Receiver → Option Receiver
finish_metadata disk r =
    let req = r.turn.request in
    if not (req.file_size == 0)
    then elim (process_file_request_metadata disk req) [
      | none ↦ none
      | some req ↦ some (with_request r req)
    ]
    else some (
        with_request r (record req {
          local_entity = record req.local_entity { eof_recv_indication = true };
          procedure = clean_up;
          paused = true;
        }))

unfoldable pub receive_finished_ack : Buffer → ℕ → Request → Request
receive_finished_ack packet i req =
    let ack = get_ack_from_packet packet i in
    if ack.directive_code == finished_pdu
    then record req {
      local_entity = record req.local_entity { transaction_finished_indication = true };
    }
    else req

abbrev pub returning : Option ℕ → Option Receiver → Option (Option ℕ × Receiver)
returning result none = none
returning result (some r) = some (result, r)

module _ (host : Endian) (disk : Storage) (port : Port) (fuel : ℕ) (alloc : Alloc)
    (my_cfdp_id : ℕ) where
  -- What follows the request's metadata and messages.
  unfoldable pub answer_metadata : Request → Receiver → Option Receiver
  answer_metadata req r =
      let (started, req) = process_messages my_cfdp_id req in
      let turn = send_ack host meta_data_pdu (record r.turn { request = req }) in
      finish_metadata disk (record r { turn = turn; started = r.started ++ started })

  unfoldable pub process_metadata : Buffer → ℕ → Receiver → Option Receiver
  process_metadata packet i r =
      let req = r.turn.request in
      let req : Request = record req {
        local_entity = record req.local_entity { metadata_recv_indication = true };
      } in
      let (i, req) = parse_metadata_packet host packet i req in
      elim (get_messages_from_packet host fuel packet i (get_data_length host packet)
        req.messages_to_user) [
          | none ↦ none
          | some (_, messages) ↦ answer_metadata (record req { messages_to_user = messages }) r
        ]

  abbrev saved_or_temporary : Bool × Request → Option Request
  saved_or_temporary (is_saved, req) =
      if is_saved then some req else build_temperary_file disk temp_filesize req

  -- The file that data are for, when there is none and no metadata.
  unfoldable pub find_file : PduHeader → Request → Option Request
  find_file incoming_header req =
      if not req.local_entity.metadata_recv_indication && is_null req.file
      then saved_or_temporary (disk.saved incoming_header req)
      else some req

  unfoldable pub receive_data : Buffer → ℕ → ℕ → PduHeader → Receiver → Option Receiver
  receive_data packet i data_len incoming_header r =
      elim (find_file incoming_header r.turn.request) [
        | none ↦ none
        | some req ↦ elim (process_data host port fuel alloc packet i data_len req.file r.disk) [
          | none ↦ none
          | some (file, contents) ↦
              some (record (with_request r (record req { file = file })) { disk = contents })
        ]
      ]

  unfoldable pub receive_directive : Buffer → ℕ → ℕ → Receiver → Option Receiver
  receive_directive packet i code r =
      let local = r.turn.request.local_entity in
      let metadata = process_metadata packet i r in
      let eof : Option Receiver = elim (process_pdu_eof host disk packet i r.turn.request) [
        | none ↦ none
        | some req ↦ some (with_request r req)
      ] in
      if code == meta_data_pdu
      then if local.metadata_recv_indication then some r else metadata
      else if code == eof_pdu
      then if local.eof_recv_indication then some r else eof
      else if code == ack_pdu
      then some (with_request r (receive_finished_ack packet i r.turn.request))
      else some r

  -- `parse_packet_server`: the length of the packet, `none` for -1.
  unfoldable pub parse_packet_server :
      Buffer → ℕ → PduHeader → Receiver → Option (Option ℕ × Receiver)
  parse_packet_server packet packet_index incoming_header r =
      let data_len = get_data_length host packet in
      let packet_len = u32 (packet_index + data_len) in
      let written =
        returning (some packet_len) (receive_data packet packet_index data_len incoming_header r) in
      let handled =
        returning (some packet_len)
          (receive_directive packet (packet_index + 1) (packet.byte packet_index) r) in
      if packet_index == 0
      then some (none, r)
      else if incoming_header.pdu_type == data_pdu
      then written
      else handled
