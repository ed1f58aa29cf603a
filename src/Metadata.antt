-- ===== src/Metadata.antt =====
-- packet.c and protocol_handler.c: the metadata PDU, and what its messages start.
pub mod RoundTrip
use ccsds_file_delivery_prot.Common.{
  ℕ, zero, suc, ◌+◌, ◌-◌, ◌==◌, ltb, if◌then◌else◌, not, ◌&&◌, Bool, true, false, Option, none,
  some, u8, u16, u32, List, [], ◌∷◌, ◌++◌,
}
use ccsds_file_delivery_prot.Wire.{Buffer, Bytes, Endian, at, get32, put32, put, memcpy, memset}
use ccsds_file_delivery_prot.Packet.Fields.{
  get_bits_from_protocol_byte, get_data_length, set_packet_directive, set_bits_to_protocol_byte,
  set_packet_header,
}
use ccsds_file_delivery_prot.Packet.Header.{PduHeader}
use ccsds_file_delivery_prot.Packet.Directives.{
  directive, data_pdu, eof_pdu, ack_pdu, finished_pdu, meta_data_pdu, get_eof_from_packet,
  get_ack_from_packet,
}
use ccsds_file_delivery_prot.File.Missing.{Offset, Alloc, add_first_offset}
use ccsds_file_delivery_prot.Message.{
  Message, MessagePutProxy, MessageContPartRequest, put_proxy, cont_part, other_message, strnlen,
  max_path, add_messages_to_packet, get_messages_from_packet,
}
use ccsds_file_delivery_prot.Request.{Request, File, LocalEntity, RequestProcedure, clean_up, Turn}
use ccsds_file_delivery_prot.Reception.{Port, Disk, process_data}

-- `build_put_packet_metadata`, with an index of eight bits. The messages start at the index that is
-- then added to itself.
unfoldable pub build_put_packet_metadata : Endian → Buffer → ℕ → Request → ℕ × Buffer
build_put_packet_metadata host m start req =
    let i = u8 start in
    let m = set_packet_directive m i meta_data_pdu in
    let i = u8 (i + 1) in
    let m = set_bits_to_protocol_byte m i 0 0 req.segmentation_control in
    let i = u8 (i + 1) in
    let m = put32 host m i req.file_size in
    let i = u8 (i + 4) in
    let source_length = u8 (strnlen (at req.source_file_name 0) max_path) in
    let destination_length = u8 (strnlen (at req.destination_file_name 0) max_path) in
    let m = put m i source_length in
    let i = u8 (i + 1) in
    let m = memcpy m i (at req.source_file_name 0) source_length in
    let i = u8 (i + source_length) in
    let m = put m i destination_length in
    let i = u8 (i + 1) in
    let m = memcpy m i (at req.destination_file_name 0) destination_length in
    let i = u8 (i + destination_length) in
    let (m, added) = add_messages_to_packet host req.messages_to_user (m, i) in
    let i = u8 (i + added) in
    let data_len = u8 (i + 0x1_0000_0000 - start) in
    (i, set_packet_header host m data_len directive)

-- The index, of eight bits again, behind the names.
unfoldable pub parse_metadata_packet : Endian → Buffer → ℕ → Request → ℕ × Request
parse_metadata_packet host packet start req =
    let source = memset req.source_file_name 0 0 max_path in
    let destination = memset req.destination_file_name 0 0 max_path in
    let segmentation_control = get_bits_from_protocol_byte (packet.byte start) 0 0 in
    let i = u8 (start + 1) in
    let file_size = get32 host packet i in
    let i = u8 (i + 4) in
    let source_length = u8 (packet.byte i) in
    let i = u8 (i + 1) in
    let source = memcpy source 0 (at packet i) source_length in
    let i = u8 (i + source_length) in
    let destination_length = u8 (packet.byte i) in
    let i = u8 (i + 1) in
    let destination = memcpy destination 0 (at packet i) destination_length in
    (
      u8 (i + destination_length),
      record req {
        source_file_name = source;
        destination_file_name = destination;
        segmentation_control = segmentation_control;
        file_size = file_size;
      },
    )

-- What a message starts: a transfer that was asked for, or one that goes on.
pub data Started : Type 0 where
  put_request : MessagePutProxy → Started
  init_cont_partial_request : MessageContPartRequest → Started

-- The messages are popped from the end. One that asks to continue what another entity sent ends the
-- loop, and those before it stay.
unfoldable pub process_messages_from : ℕ → List Message → List Started × List Message
process_messages_from my_id [] = ([], [])
process_messages_from my_id (put_proxy m ∷ ms) =
    let (started, left) = process_messages_from my_id ms in (put_request m ∷ started, left)
process_messages_from my_id (cont_part m ∷ ms) =
    let (started, left) = process_messages_from my_id ms in
    if m.originator_id == my_id then (init_cont_partial_request m ∷ started, left) else ([], ms)
process_messages_from my_id (other_message type ∷ ms) = process_messages_from my_id ms

abbrev pub reversed : List Message → List Message → List Message
reversed [] acc = acc
reversed (m ∷ ms) acc = reversed ms (m ∷ acc)

unfoldable pub process_messages : ℕ → Request → List Started × Request
process_messages my_id req =
    let (started, left) = process_messages_from my_id (reversed req.messages_to_user []) in
    (started, record req { messages_to_user = reversed left [] })
