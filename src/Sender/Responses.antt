-- ===== src/Sender/Responses.antt =====
-- protocol_handler.c: what the sending side does with a packet.
use ccsds_file_delivery_prot.Common.{
  ℕ, zero, suc, ◌+◌, ◌-◌, ◌==◌, ltb, if◌then◌else◌, true, Option, none, some, u8, u32, List, [],
  ◌∷◌,
}
use ccsds_file_delivery_prot.Wire.{Buffer, Endian}
use ccsds_file_delivery_prot.Packet.Header.{PduHeader}
use ccsds_file_delivery_prot.Packet.Directives.{
  eof_pdu, finished_pdu, ack_pdu, meta_data_pdu, nak_pdu, nak_directive,
}
use ccsds_file_delivery_prot.Packet.Nak.{get_nak_packet, read_segments}
use ccsds_file_delivery_prot.File.Missing.{Offset}
use ccsds_file_delivery_prot.Request.{Request}
use ccsds_file_delivery_prot.Client.{receive_ack}
use ccsds_file_delivery_prot.Reception.{Port}
use ccsds_file_delivery_prot.Sending.{build_data_packet}
use ccsds_file_delivery_prot.Sender.{
  Sender, with_request, sent_out, and_then, with_turn, start_packet, resend_finished_ack,
  send_put_metadata, send_eof_pdu,
}

module _ (host : Endian) (port : Port) where
  -- A data PDU that cannot be built is left out.
  unfoldable pub send_segment : ℕ → ℕ → Sender → Option Sender
  send_segment start i s =
      let req = s.turn.request in
      elim req.file [
        | none ↦ none
        | some file ↦
            let (data_len, m, disk) =
              build_data_packet host port file s.disk req.buff start req.buff_len i in
            let s : Sender = record (with_request s (record req { buff = m })) { disk = disk } in
            elim data_len [ none ↦ some s | some _ ↦ some (sent_out s) ]
      ]

  unfoldable pub segments_from : ℕ → ℕ → ℕ → ℕ → ℕ → Sender → Option Sender
  segments_from zero start i end segment_len s = none
  segments_from (suc rounds) start i end segment_len s =
      let left = u32 (end + 0x1_0000_0000 - i) in
      let segment_len = if ltb left segment_len then left else segment_len in
      let sent =
        and_then (send_segment start i s)
          λ s. segments_from rounds start (u32 (i + segment_len)) end segment_len s in
      if ltb i end then sent else some s

  unfoldable pub segment_offset_into_data_packets : ℕ → ℕ → Offset → Sender → Option Sender
  segment_offset_into_data_packets rounds start o s =
      let segment_len =
        u32 (u32 (s.turn.request.buff_len + 0x1_0000_0000 - start) + 0x1_0000_0000 - 4) in
      segments_from rounds start o.start o.end segment_len s

  unfoldable pub send_segments : ℕ → ℕ → List Offset → Sender → Option Sender
  send_segments rounds start [] s = some s
  send_segments rounds start (o ∷ os) s =
      and_then (segment_offset_into_data_packets rounds start o s)
        λ s. send_segments rounds start os s

  -- The ranges stand in the packet that was received.
  unfoldable pub process_nak_pdu : ℕ → Buffer → ℕ → PduHeader → Sender → Option Sender
  process_nak_pdu rounds packet i client_header s =
      let (_, nak) = get_nak_packet host packet i in
      let (start, req) = start_packet host 0 client_header s.turn.request in
      send_segments rounds start (read_segments host nak.segment_requests packet nak.segments)
        (with_request s req)

  -- The cases for a directive's code at `packet_index`.
  unfoldable pub parse_packet_client : ℕ → Buffer → ℕ → PduHeader → Sender → Option Sender
  parse_packet_client rounds packet packet_index client_header s =
      let code = u8 (packet.byte packet_index) in
      let i = u32 (packet_index + 1) in
      let req = s.turn.request in
      let finished : Request = record req {
        local_entity = record req.local_entity { transaction_finished_indication = true };
      } in
      let resent = process_nak_pdu rounds packet i client_header s in
      let with_eof = with_turn s (send_eof_pdu host s.turn) in
      if code == finished_pdu
      then some
          (record s { turn = resend_finished_ack host (record s.turn { request = finished }) })
      else if code == nak_pdu
      then resent
      else if code == ack_pdu
      then some
          (with_request s (record req { local_entity = receive_ack packet i req.local_entity }))
      else if code == nak_directive
      then if packet.byte i == meta_data_pdu
        then some (record s { turn = send_put_metadata host s.turn })
        else if packet.byte i == eof_pdu
        then with_eof
        else some s
      else some s
