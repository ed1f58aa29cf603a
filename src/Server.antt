-- ===== src/Server.antt =====
-- protocol_handler.c: what the receiving side sends when its timer runs out.
pub mod Timeout
pub mod Completion
use ccsds_file_delivery_prot.Common.{
  ℕ, ◌+◌, ltb, ◌==◌, if◌then◌else◌, Bool, true, false, not, ◌&&◌, ◌||◌, Option, none, some, List,
  length, u8,
}
use ccsds_file_delivery_prot.Wire.{Buffer, Endian}
use ccsds_file_delivery_prot.Packet.Header.{build_pdu_header}
use ccsds_file_delivery_prot.Packet.Directives.{
  eof_pdu, meta_data_pdu, build_ack, build_nak_directive, build_finished_pdu,
}
use ccsds_file_delivery_prot.Packet.Nak.{build_nak_packet}
use ccsds_file_delivery_prot.Request.{
  Request, File, LocalEntity, RequestProcedure, clean_up, un_acknowledged_mode, Turn, ssp_sendto,
}

abbrev pub resend_eof_times : ℕ
resend_eof_times = 1

abbrev pub resend_finished_times : ℕ
resend_finished_times = 1

-- What a `uint8_t` holds of the result of `build_pdu_header`: -1 becomes 255.
abbrev pub start_of : Option ℕ → ℕ
start_of none = 255
start_of (some start) = u8 start

module _ (host : Endian) where
  -- The header of an answer in the request's buffer, and where its data start.
  unfoldable pub start_answer : ℕ → Request → ℕ × Buffer
  start_answer mode req =
      let (start, m) =
        build_pdu_header host req.buff req.transaction_sequence_number mode 0 req.pdu_header in
      (start_of start, m)

  unfoldable pub send_ack : ℕ → Turn → Turn
  send_ack type t =
      let req = t.request in
      if req.transmission_mode == un_acknowledged_mode
      then t
      else let (start, m) = start_answer req.transmission_mode req in
        let (_, m) = build_ack host m start type in
        ssp_sendto (record t { request = record req { buff = m } })

  unfoldable pub send_nak : ℕ → Turn → Turn
  send_nak type t =
      let req = t.request in
      if req.transmission_mode == un_acknowledged_mode
      then t
      else let (start, m) = start_answer req.transmission_mode req in
        let (_, m) = build_nak_directive host m start type in
        ssp_sendto (record t { request = record req { buff = m } })

  unfoldable pub resend_eof_ack : Turn → Turn
  resend_eof_ack t =
      let t = send_ack eof_pdu t in
      record t { request = record t.request { resent_eof = u8 (t.request.resent_eof + 1) } }

  abbrev pub request_eof : Turn → Turn
  request_eof t = send_nak eof_pdu t

  abbrev pub request_metadata : Turn → Turn
  request_metadata t = send_nak meta_data_pdu t

  -- `none` is the fault of a list without ranges.
  unfoldable pub request_data : File → Turn → Option Turn
  request_data file t =
      let req = t.request in
      let (start, m) = start_answer 1 req in
      elim (build_nak_packet host m start req.packet_len file.missing_offsets) [
        | none ↦ none
        | some (_, m) ↦ some (ssp_sendto (record t { request = record req { buff = m } }))
      ]

  unfoldable pub resend_finished_pdu : Turn → Turn
  resend_finished_pdu t =
      let req = t.request in
      let (start, m) = start_answer 1 req in
      let (_, m) = build_finished_pdu host m start in
      let t = ssp_sendto (record t { request = record req { buff = m } }) in
      record t {
        request = record t.request { resent_finished = u8 (t.request.resent_finished + 1) };
      }

  -- The last part of `on_server_time_out`: the ranges, or the end of the transaction.
  unfoldable pub request_or_finish : File → Turn → Option Turn
  request_or_finish file t =
      let req = t.request in
      if ltb 0 (length file.missing_offsets)
      then request_data file t
      else if file.eof_checksum == file.partial_checksum && req.local_entity.eof_recv_indication
      then some (
          resend_finished_pdu (record t {
            request = record req {
              local_entity = record req.local_entity { transaction_finished_indication = true };
            };
          }))
      else some t

  unfoldable pub request_or_finish_file : Option File → Turn → Option Turn
  request_or_finish_file none t = some t
  request_or_finish_file (some file) t = request_or_finish file t

  -- EOF is asked for, or acknowledged a few times.
  unfoldable pub request_or_ack_eof : Turn → Turn
  request_or_ack_eof t =
      let req = t.request in
      if not req.local_entity.eof_recv_indication
      then request_eof t
      else if ltb req.resent_eof resend_eof_times
      then resend_eof_ack t
      else t

  unfoldable pub on_server_time_out : Turn → Option Turn
  on_server_time_out t =
      let req = t.request in
      let local = req.local_entity in
      if req.paused || req.transmission_mode == un_acknowledged_mode
      then some t
      else if local.transaction_finished_indication
          && not (resend_finished_times == req.resent_finished)
      then some (resend_finished_pdu t)
      else if (req.resent_finished == resend_finished_times)
          && local.transaction_finished_indication
      then some (record t { request = record req { procedure = clean_up } })
      else if not local.metadata_recv_indication
      then some (request_metadata t)
      else if req.file_size == 0 && not (resend_finished_times == req.resent_finished)
      then some (resend_finished_pdu t)
      else let t = request_or_ack_eof t in request_or_finish_file t.request.file t
