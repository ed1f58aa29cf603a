-- ===== src/Application/Ids.antt =====
-- protocol_handler.c: the timer's handler leaves a request's ids alone.
pub mod Packets
use ccsds_file_delivery_prot.Common.{
  ℕ, ◌+◌, ◌==◌, ◌≡◌, refl, ap, sym, ◌∙◌, subst, arith, inl, inr, if◌then◌else◌, not, ◌&&◌, ◌||◌,
  ltb, Bool, true, false, Option, none, some, List, ◌++◌, length, Option-cases, if-cases,
}
use ccsds_file_delivery_prot.Wire.{Buffer, Endian}
use ccsds_file_delivery_prot.Packet.Header.{PduHeader}
use ccsds_file_delivery_prot.Packet.Directives.{
  data_pdu, eof_pdu, ack_pdu, meta_data_pdu, get_eof_from_packet,
}
use ccsds_file_delivery_prot.Packet.Nak.{build_nak_packet}
use ccsds_file_delivery_prot.Request.{Request, File, Turn, ssp_sendto, un_acknowledged_mode}
use ccsds_file_delivery_prot.Server.{
  resend_finished_times, send_ack, send_nak, start_answer, request_data, resend_finished_pdu,
  request_or_finish, request_or_finish_file, resend_eof_ack, request_or_ack_eof, on_server_time_out,
}
use ccsds_file_delivery_prot.File.Missing.{Alloc}
use ccsds_file_delivery_prot.Message.{Message, get_messages_from_packet}
use ccsds_file_delivery_prot.Metadata.{process_messages, parse_metadata_packet}
use ccsds_file_delivery_prot.Packet.Fields.{get_data_length}
use ccsds_file_delivery_prot.Reception.{Port, Disk, process_data}
use ccsds_file_delivery_prot.Incoming
use ccsds_file_delivery_prot.Incoming.{
  Storage, Receiver, returning, process_file_request_metadata, build_temperary_file, take_eof,
  process_pdu_eof, finish_metadata, answer_metadata, process_metadata, receive_finished_ack,
  find_file, receive_data, receive_directive, parse_packet_server, is_null,
}
use ccsds_file_delivery_prot.Incoming.Handler.{Ensures}

-- A request with the ids of another one.
abbrev pub SameIds : Request → Request → Type 0
SameIds a b =
    (b.dest_cfdp_id ≡ a.dest_cfdp_id)
    × (b.transaction_sequence_number ≡ a.transaction_sequence_number)

module _ (host : Endian) where
  pub send_ack-SameIds : (type : ℕ) (t : Turn) → SameIds t.request (send_ack host type t).request
  unfolding send_ack ssp_sendto
  send_ack-SameIds type t = ground arith

  send_nak-SameIds : (type : ℕ) (t : Turn) → SameIds t.request (send_nak host type t).request
  unfolding send_nak ssp_sendto
  send_nak-SameIds type t = ground arith

  request_data-SameIds :
      (file : File) (t : Turn)
      → Ensures (λ t'. SameIds t.request t'.request) (request_data host file t)
  unfolding request_data ssp_sendto
  request_data-SameIds file t = ground arith

  resend_finished_pdu-SameIds : (t : Turn) → SameIds t.request (resend_finished_pdu host t).request
  unfolding resend_finished_pdu ssp_sendto
  resend_finished_pdu-SameIds t = (refl, refl)

  abbrev pub Kept : Turn → Option Turn → Type 0
  Kept t = Ensures (λ t'. SameIds t.request t'.request)

  request_or_finish-SameIds : (file : File) (t : Turn) → Kept t (request_or_finish host file t)
  unfolding request_or_finish
  request_or_finish-SameIds file t =
      if-cases (Kept t) (ltb 0 (length file.missing_offsets)) (λ h. request_data-SameIds file t)
        (λ h.
          if-cases (Kept t)
            ((file.eof_checksum == file.partial_checksum)
              && t.request.local_entity.eof_recv_indication)
            (λ h. resend_finished_pdu-SameIds _) (λ h. (refl, refl)))

  SameIds-trans :
      (t t' : Turn) (o : Option Turn) → SameIds t.request t'.request → Kept t' o → Kept t o
  SameIds-trans t t' none same kept = tt
  SameIds-trans t t' (some t2) (source, number) (source', number') =
      (source' ∙ source, number' ∙ number)

  request_or_finish_file-SameIds :
      (file : Option File) (t : Turn) → Kept t (request_or_finish_file host file t)
  unfolding request_or_finish_file
  request_or_finish_file-SameIds none t = (refl, refl)
  request_or_finish_file-SameIds (some file) t = request_or_finish-SameIds file t

  request_or_ack_eof-SameIds : (t : Turn) → SameIds t.request (request_or_ack_eof host t).request
  unfolding request_or_ack_eof resend_eof_ack
  request_or_ack_eof-SameIds t = ground (arith, send_nak-SameIds 4 t, send_ack-SameIds 4 t)

  pub on_server_time_out-SameIds : (t : Turn) → Kept t (on_server_time_out host t)
  unfolding on_server_time_out
  on_server_time_out-SameIds t =
      let eof = request_or_ack_eof host t in
      let (source, number) = request_or_ack_eof-SameIds t in
      let last =
        SameIds-trans t eof (request_or_finish_file host eof.request.file eof) (source, number)
          (request_or_finish_file-SameIds eof.request.file eof) in
      let finished = resend_finished_pdu-SameIds t in
      let local = t.request.local_entity in
      if-cases (Kept t) (t.request.paused || (t.request.transmission_mode == un_acknowledged_mode))
        (λ h. (refl, refl))
        (λ h.
          if-cases (Kept t)
            (local.transaction_finished_indication
              && not (resend_finished_times == t.request.resent_finished))
            (λ h. finished)
            (λ h.
              if-cases (Kept t)
                ((t.request.resent_finished == resend_finished_times)
                  && local.transaction_finished_indication)
                (λ h. (refl, refl))
                (λ h.
                  if-cases (Kept t) (not local.metadata_recv_indication) (λ h. send_nak-SameIds _ t)
                    (λ h.
                      if-cases (Kept t)
                        ((t.request.file_size == 0)
                          && not (resend_finished_times == t.request.resent_finished))
                        (λ h. finished) (λ h. last)))))
