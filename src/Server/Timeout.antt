-- ===== src/Server/Timeout.antt =====
-- `on_server_time_out` (protocol_handler.c) on any transaction.
use ccsds_file_delivery_prot.Common.{
  ℕ, ◌+◌, ◌≤◌, ◌≡◌, ◌≢◌, refl, ap, sym, subst, ◌∙◌, arith, inl, inr, Bool, true, false, not, ◌&&◌,
  ◌||◌, ltb, ◌==◌, Returns, Returns-map, if-cases, Option-cases, length-append, List, [], ◌∷◌,
  length, Option, none, some,
}
use ccsds_file_delivery_prot.Wire.{Buffer, Endian}
use ccsds_file_delivery_prot.Packet.Directives.{
  eof_pdu, meta_data_pdu, build_ack, build_nak_directive, build_finished_pdu,
}
use ccsds_file_delivery_prot.Packet.Nak.{build_nak_packet}
use ccsds_file_delivery_prot.Packet.Nak.Total.{build_nak_packet_total}
use ccsds_file_delivery_prot.File.Missing.{Offset}
use ccsds_file_delivery_prot.Request.{Request, File, un_acknowledged_mode, Turn, ssp_sendto}
use ccsds_file_delivery_prot.Server.{
  start_answer, send_ack, send_nak, resend_eof_ack, request_data, resend_finished_pdu,
  request_or_finish, request_or_finish_file, request_or_ack_eof, on_server_time_out,
  resend_finished_times,
}

abbrev pub is_finished : Turn → Bool
is_finished t = t.request.local_entity.transaction_finished_indication

-- Whether a file has all its bytes, and the checksum that the EOF PDU gave.
abbrev pub is_complete : File → Bool
is_complete file =
    not (ltb 0 (length file.missing_offsets)) && file.eof_checksum == file.partial_checksum

abbrev pub has_complete_file : Option File → Bool
has_complete_file none = false
has_complete_file (some file) = is_complete file

abbrev pub is_active : Request → Bool
is_active req = not req.paused && not (req.transmission_mode == un_acknowledged_mode)

-- Whether a time-out ends the transaction: everything is there.
abbrev pub is_received : Request → Bool
is_received req =
    is_active req
    && req.local_entity.metadata_recv_indication
    && req.local_entity.eof_recv_indication
    && not (req.file_size == 0 && not (req.resent_finished == 1))
    && has_complete_file req.file

-- What follows a turn: whether it is finished, and how many buffers were sent at most.
abbrev pub Follows : Turn → Bool → ℕ → Turn → Type 0
Follows t finished n t' =
    (is_finished t' ≡ finished)
    × (t'.request.file ≡ t.request.file)
    × (t'.request.local_entity.eof_recv_indication ≡ t.request.local_entity.eof_recv_indication)
    × (length t.sent ≤ length t'.sent)
    × (length t'.sent ≤ length t.sent + n)

-- The same, but for the buffer.
abbrev pub with_buff : Turn → Buffer → Turn
with_buff t m = record t { request = record t.request { buff = m } }

ssp_sendto-Follows : (t : Turn) → Follows t (is_finished t) 1 (ssp_sendto t)
unfolding ssp_sendto
ssp_sendto-Follows t =
    let e = length-append t.sent (t.request.buff ∷ []) in
    (refl, refl, refl, omega (arith, e), omega (arith, e))

no_ranges : (xs : List Offset) → xs ≡ [] → ltb 0 (length xs) ≢ true
no_ranges xs e h = ground (arith, ap (length {A = Offset}) e)

module _ (host : Endian) where
  request_data-Follows :
      (file : File) (t : Turn)
      → file.missing_offsets ≢ []
      → Returns (Follows t (is_finished t) 1) (request_data host file t)
  unfolding request_data
  request_data-Follows file t ne =
      let (start, m) = start_answer host 1 t.request in
      let built = build_nak_packet host m start t.request.packet_len file.missing_offsets in
      elim (Option-cases built) [
        | inl e ↦
            absurd
              (build_nak_packet_total host m start t.request.packet_len file.missing_offsets ne e)
        | inr (r, e) ↦ rw (request_data, e) (ssp_sendto-Follows (with_buff t r.1))
      ]

  resend_finished_pdu-Follows :
      (t : Turn) → Follows t (is_finished t) 1 (resend_finished_pdu host t)
  unfolding resend_finished_pdu
  resend_finished_pdu-Follows t =
      let (start, m) = start_answer host 1 t.request in
      ssp_sendto-Follows (with_buff t (build_finished_pdu host m start).1)

  send_nak-Follows : (type : ℕ) (t : Turn) → Follows t (is_finished t) 1 (send_nak host type t)
  unfolding send_nak
  send_nak-Follows type t =
      let (start, m) = start_answer host t.request.transmission_mode t.request in
      ground (arith, ssp_sendto-Follows (with_buff t (build_nak_directive host m start type).1))

  resend_eof_ack-Follows : (t : Turn) → Follows t (is_finished t) 1 (resend_eof_ack host t)
  unfolding resend_eof_ack send_ack
  resend_eof_ack-Follows t =
      let (start, m) = start_answer host t.request.transmission_mode t.request in
      ground (arith, ssp_sendto-Follows (with_buff t (build_ack host m start eof_pdu).1))

  -- The last part of a time-out.
  request_or_finish-Follows :
      (file : File) (t : Turn)
      → Returns
          (Follows t
            (is_finished t || (t.request.local_entity.eof_recv_indication && is_complete file))
            1)
          (request_or_finish host file t)
  unfolding request_or_finish
  request_or_finish-Follows file t =
      let P : Option Turn → Type 0 = Returns (
        Follows t
          (is_finished t || (t.request.local_entity.eof_recv_indication && is_complete file)) 1) in
      if-cases P (ltb 0 (length file.missing_offsets))
        (λ h.
          let e : is_finished t || (t.request.local_entity.eof_recv_indication && is_complete file)
              ≡ is_finished t =
            ground arith in
          subst (λ (b : Bool). Returns (Follows t b 1) (request_data host file t)) (sym e)
            (request_data-Follows file t
              (λ none_missing. no_ranges file.missing_offsets none_missing h)))
        (λ h.
          if-cases P
            (file.eof_checksum == file.partial_checksum
              && t.request.local_entity.eof_recv_indication)
            (λ g. ground (
              arith,
              resend_finished_pdu-Follows (record t {
                request = record t.request {
                  local_entity = record t.request.local_entity {
                    transaction_finished_indication = true;
                  };
                };
              }),
            ))
            (λ g. ground arith))

  request_or_finish_file-Follows :
      (file : Option File) (t : Turn)
      → Returns
          (Follows t
            (is_finished t
              || (t.request.local_entity.eof_recv_indication && has_complete_file file))
            1)
          (request_or_finish_file host file t)
  unfolding request_or_finish_file
  request_or_finish_file-Follows none t = ground arith
  request_or_finish_file-Follows (some file) t = request_or_finish-Follows file t

  request_or_ack_eof-Follows : (t : Turn) → Follows t (is_finished t) 1 (request_or_ack_eof host t)
  unfolding request_or_ack_eof
  request_or_ack_eof-Follows t =
      ground (arith, send_nak-Follows eof_pdu t, resend_eof_ack-Follows t)

  last_part-Follows :
      (t : Turn)
      → (let t1 = request_or_ack_eof host t in
          Returns
            (Follows t
              (is_finished t
                || (t.request.local_entity.eof_recv_indication && has_complete_file t.request.file))
              2)
            (request_or_finish_file host t1.request.file t1))
  last_part-Follows t =
      let t1 = request_or_ack_eof host t in
      let (f, same_file, same_eof, a, b) = request_or_ack_eof-Follows t in
      let e = ap has_complete_file same_file in
      Returns-map
        {P = Follows t1
          (is_finished t1
            || (t1.request.local_entity.eof_recv_indication && has_complete_file t1.request.file))
          1}
        _
        (λ t' (f', file', eof', a', b'). (
          f' ∙ ground (arith, f, e, same_eof),
          file' ∙ same_file,
          eof' ∙ same_eof,
          omega (arith, a, a'),
          omega (arith, b, b'),
        ))
        (request_or_finish_file-Follows t1.request.file t1)

  -- A time-out always returns. It leaves the file and the EOF indication, sends at most two
  -- packets, and the transaction is finished after it exactly if it was before, or everything was
  -- received: it is active, with metadata, EOF, no range missing and the right checksum, and it
  -- does not only carry messages that are still to be reported.
  pub on_server_time_out-Follows :
      (t : Turn)
      → Returns (Follows t (is_finished t || is_received t.request) 2) (on_server_time_out host t)
  unfolding on_server_time_out
  on_server_time_out-Follows t =
      let req = t.request in
      let local = req.local_entity in
      let P : Option Turn → Type 0 = Returns (Follows t (is_finished t || is_received req) 2) in
      if-cases P (req.paused || req.transmission_mode == un_acknowledged_mode) (λ h. ground arith)
        (λ h0.
          if-cases P
            (local.transaction_finished_indication
              && not (resend_finished_times == req.resent_finished))
            (λ h. ground (arith, resend_finished_pdu-Follows t))
            (λ h1.
              if-cases P
                (req.resent_finished == resend_finished_times
                  && local.transaction_finished_indication)
                (λ h. ground arith)
                (λ h2.
                  if-cases P (not local.metadata_recv_indication)
                    (λ h. ground (arith, send_nak-Follows meta_data_pdu t))
                    (λ h3.
                      if-cases P
                        (req.file_size == 0 && not (resend_finished_times == req.resent_finished))
                        (λ h. ground (arith, resend_finished_pdu-Follows t))
                        (λ h4.
                          subst
                            (λ (b : Bool). Returns (Follows t b 2) (
                              request_or_finish_file host (request_or_ack_eof host t).request.file
                                (request_or_ack_eof host t)))
                            (ground arith) (last_part-Follows t))))))
