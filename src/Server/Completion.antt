-- ===== src/Server/Completion.antt =====
-- `on_server_time_out` (protocol_handler.c) on a transaction of which everything was received.
use ccsds_file_delivery_prot.Common.{
  ℕ, ◌+◌, ◌≤◌, ◌<◌, ◌≡◌, refl, ap, sym, subst, ◌∙◌, arith, true, false, Returns, List, [], ◌∷◌,
  ◌++◌, Option, none, some, u8,
}
use ccsds_file_delivery_prot.Wire.{Buffer, Endian}
use ccsds_file_delivery_prot.Packet.Directives.{finished_pdu, build_finished_pdu}
use ccsds_file_delivery_prot.Packet.Directives.Stale.{build_finished_pdu_code}
use ccsds_file_delivery_prot.Packet.Header.{PduHeader}
use ccsds_file_delivery_prot.Packet.Header.Build.{
  HasIds, header_length, id_length_bounds, build_pdu_header_result,
}
use ccsds_file_delivery_prot.Request.{Request, File, LocalEntity, clean_up, Turn, ssp_sendto}
use ccsds_file_delivery_prot.Server.{
  start_answer, send_ack, send_nak, resend_eof_ack, resend_finished_pdu, request_or_finish,
  request_or_finish_file, request_or_ack_eof, on_server_time_out,
}
use ccsds_file_delivery_prot.Server.Timeout.{is_finished, has_complete_file, is_active, is_received}

-- The fields of a request that an answer to EOF leaves.
abbrev Keeps : Request → Request → Type 0
Keeps req req' =
    (req'.paused ≡ req.paused)
    × (req'.transmission_mode ≡ req.transmission_mode)
    × (req'.resent_finished ≡ req.resent_finished)
    × (req'.file ≡ req.file)
    × (req'.local_entity ≡ req.local_entity)
    × (req'.pdu_header ≡ req.pdu_header)
    × (req'.transaction_sequence_number ≡ req.transaction_sequence_number)

abbrev finish : Turn → Turn
finish t = record t {
  request = record t.request {
    local_entity = record t.request.local_entity { transaction_finished_indication = true };
  };
}

module _ (host : Endian) where
  request_or_ack_eof-Keeps : (t : Turn) → Keeps t.request (request_or_ack_eof host t).request
  unfolding request_or_ack_eof resend_eof_ack send_ack send_nak ssp_sendto
  request_or_ack_eof-Keeps t = ground arith

  request_or_finish_file_ends :
      (file : Option File) (t : Turn)
      → has_complete_file file ≡ true
      → t.request.local_entity.eof_recv_indication ≡ true
      → request_or_finish_file host file t ≡ some (resend_finished_pdu host (finish t))
  unfolding request_or_finish_file request_or_finish
  request_or_finish_file_ends none t c e = absurd (ground arith)
  request_or_finish_file_ends (some file) t c e = ground arith

  -- The first time-out.
  on_server_time_out_ends :
      (t : Turn)
      → is_received t.request ≡ true
      → is_finished t ≡ false
      → on_server_time_out host t
        ≡ some (resend_finished_pdu host (finish (request_or_ack_eof host t)))
  unfolding on_server_time_out
  on_server_time_out_ends t r f =
      let t1 = request_or_ack_eof host t in
      let (_, _, _, same_file, same_local, _, _) = request_or_ack_eof-Keeps t in
      let rest : request_or_finish_file host t1.request.file t1
          ≡ some (resend_finished_pdu host (finish t1)) =
        request_or_finish_file_ends t1.request.file t1
          (ap has_complete_file same_file ∙ ground arith)
          (ap (λ (l : LocalEntity). l.eof_recv_indication) same_local ∙ ground arith) in
      ground (arith, rest)

  -- The second one.
  on_server_time_out_cleans :
      (t : Turn)
      → is_active t.request ≡ true
      → is_finished t ≡ true
      → t.request.resent_finished ≡ 1
      → on_server_time_out host t
        ≡ some (record t { request = record t.request { procedure = clean_up } })
  unfolding on_server_time_out
  on_server_time_out_cleans t a f n = ground arith

  start_answer_start :
      (mode : ℕ) (req : Request)
      → HasIds req.pdu_header req.transaction_sequence_number
      → (start_answer host mode req).0 ≡ header_length req.pdu_header
  unfolding start_answer
  start_answer_start mode req v =
      let h = req.pdu_header in
      let seq = req.transaction_sequence_number in
      let result = build_pdu_header_result host req.buff seq mode 0 h v in
      ground (
        arith,
        result,
        v.source_length,
        v.seq_length,
        id_length_bounds h.source_id,
        id_length_bounds seq,
      )

  header_length_small :
      (h : PduHeader) (seq : ℕ) → HasIds h seq → (3 ≤ header_length h) × (header_length h < 255)
  header_length_small h seq v =
      omega
        (arith, v.source_length, v.seq_length, id_length_bounds h.source_id, id_length_bounds seq)

  HasIds-cong :
      (h h' : PduHeader) (seq seq' : ℕ) → h' ≡ h → seq' ≡ seq → HasIds h seq → HasIds h' seq'
  HasIds-cong h h' seq seq' e e' v =
      subst (λ (x : PduHeader). HasIds x seq') (sym e) (subst (λ (x : ℕ). HasIds h x) (sym e') v)

  resend_finished_pdu_sends :
      (t : Turn)
      → HasIds t.request.pdu_header t.request.transaction_sequence_number
      → (let t' = resend_finished_pdu host t in
          (t'.sent ≡ t.sent ++ (t'.request.buff ∷ []))
          × (t'.request.buff.byte (header_length t.request.pdu_header) ≡ finished_pdu))
  unfolding resend_finished_pdu ssp_sendto
  resend_finished_pdu_sends t v =
      let (start, m) = start_answer host 1 t.request in
      let at : start ≡ header_length t.request.pdu_header = start_answer_start 1 t.request v in
      let small =
        header_length_small t.request.pdu_header t.request.transaction_sequence_number v in
      (
        refl,
        subst (λ (i : ℕ). (build_finished_pdu host m start).1.byte i ≡ finished_pdu) at
            (build_finished_pdu_code host m start (omega (arith, at, small))
              (omega (arith, at, small))),
      )

  resend_finished_pdu_fields :
      (t : Turn)
      → (let t' = resend_finished_pdu host t in
          (is_active t'.request ≡ is_active t.request)
          × (is_finished t' ≡ is_finished t)
          × (t'.request.resent_finished ≡ u8 (t.request.resent_finished + 1)))
  unfolding resend_finished_pdu ssp_sendto
  resend_finished_pdu_fields t = (refl, refl, refl)

  -- An active transaction of which everything was received (metadata, EOF, the whole of a file
  -- with bytes, the right checksum), and which is not finished nor reported yet, is over after
  -- two time-outs. The first one sends a Finished PDU last, behind a header with ids below
  -- 0xffffffff of the lengths that it states; the second one sends nothing and leaves the request
  -- to be cleaned up.
  pub complete_transaction :
      (t : Turn)
      → is_received t.request ≡ true
      → is_finished t ≡ false
      → t.request.resent_finished ≡ 0
      → HasIds t.request.pdu_header t.request.transaction_sequence_number
      → Returns
          (λ t1.
            (is_finished t1 ≡ true)
            × ((before : List Buffer) × (t1.sent ≡ before ++ (t1.request.buff ∷ [])))
            × (t1.request.buff.byte (header_length t.request.pdu_header) ≡ finished_pdu)
            × Returns
                (λ t2. (t2.request.procedure ≡ clean_up) × (t2.sent ≡ t1.sent))
                (on_server_time_out host t1))
          (on_server_time_out host t)
  complete_transaction t r f n v =
      let t1 = request_or_ack_eof host t in
      let (paused, mode, resent, file, local, header, seq) = request_or_ack_eof-Keeps t in
      let t2 = resend_finished_pdu host (finish t1) in
      let ids : HasIds t1.request.pdu_header t1.request.transaction_sequence_number =
        HasIds-cong _ _ _ _ header seq v in
      let (sent, code) = resend_finished_pdu_sends (finish t1) ids in
      let (active, done, count) = resend_finished_pdu_fields (finish t1) in
      let again =
        on_server_time_out_cleans t2 (active ∙ ground arith) done (omega (arith, count, resent)) in
      rw (on_server_time_out_ends t r f) (
        done,
        ((finish t1).sent, sent),
        subst (λ (h : PduHeader). t2.request.buff.byte (header_length h) ≡ finished_pdu) header
            code,
        rw again (refl, refl),
      )
