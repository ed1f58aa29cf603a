-- ===== src/Application/Serving/Freed.antt =====
-- app_control.c: `current_request` of a server still points to a request that a time-out has freed.
use ccsds_file_delivery_prot.Common.{
  Bool, ℕ, ◌≤◌, ◌==◌, ◌≡◌, refl, ap, sym, ◌∙◌, arith, ltb, not, true, false, Option, none, some,
  List, [], ◌∷◌, length, if-cases, Returns,
}
use mathlib.Core.Option.{some-injective}
use ccsds_file_delivery_prot.Wire.{Buffer, Endian}
use ccsds_file_delivery_prot.Packet.Header.{PduHeader, get_pdu_header_from_packet}
use ccsds_file_delivery_prot.File.Missing.{Alloc}
use ccsds_file_delivery_prot.Creation.{zero_header}
use ccsds_file_delivery_prot.Request.{Request, clean_up, Turn, un_acknowledged_mode}
use ccsds_file_delivery_prot.Server.{on_server_time_out}
use ccsds_file_delivery_prot.Reception.{Port}
use ccsds_file_delivery_prot.Incoming.{Storage, Receiver}
use ccsds_file_delivery_prot.Application.Allocated.{Distinct-prefix, IsFree-outside, load-suffix}
use ccsds_file_delivery_prot.Application.{
  all_requests, Cell, Requests, load, with_buff, is_current, route, process_pdu_header,
}
use ccsds_file_delivery_prot.Application.Server.{
  Ftp, IncomingCalls, TimedOut, receivers, new_incomming_request, with_turn, timeout_check_server,
  client_check_callback, after_round, on_time_out_callback_server, on_recv_server_callback,
}
use ccsds_file_delivery_prot.Application.Rounds.{
  Distinct, load-IsFree, check_requests_returns, check_requests-IsFree,
}
use ccsds_file_delivery_prot.Application.Serving.Waiting.{timeout_check_server_returns}

-- A request that has come to its end: the finished PDU was sent.
abbrev pub IsDone : Request → Type 0
IsDone req =
    (req.paused ≡ false)
    × ((req.transmission_mode == un_acknowledged_mode) ≡ false)
    × (req.local_entity.transaction_finished_indication ≡ true)
    × (req.resent_finished ≡ 1)

on_server_time_out_done :
    (host : Endian) (t : Turn)
    → IsDone t.request
    → on_server_time_out host t
      ≡ some (record t { request = record t.request { procedure = clean_up } })
unfolding on_server_time_out
on_server_time_out_done host t (active, acknowledged, finished, resent) =
    rw (active, acknowledged, finished, resent) refl

done_ends :
    (host : Endian) (r r' : Receiver)
    → IsDone r.turn.request
    → timeout_check_server host r ≡ some r'
    → r'.turn.request.procedure ≡ clean_up
unfolding timeout_check_server
done_ends host r r' done e =
    let left =
      some-injective _ _ (ap (with_turn r) (sym (on_server_time_out_done host r.turn done)) ∙ e) in
    ap (λ (x : Receiver). x.turn.request.procedure) (sym left)

-- A header that is for this entity and fits cannot be compared with a freed request.
route_freed :
    (new : PduHeader → Option (Cell Receiver)) (pushes : Bool) (my_cfdp_id packet_len p : ℕ)
    (o : Option ℕ) (index : ℕ) (header : PduHeader) (rs : Requests Receiver)
    → rs.current_request ≡ some p
    → load p (all_requests rs) ≡ none
    → o ≡ some index
    → header.destination_id ≡ my_cfdp_id
    → header.pdu_data_field_len ≤ packet_len
    → route receivers true new pushes my_cfdp_id packet_len (o, header) rs ≡ none
unfolding route
route_freed new pushes my_cfdp_id packet_len p none index header rs current freed parsed ours
      small =
    absurd (cc parsed)
route_freed new pushes my_cfdp_id packet_len p (some i) index header rs current freed parsed ours
      small =
    let mine : not (my_cfdp_id == header.destination_id) ≡ false = ground (arith, ours) in
    let fits : ltb packet_len header.pdu_data_field_len ≡ false = ground (arith, small) in
    rw (mine, fits, current, is_current, freed) refl

load_empty :
    (p : ℕ) (cells : List (Cell Receiver)) → (length cells == 0) ≡ true → load p cells ≡ none
load_empty p [] h = refl
load_empty p (c ∷ cs) h = absurd (ground (arith, h))

module _ (host : Endian) (disk : Storage) (port : Port) (fuel : ℕ) (alloc : Alloc) where
  -- A packet for a server whose current request is freed.
  on_recv_freed :
      (calls : IncomingCalls) (now packet_len p index : ℕ) (packet : Buffer) (app : Ftp)
      → app.requests.current_request ≡ some p
      → load p (all_requests app.requests) ≡ none
      → packet_len ≤ app.packet_len
      → (get_pdu_header_from_packet host packet zero_header).0 ≡ some index
      → (get_pdu_header_from_packet host packet zero_header).1.destination_id ≡ app.my_cfdp_id
      → (get_pdu_header_from_packet host packet zero_header).1.pdu_data_field_len ≤ app.packet_len
      → on_recv_server_callback host disk port fuel alloc calls now packet packet_len app ≡ none
  unfolding on_recv_server_callback process_pdu_header route
  on_recv_freed calls now packet_len p index packet app current freed fits parsed ours small =
      let (o, header) = get_pdu_header_from_packet host packet zero_header in
      let fits' : ltb app.packet_len packet_len ≡ false = ground (arith, fits) in
      let lost =
        route_freed (new_incomming_request calls app) calls.pushes app.my_cfdp_id app.packet_len p o
          index header app.requests current freed parsed ours small in
      rw (fits', lost) refl

  -- When the current request of a server is in acknowledged mode, not paused and finished, and its
  -- finished PDU was sent, a time-out frees it and leaves the server pointing to it. The next packet
  -- that the server reads, fits and is for this entity then makes it follow the freed pointer. The
  -- requests have different addresses.
  pub on_recv_server_callback_freed :
      (clock : ℕ → ℕ) (calls : IncomingCalls) (now packet_len p index : ℕ) (packet : Buffer)
      (app : Ftp) (r : Receiver)
      → Distinct (all_requests app.requests)
      → app.requests.current_request ≡ some p
      → load p app.requests.request_list ≡ some r
      → IsDone r.turn.request
      → packet_len ≤ app.packet_len
      → (get_pdu_header_from_packet host packet zero_header).0 ≡ some index
      → (get_pdu_header_from_packet host packet zero_header).1.destination_id ≡ app.my_cfdp_id
      → (get_pdu_header_from_packet host packet zero_header).1.pdu_data_field_len ≤ app.packet_len
      → Returns
          (λ out.
            (out.app.requests.current_request ≡ some p)
            × (load p (all_requests out.app.requests) ≡ none)
            × (on_recv_server_callback host disk port fuel alloc calls now packet packet_len out.app
                ≡ none))
          (on_time_out_callback_server host clock app)
  unfolding on_time_out_callback_server
  on_recv_server_callback_freed clock calls now packet_len p index packet app r distinct current at
        done fits parsed ours small =
      let P : Option TimedOut → Type 0 = Returns (λ out.
        (out.app.requests.current_request ≡ some p)
        × (load p (all_requests out.app.requests) ≡ none)
        × (on_recv_server_callback host disk port fuel alloc calls now packet packet_len out.app
            ≡ none)) in
      let (round, e) =
        check_requests_returns receivers (λ a req. refl) (λ now. timeout_check_server host)
          app.transaction_inactivity_limit clock app.requests.request_list 0 app.buff
          (λ now. timeout_check_server_returns host) in
      let free =
        check_requests-IsFree receivers (λ a req. refl) (λ now. timeout_check_server host)
          app.transaction_inactivity_limit clock app.requests.request_list p 0 r app.buff round
          (Distinct-prefix app.requests.request_list app.requests.unlisted distinct) at
          (λ now' m a h. done_ends host (with_buff receivers r m) a done h) e in
      let outside =
        IsFree-outside p app.requests.request_list app.requests.unlisted r distinct at in
      let gone =
        load-suffix p round.kept app.requests.unlisted free
        ∙ load-IsFree p app.requests.unlisted outside in
      if-cases P (length app.requests.request_list == 0)
        (λ h. absurd (cc (sym (load_empty p app.requests.request_list h) ∙ at)))
        (λ h.
          rw (after_round, e)
            (
              current,
              gone,
              on_recv_freed calls now packet_len p index packet
                  (record app {
                    buff = round.buff;
                    active_clients = client_check_callback app.active_clients;
                    requests = record app.requests { request_list = round.kept };
                  })
                  current gone fits parsed ours small,
            ))
