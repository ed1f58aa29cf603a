-- ===== src/Application/Client.antt =====
-- app_control.c: the callbacks of a client.
use ccsds_file_delivery_prot.Common.{
  ℕ, ltb, ◌==◌, if◌then◌else◌, Bool, true, false, not, ◌&&◌, Option, none, some, List, [], length,
}
use ccsds_file_delivery_prot.Wire.{Buffer, Endian, memset}
use ccsds_file_delivery_prot.Packet.Header.{PduHeader}
use ccsds_file_delivery_prot.Request.{Request}
use ccsds_file_delivery_prot.Reception.{Port}
use ccsds_file_delivery_prot.Sender
use ccsds_file_delivery_prot.Sender.{Sender, user_request_handler}
use ccsds_file_delivery_prot.Sender.Responses.{parse_packet_client}
use ccsds_file_delivery_prot.Application.{
  Requests, Access, Routed, Round, load, store, all_requests, process_pdu_header, check_requests,
}

abbrev pub senders : Access Sender
senders = record { request = λ s. s.turn.request; with_request = Sender.with_request }

-- `Client` (types.h), with the two fields of its `FTP` that it reads; `locked` tells that there is a
-- lock, and so that the client stays when it has nothing to do.
pub record Client : Type 0 where
  pub packet_len : ℕ
  pub buff : Buffer
  pub requests : Requests Sender
  pub transaction_inactivity_limit : ℕ
  pub pdu_header : PduHeader
  pub locked : Bool
  pub close : Bool
  pub app_packet_len : ℕ
  pub app_my_cfdp_id : ℕ

-- Whether a callback returned 0 and not -1, the packet after it, and the client.
pub record Received : Type 0 where
  pub ok : Bool
  pub packet : Buffer
  pub client : Client

abbrev pub with_requests : Client → Requests Sender → Client
with_requests client rs = record client { requests = rs }

abbrev pub keep_request : ℕ → ℕ → Sender → Client → Client
keep_request p now s client =
    let req : Request = record s.turn.request { timeout_before_cancel = now } in
    record client {
      buff = req.buff;
      requests = record client.requests {
        request_list = store p (Sender.with_request s req) client.requests.request_list;
        unlisted = store p (Sender.with_request s req) client.requests.unlisted;
      };
    }

abbrev pub answered : ℕ → ℕ → Buffer → ℕ → Client → Option Sender → Option Received
answered p now packet packet_len client none = none
answered p now packet packet_len client (some s) = some (record {
  ok = true;
  packet = memset packet 0 0 packet_len;
  client = keep_request p now s client;
})

module _ (host : Endian) (port : Port) (rounds : ℕ) where
  abbrev pub parse_for : ℕ → ℕ → Buffer → ℕ → Client → Option ℕ → Option Received
  parse_for now index packet packet_len client none = none
  parse_for now index packet packet_len client (some p) =
      elim (load p (all_requests client.requests)) [
        | none ↦ none
        | some s ↦ answered p now packet packet_len client (
            parse_packet_client host port rounds packet index client.pdu_header (
              Sender.with_request s
                (record s.turn.request { buff = client.buff; packet_len = packet_len })))
      ]

  abbrev pub after_header : ℕ → Buffer → ℕ → Client → Option (Routed Sender) → Option Received
  after_header now packet packet_len client none = none
  after_header now packet packet_len client (some routed) = elim routed.index [
    | none ↦
        some (record { ok = false; packet = packet; client = with_requests client routed.requests })
    | some index ↦
        parse_for now index packet packet_len (with_requests client routed.requests)
          routed.requests.current_request
  ]

  unfoldable pub on_recv_client_callback : ℕ → Buffer → ℕ → Client → Option Received
  on_recv_client_callback now packet packet_len client =
      if ltb client.app_packet_len packet_len
      then some (record { ok = false; packet = packet; client = client })
      else after_header now packet packet_len client (
          process_pdu_header senders host false (λ header. none) false client.app_my_cfdp_id
            client.app_packet_len packet client.requests)

-- The client, and the requests whose state was saved and deleted.
pub record Sent : Type 0 where
  pub client : Client
  pub saved : List Request
  pub deleted : List Request

abbrev pub after_round : Client → Option (Round Sender) → Option Sent
after_round client none = none
after_round client (some round) = some (record {
  client = record client {
    buff = round.buff;
    requests = record client.requests { request_list = round.kept };
  };
  saved = round.saved;
  deleted = round.deleted;
})

module _ (host : Endian) (port : Port) (fuel rounds packet_len : ℕ) (close : ℕ → Bool) where
  -- The buffer is cleared for each request.
  unfoldable pub handle_user_request : ℕ → Sender → Option Sender
  handle_user_request now s =
      let req = s.turn.request in
      user_request_handler host port fuel rounds close now (
        Sender.with_request s
          (record req { buff = memset req.buff 0 0 packet_len; packet_len = packet_len }))

-- A client with no request and no lock closes.
unfoldable pub on_send_client_callback :
    Endian → Port → ℕ → ℕ → (ℕ → Bool) → (ℕ → ℕ) → Client → Option Sent
on_send_client_callback host port fuel rounds close clock client =
    if (length client.requests.request_list == 0) && not client.locked
    then some (record { client = record client { close = true }; saved = []; deleted = [] })
    else after_round client (
        check_requests senders (handle_user_request host port fuel rounds client.packet_len close)
          client.transaction_inactivity_limit clock 0 client.buff client.requests.request_list)
