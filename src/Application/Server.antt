-- ===== src/Application/Server.antt =====
-- app_control.c and protocol_handler.c: the callbacks of a server. What the calls of the operating
-- system, the allocator and the JSON files give is an argument.
use ccsds_file_delivery_prot.Common.{
  ℕ, ltb, ◌==◌, if◌then◌else◌, Bool, true, false, Option, none, some, u32, List, [], ◌∷◌, length,
}
use ccsds_file_delivery_prot.Wire.{Buffer, Endian, memset}
use ccsds_file_delivery_prot.Packet.Header.{PduHeader}
use ccsds_file_delivery_prot.Mib.{RemoteEntity, get_header_from_mib}
use ccsds_file_delivery_prot.File.Missing.{Alloc}
use ccsds_file_delivery_prot.Request.{Request, Turn, no_procedure}
use ccsds_file_delivery_prot.Reception.{Port, Disk}
use ccsds_file_delivery_prot.Server.{on_server_time_out}
use ccsds_file_delivery_prot.Incoming.{Storage, Receiver, parse_packet_server}
use ccsds_file_delivery_prot.Creation.{init_request}
use ccsds_file_delivery_prot.Incoming
use ccsds_file_delivery_prot.Application.{
  Cell, Requests, Access, Routed, Round, load, store, all_requests, process_pdu_header,
  check_requests, with_buff,
}

abbrev pub receivers : Access Receiver
receivers = record { request = λ r. r.turn.request; with_request = Incoming.with_request }

-- A client as the server sees it.
pub record ActiveClient : Type 0 where
  pub cfdp_id : ℕ
  pub close : Bool

-- `FTP` (types.h).
pub record Ftp : Type 0 where
  pub packet_len : ℕ
  pub buff : Buffer
  pub my_cfdp_id : ℕ
  pub requests : Requests Receiver
  pub transaction_inactivity_limit : ℕ
  pub active_clients : List ActiveClient
  pub transaction_sequence_number : ℕ
  pub close : Bool

-- The calls that a new request needs. `allocated` is the address that the allocator gives when the
-- given requests are allocated, or `none` when one of the calls fails; `on_stack` is a header
-- that was not initialised, `now` the reading of the clock, `new_disk` the file that the request will
-- write to, `pushes` whether the list finds memory for the new request.
pub record IncomingCalls : Type 0 where
  pub get_remote_entity_from_json : ℕ → Option RemoteEntity
  pub allocated : List (Cell Receiver) → Option ℕ
  pub on_stack : PduHeader
  pub now : ℕ
  pub new_disk : Disk
  pub pushes : Bool

module _ (calls : IncomingCalls) (app : Ftp) where
  abbrev request_for : PduHeader → RemoteEntity → Request
  request_for header remote =
      let req = init_request calls.now app.buff app.packet_len in
      record req {
        transmission_mode = header.transmission_mode;
        transaction_sequence_number = u32 header.transaction_sequence_number;
        dest_cfdp_id = header.source_id;
        pdu_header = get_header_from_mib calls.on_stack remote app.my_cfdp_id;
        my_cfdp_id = app.my_cfdp_id;
        procedure = no_procedure;
        packet_len = remote.mtu;
        paused = false;
      }

  abbrev pub made_request : PduHeader → Option RemoteEntity → Option ℕ → Option (Cell Receiver)
  made_request header none p = none
  made_request header (some remote) none = none
  made_request header (some remote) (some p) = some (record {
    address = p;
    element = record {
      turn = record { request = request_for header remote; sent = [] };
      started = [];
      disk = calls.new_disk;
    };
  })

  -- The address of the sender and the numbers of the socket are not kept.
  unfoldable pub new_incomming_request : PduHeader → Option (Cell Receiver)
  unfolding init_request
  new_incomming_request header =
      made_request header (calls.get_remote_entity_from_json header.source_id)
        (calls.allocated (all_requests app.requests))

-- A callback's result, `none` for -1, the packet after it, and the server.
pub record Received : Type 0 where
  pub count : Option ℕ
  pub packet : Buffer
  pub app : Ftp

abbrev pub with_requests : Ftp → Requests Receiver → Ftp
with_requests app rs = record app { requests = rs }

module _ (host : Endian) (disk : Storage) (port : Port) (fuel : ℕ) (alloc : Alloc) where
  -- `reset_timeout`, and the request back to its place.
  abbrev pub keep_request : ℕ → ℕ → Receiver → Ftp → Ftp
  keep_request p now r app =
      let req : Request = record r.turn.request { timeout_before_cancel = now } in
      record app {
        buff = req.buff;
        requests = record app.requests {
          request_list = store p (Incoming.with_request r req) app.requests.request_list;
          unlisted = store p (Incoming.with_request r req) app.requests.unlisted;
        };
      }

  -- `memset(packet, 0, count)`; -1 is a count beyond any memory.
  abbrev pub answered : ℕ → ℕ → Buffer → Ftp → Option (Option ℕ × Receiver) → Option Received
  answered p now packet app none = none
  answered p now packet app (some (none, r)) = none
  answered p now packet app (some (some count, r)) = some (record {
    count = some count;
    packet = memset packet 0 0 count;
    app = keep_request p now r app;
  })

  -- What is done with the request that a packet is for.
  abbrev pub parse_for : ℕ → ℕ → Buffer → PduHeader → Ftp → Option ℕ → Option Received
  parse_for now index packet header app none = none
  parse_for now index packet header app (some p) = elim (load p (all_requests app.requests)) [
    | none ↦ none
    | some r ↦ answered p now packet app (
        parse_packet_server host disk port fuel alloc app.my_cfdp_id packet index header
          (with_buff receivers r app.buff))
  ]

  abbrev pub after_header : ℕ → Buffer → Ftp → Option (Routed Receiver) → Option Received
  after_header now packet app none = none
  after_header now packet app (some routed) = elim routed.index [
    | none ↦
        some (record { count = none; packet = packet; app = with_requests app routed.requests })
    | some index ↦
        parse_for now index packet routed.header (with_requests app routed.requests)
          routed.requests.current_request
  ]

  unfoldable pub on_recv_server_callback : IncomingCalls → ℕ → Buffer → ℕ → Ftp → Option Received
  on_recv_server_callback calls now packet packet_len app =
      if ltb app.packet_len packet_len
      then some (record { count = none; packet = packet; app = app })
      else after_header now packet app (
          process_pdu_header receivers host true (new_incomming_request calls app) calls.pushes
            app.my_cfdp_id app.packet_len packet app.requests)

abbrev pub with_turn : Receiver → Option Turn → Option Receiver
with_turn r none = none
with_turn r (some t) = some (record r { turn = t })

-- The clients that are not closed.
unfoldable pub client_check_callback : List ActiveClient → List ActiveClient
client_check_callback [] = []
client_check_callback (c ∷ cs) =
    let rest = client_check_callback cs in if c.close then rest else c ∷ rest

unfoldable pub timeout_check_server : Endian → Receiver → Option Receiver
timeout_check_server host r = with_turn r (on_server_time_out host r.turn)

-- Whether there were requests, the server, and the requests whose state was saved and deleted.
pub record TimedOut : Type 0 where
  pub active : Bool
  pub app : Ftp
  pub saved : List Request
  pub deleted : List Request

abbrev pub after_round : Ftp → Option (Round Receiver) → Option TimedOut
after_round app none = none
after_round app (some round) = some (record {
  active = true;
  app = record app {
    buff = round.buff;
    requests = record app.requests { request_list = round.kept };
  };
  saved = round.saved;
  deleted = round.deleted;
})

unfoldable pub on_time_out_callback_server : Endian → (ℕ → ℕ) → Ftp → Option TimedOut
on_time_out_callback_server host clock app =
    let app : Ftp = record app { active_clients = client_check_callback app.active_clients } in
    if length app.requests.request_list == 0
    then some (record { active = false; app = app; saved = []; deleted = [] })
    else after_round app (
        check_requests receivers (λ now. timeout_check_server host) app.transaction_inactivity_limit
          clock 0 app.buff app.requests.request_list)
