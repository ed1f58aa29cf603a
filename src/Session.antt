-- ===== src/Session.antt =====
-- requests.c and file_delivery_app.c: the clients of an application, and how a request gets to one.
pub mod Numbers
pub mod Placing
use ccsds_file_delivery_prot.Common.{
  ℕ, suc, ◌==◌, if◌then◌else◌, Bool, true, false, not, Option, none, some, u8, List, [], ◌∷◌, ◌++◌,
}
use ccsds_file_delivery_prot.Wire.{Buffer, Bytes}
use ccsds_file_delivery_prot.Packet.Header.{PduHeader}
use ccsds_file_delivery_prot.Mib.{RemoteEntity, get_header_from_mib}
use ccsds_file_delivery_prot.Message.{add_proxy_message_to_request}
use ccsds_file_delivery_prot.Request.{Request, RequestProcedure, sending_start, Turn}
use ccsds_file_delivery_prot.Reception.{Disk}
use ccsds_file_delivery_prot.Sender.{Sender}
use ccsds_file_delivery_prot.Creation.{init_request_no_client}
use ccsds_file_delivery_prot.Creation.Put.{FileCalls, Configured, put_request_no_client}
use ccsds_file_delivery_prot.Application.{Cell, Requests}
use ccsds_file_delivery_prot.Application.Client.{Client}

-- A client in `active_clients`, with the id of its node.
pub record Started : Type 0 where
  pub id : ℕ
  pub remote : RemoteEntity
  pub client : Client

-- The part of `FTP` (types.h) that requests of the user work on.
pub record Session : Type 0 where
  pub my_cfdp_id : ℕ
  pub packet_len : ℕ
  pub transaction_sequence_number : ℕ
  pub active_clients : List Started

-- What the calls that start a client and a request give. `allocated` is the address of a new request,
-- `none` for NULL; there is memory for a client's buffer, and `client_memory` tells whether there is for
-- the client and its list; `node_memory` and `request_node_memory` tell it of the nodes of a client and
-- of a request; `now` is the reading of the clock.
pub record SessionCalls : Type 0 where
  pub files : FileCalls
  pub get_remote_entity_from_json : ℕ → Option RemoteEntity
  pub client_memory : Bool
  pub buff : Buffer
  pub on_heap : PduHeader
  pub thread_created : Bool
  pub node_memory : Bool
  pub request_node_memory : Bool
  pub allocated : Option ℕ
  pub now : ℕ
  pub file_on_disk : Disk
  pub saved : Request → Bool

module _ (calls : SessionCalls) where
  abbrev client_for : Session → RemoteEntity → Client
  client_for app remote = record {
    packet_len = remote.mtu;
    buff = calls.buff;
    requests = record { request_list = []; unlisted = []; current_request = none };
    transaction_inactivity_limit = remote.transaction_inactivity_limit;
    pdu_header = get_header_from_mib calls.on_heap remote app.my_cfdp_id;
    locked = false;
    close = false;
    app_packet_len = app.packet_len;
    app_my_cfdp_id = app.my_cfdp_id;
  }

  abbrev pub with_remote : ℕ → Session → Option RemoteEntity → Option Started
  with_remote id app none = none
  with_remote id app (some remote) =
      if not calls.client_memory
      then none
      else some (record { id = id; remote = remote; client = client_for app remote })

  unfoldable pub init_client : ℕ → Session → Option Started
  init_client id app = with_remote id app (calls.get_remote_entity_from_json id)

  -- A client that does not get its thread, or its node in the list, is freed.
  abbrev pub with_drivers : Session → Option Started → Option Session
  with_drivers app none = none
  with_drivers app (some started) =
      if not calls.thread_created
      then none
      else if not calls.node_memory
      then none
      else some (record app { active_clients = started ∷ app.active_clients })

  unfoldable pub ssp_client : ℕ → Session → Option Session
  ssp_client id app = with_drivers app (init_client id app)

-- The first client of the list with the id.
abbrev pub find_client : ℕ → List Started → Option Started
find_client id [] = none
find_client id (c ∷ cs) = if c.id == id then some c else find_client id cs

module _ (calls : SessionCalls) where
  abbrev pub or_started : ℕ → Session → Option Started → Option Session
  or_started id app none = ssp_client calls id app
  or_started id app (some client) = some app

  -- The application with a client for the id, which has eight bits here; the application is initialised.
  unfoldable pub start_client : Session → ℕ → Option Session
  start_client app dest_id =
      or_started (u8 dest_id) app (find_client (u8 dest_id) app.active_clients)

  abbrev request_of : Request → Started → Request
  request_of req started = record req {
    dest_cfdp_id = started.remote.cfdp_id;
    pdu_header = started.client.pdu_header;
    my_cfdp_id = started.client.app_my_cfdp_id;
    buff = started.client.buff;
    buff_len = started.client.packet_len;
  }

  -- The request becomes the first one of the client's list, if there is memory for its node.
  unfoldable pub add_request_to_client : ℕ → Request → Started → Started
  add_request_to_client address req started =
      let requests = started.client.requests in
      let cell : Cell Sender = record {
        address = address;
        element = record {
          turn = record { request = request_of req started; sent = [] };
          disk = calls.file_on_disk;
        };
      } in
      let added : Requests Sender =
        if calls.request_node_memory
        then record requests { request_list = cell ∷ requests.request_list }
        else record requests { unlisted = requests.unlisted ++ (cell ∷ []) } in
      record started { client = record started.client { requests = added } }

  -- The first client with the id gets the request.
  abbrev pub add_to_first : ℕ → ℕ → Request → List Started → List Started
  add_to_first id address req [] = []
  add_to_first id address req (c ∷ cs) =
      let rest = add_to_first id address req cs in
      if c.id == id then add_request_to_client address req c ∷ cs else c ∷ rest

  abbrev pub to_client : ℕ → ℕ → Request → Session → Session
  to_client dest_id address req app = record app {
    active_clients = add_to_first (u8 dest_id) address req app.active_clients;
  }

-- Whether a request was returned and not NULL, and the application.
pub record Put : Type 0 where
  pub ok : Bool
  pub app : Session

module _ (calls : SessionCalls) where
  abbrev pub unplaced : Session → Put
  unplaced app = record { ok = false; app = app }

  abbrev pub with_client : ℕ → ℕ → Request → Session → Option Session → Put
  with_client dest_id address req app none = unplaced app
  with_client dest_id address req app (some app') = record {
    ok = true;
    app = to_client calls dest_id address req app';
  }

  -- A number that was taken stays taken when the client cannot be started.
  abbrev pub with_configured : ℕ → ℕ → Session → Option Configured → Option Put
  with_configured dest_id address app none = none
  with_configured dest_id address app (some configured) =
      let app = record app { transaction_sequence_number = configured.next_number } in
      if not configured.ok
      then some (unplaced app)
      else some
          (with_client dest_id address configured.request app (start_client calls app dest_id))

  abbrev pub with_request : Option ℕ → ℕ → Option Bytes → Option Bytes → ℕ → Session → Option Put
  with_request none dest_id source destination mode app = some (unplaced app)
  with_request (some address) dest_id source destination mode app =
      with_configured dest_id address app (
        put_request_no_client calls.files app.my_cfdp_id app.transaction_sequence_number mode source
          destination (init_request_no_client calls.now))

  -- The request is not freed when it cannot be configured or placed.
  unfoldable pub put_request : ℕ → Option Bytes → Option Bytes → ℕ → Session → Option Put
  put_request dest_id source destination mode app =
      with_request calls.allocated dest_id source destination mode app

  abbrev pub placed : ℕ → ℕ → Request → Session → Option Session → Put
  placed dest_id address req app none = record { ok = true; app = app }
  placed dest_id address req app (some app') = record {
    ok = true;
    app = to_client calls dest_id address req app';
  }

  abbrev pub with_proxy : ℕ → ℕ → Bytes → Bytes → Session → Option Configured → Option Put
  with_proxy dest_id address source destination app none = none
  with_proxy dest_id address source destination app (some configured) =
      let app = record app { transaction_sequence_number = configured.next_number } in
      let req = configured.request in
      let asking : Request = record req {
        messages_to_user =
            add_proxy_message_to_request app.my_cfdp_id source destination req.messages_to_user;
      } in
      some (placed dest_id address asking app (start_client calls app dest_id))

  -- A request that could not be allocated is followed as NULL.
  unfoldable pub get_request : ℕ → Bytes → Bytes → ℕ → Session → Option Put
  get_request dest_id source destination mode app = elim calls.allocated [
    | none ↦ none
    | some address ↦ with_proxy dest_id address source destination app (
        put_request_no_client calls.files app.my_cfdp_id app.transaction_sequence_number mode none
          none (init_request_no_client calls.now))
  ]

  -- Whether the request was saved, and the request.
  unfoldable pub schedule_request : Request → ℕ → Session → Bool × Request
  schedule_request req dest_id app =
      let req : Request = record req {
        dest_cfdp_id = dest_id;
        my_cfdp_id = app.my_cfdp_id;
        procedure = sending_start;
      } in
      (calls.saved req, req)

  abbrev pub scheduled : ℕ → Session → Option Configured → Option Put
  scheduled dest_id app none = none
  scheduled dest_id app (some configured) =
      let app = record app { transaction_sequence_number = configured.next_number } in
      if not configured.ok
      then some (unplaced app)
      else some (record { ok = (schedule_request configured.request dest_id app).0; app = app })

  -- A request that is only saved; 0 is returned if it was.
  unfoldable pub schedule_put_request : ℕ → Option Bytes → Option Bytes → ℕ → Session → Option Put
  schedule_put_request dest_id source destination mode app = elim calls.allocated [
    | none ↦ some (unplaced app)
    | some address ↦ scheduled dest_id app (
        put_request_no_client calls.files app.my_cfdp_id app.transaction_sequence_number mode source
          destination (init_request_no_client calls.now))
  ]

  -- The requests whose files stand in the directory of the entity. `entries` are the names that
  -- `ssp_readdir` gives, `addresses` what the allocator gives, and `read` what `get_request_from_json`
  -- makes of a new request.
  unfoldable pub read_entries :
      (Bytes → Request → Option Request) → (ℕ → Option ℕ) → ℕ → ℕ → List Bytes → Session → Session
  read_entries read addresses n dest_id [] app = app
  read_entries read addresses n dest_id (name ∷ names) app =
      let skipped = read_entries read addresses n dest_id names app in
      let added : Session = elim (addresses n) [
        | none ↦ read_entries read addresses (suc n) dest_id names app
        | some address ↦ elim (read name (init_request_no_client calls.now)) [
          | none ↦ read_entries read addresses (suc n) dest_id names app
          | some req ↦
              read_entries read addresses (suc n) dest_id names
                (to_client calls dest_id address req app)
        ]
      ] in
      if name 0 == 0x2e then skipped else added

  -- `none` is -1: there is no directory, or no client.
  unfoldable pub start_scheduled_requests :
      (Bytes → Request → Option Request)
      → (ℕ → Option ℕ)
      → Option (List Bytes)
      → ℕ
      → Session
      → Option Session
  start_scheduled_requests read addresses none dest_id app = none
  start_scheduled_requests read addresses (some entries) dest_id app =
      elim (start_client calls app dest_id) [
        | none ↦ none
        | some app ↦ some (read_entries read addresses 0 dest_id entries app)
      ]

unfoldable pub start_request : Request → Request
start_request req = record req { paused = false }
