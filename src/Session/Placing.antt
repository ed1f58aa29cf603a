-- ===== src/Session/Placing.antt =====
-- `put_request` (requests.c): where the request goes.
use ccsds_file_delivery_prot.Common.{
  ℕ, ◌==◌, ◌≡◌, refl, ap, ◌∙◌, arith, inl, inr, ◌⊎◌, true, false, not, Bool, sym, if◌then◌else◌,
  ◌++◌, Option, none, some, u8, List, [], ◌∷◌, Returns, Bool-cases, if-cases,
}
use ccsds_file_delivery_prot.Wire.{Bytes}
use ccsds_file_delivery_prot.Request.{Request, sending_start}
use ccsds_file_delivery_prot.Mib.{RemoteEntity}
use ccsds_file_delivery_prot.Incoming.Handler.{Ensures}
use ccsds_file_delivery_prot.Sender.{Sender}
use ccsds_file_delivery_prot.Creation.{init_request_no_client}
use ccsds_file_delivery_prot.Creation.Put.{Configured}
use ccsds_file_delivery_prot.Creation.Put.Cases.{
  both, Waits, IsConfigured, put_request_no_client-IsConfigured,
}
use ccsds_file_delivery_prot.Application.{Cell, Requests}
use ccsds_file_delivery_prot.Session.{
  Started, Session, SessionCalls, Put, find_client, start_client, ssp_client, init_client,
  with_drivers, with_remote, or_started, add_request_to_client, add_to_first, with_client,
  with_configured, with_request, put_request,
}

-- The requests of a client, and those of one that is not there yet.
abbrev pub requests_of : Option Started → Requests Sender
requests_of none = record { request_list = []; unlisted = []; current_request = none }
requests_of (some c) = c.client.requests

-- What a client has when a request was added: it is the first one of its list, if there was memory for
-- the node, or outside of the list; the others stay.
abbrev pub added : Bool → Cell Sender → Requests Sender → Requests Sender
added node cell rs =
    if node
    then record rs { request_list = cell ∷ rs.request_list }
    else record rs { unlisted = rs.unlisted ++ (cell ∷ []) }

-- A request is new for the first client with the id: it waits with the next number, for the client's
-- entity.
abbrev pub IsPlaced : SessionCalls → ℕ → Option Bytes → Session → Put → Type 0
IsPlaced calls dest_id source app put =
    (c : Started) × (cell : Cell Sender) × (put.ok ≡ true)
    × (find_client (u8 dest_id) put.app.active_clients ≡ some c)
    × (c.client.requests
        ≡ added calls.request_node_memory cell
            (requests_of (find_client (u8 dest_id) app.active_clients)))
    × (cell.element.turn.request.transaction_sequence_number ≡ app.transaction_sequence_number)
    × (cell.element.turn.request.dest_cfdp_id ≡ c.remote.cfdp_id)
    × (cell.element.turn.request.procedure ≡ sending_start)
    × (cell.element.turn.request.paused ≡ true)
    × Waits calls.files.node_memory source (init_request_no_client calls.now)
        cell.element.turn.request

-- NULL is returned, and no client has changed.
abbrev pub IsLeft : Session → Put → Type 0
IsLeft app put = (put.ok ≡ false) × (put.app.active_clients ≡ app.active_clients)

find-add_to_first :
    (calls : SessionCalls) (id address : ℕ) (req : Request) (c : Started) (cs : List Started)
    → find_client id cs ≡ some c
    → find_client id (add_to_first calls id address req cs)
      ≡ some (add_request_to_client calls address req c)
unfolding add_request_to_client
find-add_to_first calls id address req c [] e = absurd (cc e)
find-add_to_first calls id address req c (d ∷ ds) e = elim (Bool-cases (d.id == id)) [
  | inl h ↦
      let same : d ≡ c = ground (arith, h, e) in
      let added : Started → Started = λ x. add_request_to_client calls address req x in
      let first : find_client id (added d ∷ ds) ≡ some (added d) = ground (arith, h) in
      rw h (first ∙ ap (λ (x : Started). some (added x)) same)
  | inr h ↦
      let ih = find-add_to_first calls id address req c ds (ground (arith, h, e)) in
      let rest = add_to_first calls id address req ds in
      let further : find_client id (d ∷ rest) ≡ find_client id rest = ground (arith, h) in
      rw h (further ∙ ih)
]

-- A client that is started is found.
abbrev IsNew : ℕ → Started → Type 0
IsNew id c = (c.id ≡ id) × (c.client.requests ≡ requests_of none)

abbrev HasClient : Session → ℕ → Option Session → Type 0
HasClient before id none = Unit {0}
HasClient before id (some app) =
    (c : Started) × (find_client id app.active_clients ≡ some c)
    × (c.client.requests ≡ requests_of (find_client id before.active_clients))

with_remote_id :
    (calls : SessionCalls) (id : ℕ) (app : Session) (remote : Option RemoteEntity)
    → Ensures (IsNew id) (with_remote calls id app remote)
with_remote_id calls id app none = tt
with_remote_id calls id app (some remote) =
    if-cases (Ensures (IsNew id)) (not calls.client_memory) (λ h. tt) (λ h. (refl, refl))

with_drivers-HasClient :
    (calls : SessionCalls) (id : ℕ) (app : Session) (o : Option Started)
    → Ensures (IsNew id) o
    → find_client id app.active_clients ≡ none
    → HasClient app id (with_drivers calls app o)
with_drivers-HasClient calls id app none new nowhere = tt
with_drivers-HasClient calls id app (some started) (same, empty) nowhere =
    if-cases (HasClient app id) (not calls.thread_created) (λ h. tt)
      (λ h.
        if-cases (HasClient app id) (not calls.node_memory) (λ h. tt)
          (λ h. (started, ground (arith, same), empty ∙ ap requests_of (sym nowhere))))

start_client-HasClient :
    (calls : SessionCalls) (app : Session) (dest_id : ℕ)
    → HasClient app (u8 dest_id) (start_client calls app dest_id)
unfolding start_client ssp_client init_client
start_client-HasClient calls app dest_id =
    by_client (find_client (u8 dest_id) app.active_clients) refl
  where
    by_client :
        (o : Option Started)
        → find_client (u8 dest_id) app.active_clients ≡ o
        → HasClient app (u8 dest_id) (or_started calls (u8 dest_id) app o)
    by_client (some c) e = (c, e, ap requests_of (sym e))
    by_client none e =
        with_drivers-HasClient calls (u8 dest_id) app _
          (with_remote_id calls (u8 dest_id) app (calls.get_remote_entity_from_json (u8 dest_id))) e

Waits-file :
    (node : Bool) (source : Option Bytes) (before req req' : Request)
    → req'.file ≡ req.file
    → Waits node source before req
    → Waits node source before req'
Waits-file node none before req req' same waits = same ∙ waits
Waits-file node (some name) before req req' same (file, has, whole, begin) =
    (file, same ∙ has, whole, begin)

module _ (calls : SessionCalls) (dest_id address : ℕ) (source : Option Bytes) (app : Session) where
  abbrev Is : Put → Type 0
  Is put = IsPlaced calls dest_id source app put ⊎ IsLeft app put

  with_client-IsPlaced :
      (req : Request) (app' : Session) (o : Option Session)
      → app'.active_clients ≡ app.active_clients
      → req.transaction_sequence_number ≡ app.transaction_sequence_number
      → req.procedure ≡ sending_start
      → req.paused ≡ true
      → Waits calls.files.node_memory source (init_request_no_client calls.now) req
      → HasClient app' (u8 dest_id) o
      → Is (with_client calls dest_id address req app' o)
  unfolding add_request_to_client
  with_client-IsPlaced req app' none same number starts paused waits has = inr (refl, same)
  with_client-IsPlaced req app' (some app2) same number starts paused waits (c, at, before) = inl (
    add_request_to_client calls address req c,
    _,
    refl,
    find-add_to_first calls (u8 dest_id) address req c app2.active_clients at,
    ap (added calls.request_node_memory _)
        (before ∙ ap (λ (cs : List Started). requests_of (find_client (u8 dest_id) cs)) same),
    number,
    refl,
    starts,
    paused,
    Waits-file calls.files.node_memory source _ req _ refl waits,
  )

  with_configured-IsPlaced :
      (o : Option Configured)
      → Returns
          (IsConfigured calls.files.node_memory app.transaction_sequence_number
            (init_request_no_client calls.now)
            source)
          o
      → Returns Is (with_configured calls dest_id address app o)
  unfolding init_request_no_client
  with_configured-IsPlaced none fault = elim fault [ ]
  with_configured-IsPlaced (some c) (inl (refused, kept)) =
      rw (with_configured, refused) (inr (refl, refl))
  with_configured-IsPlaced (some c) (inr (ok, counter, number, starts, paused, waits)) =
      let app' : Session = record app { transaction_sequence_number = c.next_number } in
      rw (with_configured, ok)
        (with_client-IsPlaced c.request app' (start_client calls app' dest_id) refl number starts
          paused waits (start_client-HasClient calls app' dest_id))

-- A put request with both file names or none returns. It returns NULL and leaves all clients as they
-- were, or there is a client with the low eight bits of the destination as its id, whose list has one
-- more request in front of those it had, or the same requests if there was no memory for the node. The
-- new request is paused, with the next transaction number, for the client's entity and, if names were
-- given, with a file of which no byte was sent, and all are still to arrive or, without memory for the
-- node of the first offset, none.
pub put_request-IsPlaced :
    (calls : SessionCalls) (dest_id mode : ℕ) (source destination : Option Bytes) (app : Session)
    → both source destination ≡ true
    → Returns
        (λ put. IsPlaced calls dest_id source app put ⊎ IsLeft app put)
        (put_request calls dest_id source destination mode app)
unfolding put_request
put_request-IsPlaced calls dest_id mode source destination app given = by_address calls.allocated
  where
    by_address :
        (o : Option ℕ)
        → Returns
            (λ put. IsPlaced calls dest_id source app put ⊎ IsLeft app put)
            (with_request calls o dest_id source destination mode app)
    by_address none = inr (refl, refl)
    by_address (some address) = with_configured-IsPlaced calls dest_id address source app _ (
        put_request_no_client-IsConfigured calls.files app.my_cfdp_id
          app.transaction_sequence_number mode (init_request_no_client calls.now) source destination
          given)
