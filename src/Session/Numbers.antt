-- ===== src/Session/Numbers.antt =====
-- `put_request` (requests.c): the transaction numbers of the requests of an application.
use ccsds_file_delivery_prot.Common.{
  ℕ, ◌+◌, ◌^◌, ◌≤◌, ◌<◌, ltb, ◌==◌, ◌≡◌, refl, sym, subst, arith, inl, inr, if◌then◌else◌, true,
  not, Option, none, some, u8, u32, List, [], ◌∷◌, Returns, if-cases,
}
use ccsds_file_delivery_prot.Wire.{Bytes}
use ccsds_file_delivery_prot.Mib.{RemoteEntity}
use ccsds_file_delivery_prot.Request.{Request}
use ccsds_file_delivery_prot.Sender.{Sender}
use ccsds_file_delivery_prot.Creation.{init_request_no_client}
use ccsds_file_delivery_prot.Creation.Put.{Configured, refused}
use ccsds_file_delivery_prot.Creation.Put.Cases.{
  both, IsConfigured, put_request_no_client-IsConfigured,
}
use ccsds_file_delivery_prot.Application.{Cell}
use ccsds_file_delivery_prot.Session.{
  Started, Session, SessionCalls, with_drivers, ssp_client, init_client, with_remote, find_client,
  or_started, start_client, add_request_to_client, add_to_first, with_request, with_client,
  with_configured, put_request,
}

-- How many requests have the number.
abbrev count : ℕ → List (Cell Sender) → ℕ
count n [] = 0
count n (c ∷ cs) =
    let rest = count n cs in
    if c.element.turn.request.transaction_sequence_number == n then rest + 1 else rest

abbrev pub uses : ℕ → List Started → ℕ
uses n [] = 0
uses n (c ∷ cs) = count n c.client.requests.request_list + uses n cs

-- No two requests have the same number, and none has one that is still to be given.
abbrev pub IsNumbered : Session → Type 0
IsNumbered app =
    (n : ℕ) → uses n app.active_clients ≤ (if ltb n app.transaction_sequence_number then 1 else 0)

uses-add_to_first :
    (calls : SessionCalls) (n id address : ℕ) (req : Request) (cs : List Started)
    → uses n (add_to_first calls id address req cs)
      ≤ uses n cs + (if req.transaction_sequence_number == n then 1 else 0)
unfolding add_request_to_client
uses-add_to_first calls n id address req [] = omega arith
uses-add_to_first calls n id address req (c ∷ cs) =
    ground (arith, uses-add_to_first calls n id address req cs)

-- A client that is started has no requests.
abbrev SameUses : Session → Option Session → Type 0
SameUses app none = Unit {0}
SameUses app (some app') =
    ((n : ℕ) → uses n app'.active_clients ≡ uses n app.active_clients)
    × (app'.transaction_sequence_number ≡ app.transaction_sequence_number)

abbrev IsIdle : Option Started → Type 0
IsIdle none = Unit {0}
IsIdle (some c) = (n : ℕ) → count n c.client.requests.request_list ≡ 0

with_remote-IsIdle :
    (calls : SessionCalls) (id : ℕ) (app : Session) (remote : Option RemoteEntity)
    → IsIdle (with_remote calls id app remote)
with_remote-IsIdle calls id app none = tt
with_remote-IsIdle calls id app (some remote) =
    if-cases IsIdle (not calls.client_memory) (λ h. tt) (λ h n. refl)

with_drivers-SameUses :
    (calls : SessionCalls) (app : Session) (o : Option Started)
    → IsIdle o
    → SameUses app (with_drivers calls app o)
with_drivers-SameUses calls app none idle = tt
with_drivers-SameUses calls app (some started) idle =
    if-cases (SameUses app) (not calls.thread_created) (λ h. tt)
      (λ h.
        if-cases (SameUses app) (not calls.node_memory) (λ h. tt)
          (λ h. ((λ n. omega (arith, idle n)), refl)))

start_client-SameUses :
    (calls : SessionCalls) (app : Session) (dest_id : ℕ)
    → SameUses app (start_client calls app dest_id)
unfolding start_client ssp_client init_client
start_client-SameUses calls app dest_id = by_client (find_client (u8 dest_id) app.active_clients)
  where
    by_client : (o : Option Started) → SameUses app (or_started calls (u8 dest_id) app o)
    by_client (some c) = ((λ n. refl), refl)
    by_client none =
        with_drivers-SameUses calls app _ (
          with_remote-IsIdle calls (u8 dest_id) app
            (calls.get_remote_entity_from_json (u8 dest_id)))

module _ (calls : SessionCalls) (dest_id address : ℕ) (app : Session) (numbers : IsNumbered app)
    (more : app.transaction_sequence_number + 1 < 2 ^ 32) where
  abbrev next : Session
  next = record app { transaction_sequence_number = u32 (app.transaction_sequence_number + 1) }

  -- A number that is not used is lost.
  skipped-IsNumbered : IsNumbered next
  skipped-IsNumbered n = ground (arith, numbers n, more)

  with_client-IsNumbered :
      (req : Request) (o : Option Session)
      → req.transaction_sequence_number ≡ app.transaction_sequence_number
      → SameUses next o
      → IsNumbered (with_client calls dest_id address req next o).app
  with_client-IsNumbered req none number same = skipped-IsNumbered
  with_client-IsNumbered req (some app') number (same, counter) = λ n.
      let added = uses-add_to_first calls n (u8 dest_id) address req app'.active_clients in
      ground (arith, numbers n, more, number, same n, counter, added)

  with_configured-IsNumbered :
      (req : Request) (source : Option Bytes) (o : Option Configured)
      → Returns (IsConfigured calls.files.node_memory app.transaction_sequence_number req source) o
      → Returns (λ put. IsNumbered put.app) (with_configured calls dest_id address app o)
  with_configured-IsNumbered req source none fault = elim fault [ ]
  with_configured-IsNumbered req source (some c) (inl (refused, kept)) =
      rw (with_configured, refused)
        (subst (λ (k : ℕ). IsNumbered (record app { transaction_sequence_number = k })) (sym kept)
          numbers)
  with_configured-IsNumbered req source (some c) (inr (ok, counter, number, _, _, _)) =
      rw (with_configured, ok)
        (subst
          (λ (k : ℕ).
            let app' : Session = record app { transaction_sequence_number = k } in
            IsNumbered
              (with_client calls dest_id address c.request app'
                (start_client calls app' dest_id)).app)
          (sym counter)
          (with_client-IsNumbered c.request _ number (start_client-SameUses calls next dest_id)))

-- If no two requests of an application have the same number and none has one that is still to be
-- given, a put request with both file names or none returns, and the same holds after it, as long as
-- the numbers fit 32 bits.
pub put_request-IsNumbered :
    (calls : SessionCalls) (dest_id mode : ℕ) (source destination : Option Bytes) (app : Session)
    → both source destination ≡ true
    → IsNumbered app
    → app.transaction_sequence_number + 1 < 2 ^ 32
    → Returns (λ put. IsNumbered put.app) (put_request calls dest_id source destination mode app)
unfolding put_request
put_request-IsNumbered calls dest_id mode source destination app given numbers more =
    by_address calls.allocated
  where
    by_address :
        (o : Option ℕ)
        → Returns
            (λ put. IsNumbered put.app)
            (with_request calls o dest_id source destination mode app)
    by_address none = numbers
    by_address (some address) =
        with_configured-IsNumbered calls dest_id address app numbers more
          (init_request_no_client calls.now) source _
          (put_request_no_client-IsConfigured calls.files app.my_cfdp_id
            app.transaction_sequence_number mode (init_request_no_client calls.now) source
            destination given)
