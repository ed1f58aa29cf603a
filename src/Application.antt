-- ===== src/Application.antt =====
-- app_control.c and protocol_handler.c: the requests of a server or a client, how a packet finds its
-- request, and the rounds in which requests end. A list holds the requests that are allocated, each
-- with its address; a program that follows the address of a freed request has no result.
pub mod Server
pub mod Allocated
pub mod Client
pub mod Sound
pub mod Routing
pub mod Rounds
pub mod Ids
pub mod Handling
pub mod Serving
use ccsds_file_delivery_prot.Common.{
  ℕ, zero, suc, ◌+◌, ltb, ◌==◌, if◌then◌else◌, Bool, true, false, not, ◌&&◌, ◌||◌, Option, none,
  some, u32, List, [], ◌∷◌, ◌++◌,
}
use ccsds_file_delivery_prot.Wire.{Buffer, Endian}
use ccsds_file_delivery_prot.Packet.Header.{PduHeader, get_pdu_header_from_packet}
use ccsds_file_delivery_prot.Request.{
  Request, RequestProcedure, LocalEntity, clean_up, un_acknowledged_mode,
}
use ccsds_file_delivery_prot.Clock.{timeout}
use ccsds_file_delivery_prot.Creation.{zero_header}

-- A request of the list, with the state that its handlers keep.
pub record Cell (A : Type 0) : Type 0 where
  pub address : ℕ
  pub element : A

-- `request_list`, the first request first, the requests that were made but found no place in it, and
-- `current_request`, `none` for NULL.
pub record Requests (A : Type 0) : Type 0 where
  pub request_list : List (Cell A)
  pub unlisted : List (Cell A)
  pub current_request : Option ℕ

-- The requests that are allocated.
abbrev pub all_requests : {A : Type 0} → Requests A → List (Cell A)
all_requests rs = rs.request_list ++ rs.unlisted

-- How a request is reached in the state that its handlers keep.
pub record Access (A : Type 0) : Type 0 where
  pub request : A → Request
  pub with_request : A → Request → A

-- What is stored at an address.
abbrev pub load : {A : Type 0} → ℕ → List (Cell A) → Option A
load p [] = none
load p (c ∷ cs) = if c.address == p then some c.element else load p cs

abbrev pub store : {A : Type 0} → ℕ → A → List (Cell A) → List (Cell A)
store p a [] = []
store p a (c ∷ cs) =
    let rest = store p a cs in if c.address == p then record c { element = a } ∷ rest else c ∷ rest

-- Whether the two ids are those of a request.
unfoldable pub find_request : ℕ → ℕ → Request → Bool
find_request source_id transaction_sequence_number req =
    (req.dest_cfdp_id == source_id)
    && (req.transaction_sequence_number == transaction_sequence_number)

-- What was made of a header: the place of the data, `none` for -1, the header, and the requests.
pub record Routed (A : Type 0) : Type 0 where
  pub index : Option ℕ
  pub header : PduHeader
  pub requests : Requests A

module _ {A : Type 0} (access : Access A) where
  -- `request_list->find`.
  abbrev pub find : ℕ → ℕ → List (Cell A) → Option (Cell A)
  find source_id number [] = none
  find source_id number (c ∷ cs) =
      if find_request source_id number (access.request c.element)
      then some c
      else find source_id number cs

  -- Whether a packet is for the current request; the outer `none` is a freed one.
  abbrev pub is_current : PduHeader → List (Cell A) → Option ℕ → Option Bool
  is_current header cells none = some false
  is_current header cells (some p) = elim (load p cells) [
    | none ↦ none
    | some a ↦
        some (find_request header.source_id header.transaction_sequence_number (access.request a))
  ]

  abbrev pub found : PduHeader → Requests A → Cell A → Routed A
  found header rs c = record {
    index = some header.reserved_space_for_header;
    header = header;
    requests = record rs { current_request = some c.address };
  }

  abbrev pub failed : PduHeader → Requests A → Routed A
  failed header rs = record { index = none; header = header; requests = rs }

  -- `request_list->push`, whose result is not looked at.
  abbrev pub pushed : Bool → Requests A → Cell A → Requests A
  pushed pushes rs c =
      if pushes
      then record rs { request_list = rs.request_list ++ (c ∷ []) }
      else record rs { unlisted = rs.unlisted ++ (c ∷ []) }

  -- A request that is not in the list is made, by a server.
  abbrev pub make_request : Bool → PduHeader → Requests A → Option (Cell A) → Routed A
  make_request pushes header rs none = failed header rs
  make_request pushes header rs (some c) = found header (pushed pushes rs c) c

  abbrev pub find_or_make :
      Bool
      → (PduHeader → Option (Cell A))
      → Bool
      → PduHeader
      → Requests A
      → Option (Cell A)
      → Routed A
  find_or_make is_server new pushes header rs (some c) = found header rs c
  find_or_make is_server new pushes header rs none =
      if is_server then make_request pushes header rs (new header) else failed header rs

  abbrev pub unless_current :
      Bool
      → (PduHeader → Option (Cell A))
      → Bool
      → PduHeader
      → Requests A
      → Option Bool
      → Option (Routed A)
  unless_current is_server new pushes header rs none = none
  unless_current is_server new pushes header rs (some same) =
      if same
      then some
          (record { index = some header.reserved_space_for_header; header = header; requests = rs })
      else some (
          find_or_make is_server new pushes header rs
            (find header.source_id (u32 header.transaction_sequence_number) rs.request_list))

  -- `pushes` tells whether the list finds memory for a new request.
  -- A number that is searched for has 32 bits; one that is compared with the current request has 64.
  unfoldable pub route :
      Bool
      → (PduHeader → Option (Cell A))
      → Bool
      → ℕ
      → ℕ
      → Option ℕ × PduHeader
      → Requests A
      → Option (Routed A)
  route is_server new pushes my_cfdp_id packet_len (none, header) rs = some (failed header rs)
  route is_server new pushes my_cfdp_id packet_len (some _, header) rs =
      if not (my_cfdp_id == header.destination_id)
      then some (failed header rs)
      else if ltb packet_len header.pdu_data_field_len
      then some (failed header rs)
      else unless_current is_server new pushes header rs
          (is_current header (all_requests rs) rs.current_request)

  unfoldable pub process_pdu_header :
      Endian
      → Bool
      → (PduHeader → Option (Cell A))
      → Bool
      → ℕ
      → ℕ
      → Buffer
      → Requests A
      → Option (Routed A)
  process_pdu_header host is_server new pushes my_cfdp_id packet_len packet rs =
      route is_server new pushes my_cfdp_id packet_len
        (get_pdu_header_from_packet host packet zero_header) rs

-- What a round of a timer or of a client does to the requests: those that stay in the list, those whose
-- state was saved, those whose saved state was deleted, and the buffer for packets.
pub record Round (A : Type 0) : Type 0 where
  pub kept : List (Cell A)
  pub saved : List Request
  pub deleted : List Request
  pub buff : Buffer

abbrev pub is_clean_up : RequestProcedure → Bool
is_clean_up clean_up = true
is_clean_up RequestProcedure.no_procedure = false
is_clean_up RequestProcedure.sending_nak_data = false
is_clean_up RequestProcedure.sending_start = false

module _ {A : Type 0} (access : Access A) where
  -- A request that ends is freed; its saved state goes if there is nothing to resume.
  unfoldable pub remove_request_check : Cell A → Round A → Round A
  remove_request_check c rest =
      let req = access.request c.element in
      if is_clean_up req.procedure
      then if req.local_entity.transaction_finished_indication
          || (req.transmission_mode == un_acknowledged_mode)
        then record rest { deleted = req ∷ rest.deleted }
        else rest
      else record rest { kept = c ∷ rest.kept }

  abbrev pub checked : Cell A → A → List Request × Request → Option (Round A) → Option (Round A)
  checked c a (saved, req) none = none
  checked c a (saved, req) (some rest) = some (
      remove_request_check (record c { element = access.with_request a req })
        (record rest { saved = saved ++ rest.saved }))

  abbrev pub handled : Option A → (A → Option (Round A)) → Option (Round A)
  handled none f = none
  handled (some a) f = f a

  -- The requests share the buffer for packets.
  abbrev pub with_buff : A → Buffer → A
  with_buff a m = access.with_request a (record (access.request a) { buff = m })

  module _ (handle : ℕ → A → Option A) (limit : ℕ) (clock : ℕ → ℕ) where
    -- A request is handled, its time-outs are checked, and it is removed when it ends. `n` readings of
    -- the clock were taken before; the first one is for the handler.
    unfoldable pub check_requests : ℕ → Buffer → List (Cell A) → Option (Round A)
    check_requests n m [] = some (record { kept = []; saved = []; deleted = []; buff = m })
    check_requests n m (c ∷ cs) = handled (handle (clock n) (with_buff c.element m)) λ a.
        checked c a (timeout (clock (suc n)) (clock (n + 2)) limit (access.request a))
          (check_requests (n + 3) (access.request a).buff cs)
