-- ===== src/Application/Serving.antt =====
-- `on_recv_server_callback` (app_control.c): what a packet changes among the requests of a server.
pub mod Freed
pub mod Waiting
use ccsds_file_delivery_prot.Common.{
  u32, ℕ, ◌==◌, ◌≡◌, ◌≢◌, refl, ap, sym, subst, ◌⊎◌, ◌&&◌, Returns-result, false, Option, none,
  some, List, Option-cases,
}
use mathlib.Core.Option.{some-injective}
use ccsds_file_delivery_prot.Wire.{Buffer, Endian}
use ccsds_file_delivery_prot.Packet.Header.{PduHeader}
use ccsds_file_delivery_prot.File.Missing.{Alloc}
use ccsds_file_delivery_prot.Reception.{Port}
use ccsds_file_delivery_prot.Mib.{RemoteEntity}
use ccsds_file_delivery_prot.Request.{Request}
use ccsds_file_delivery_prot.Incoming
use ccsds_file_delivery_prot.Incoming.{Storage, Receiver, is_null, returning}
use ccsds_file_delivery_prot.Incoming.Directive.{parse_packet_server-Adds}
use ccsds_file_delivery_prot.Packet.Directives.{data_pdu, eof_pdu, meta_data_pdu}
use ccsds_file_delivery_prot.Application.{
  Cell, Requests, load, all_requests, store, process_pdu_header,
}
use ccsds_file_delivery_prot.Application.Server.{
  made_request, Ftp, IncomingCalls, Received, receivers, new_incomming_request, keep_request,
}
use ccsds_file_delivery_prot.Application.Rounds.{IsFree}
use ccsds_file_delivery_prot.Application.Sound.{IsSound, Makes}
use ccsds_file_delivery_prot.Application.Handling.{IsStuck}

-- The allocator gives an address that is not in use.
abbrev pub AllocatesFree : IncomingCalls → Type 0
AllocatesFree calls =
    (cells : List (Cell Receiver)) (p : ℕ) → calls.allocated cells ≡ some p → IsFree p cells

-- Every request but the current one is as it was before.
abbrev pub OthersStay : Requests Receiver → Requests Receiver → Type 0
OthersStay before after =
    (q : ℕ) (r : Receiver)
    → load q (all_requests before) ≡ some r
    → after.current_request ≢ some q
    → load q (all_requests after) ≡ some r

made-Makes :
    (calls : IncomingCalls) (app : Ftp) (header : PduHeader) (remote : Option RemoteEntity)
    (o : Option ℕ) (c : Cell Receiver)
    → AllocatesFree calls
    → calls.allocated (all_requests app.requests) ≡ o
    → made_request calls app header remote o ≡ some c
    → IsFree c.address (all_requests app.requests)
      × (c.element.turn.request.dest_cfdp_id ≡ header.source_id)
      × (c.element.turn.request.transaction_sequence_number
          ≡ u32 header.transaction_sequence_number)
made-Makes calls app header none o c free at e = absurd (cc e)
made-Makes calls app header (some remote) none c free at e = absurd (cc e)
made-Makes calls app header (some remote) (some p) c free at e =
    let same = some-injective _ _ e in
    (
      subst (λ (d : Cell Receiver). IsFree d.address (all_requests app.requests)) same
          (free (all_requests app.requests) p at),
      ap (λ (d : Cell Receiver). d.element.turn.request.dest_cfdp_id) (sym same),
      ap (λ (d : Cell Receiver). d.element.turn.request.transaction_sequence_number) (sym same),
    )

pub new-Makes :
    (calls : IncomingCalls) (app : Ftp)
    → AllocatesFree calls
    → Makes receivers (new_incomming_request calls app) app.requests
unfolding new_incomming_request
new-Makes calls app free header c e =
    made-Makes calls app header (calls.get_remote_entity_from_json header.source_id)
      (calls.allocated (all_requests app.requests)) c free refl e

module _ (host : Endian) (disk : Storage) (port : Port) (fuel : ℕ) (alloc : Alloc)
    (my_cfdp_id : ℕ) where
  -- What a packet comes to.
  abbrev pub Serves : Requests Receiver → Buffer → Option Received → Type 0
  Serves before packet none = IsStuck host disk port fuel alloc my_cfdp_id packet
  Serves before packet (some received) =
      IsSound receivers received.app.requests × OthersStay before received.app.requests
