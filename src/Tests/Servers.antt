-- ===== src/Tests/Servers.antt =====
-- The theorems on the requests of a server, each used on an example.
use ccsds_file_delivery_prot.Common.{
  ℕ, ◌+◌, ◌≤◌, List, ◌-◌, ◌==◌, ◌≡◌, refl, arith, if◌then◌else◌, true, false, none, some, [], ◌∷◌,
  Returns,
}
use ccsds_file_delivery_prot.Wire.{Buffer, big, get16, htons, load16}
use ccsds_file_delivery_prot.Packet.Fields.{get_data_length, get_bits_from_protocol_byte}
use ccsds_file_delivery_prot.Packet.Header.{get_pdu_header_from_packet}
use ccsds_file_delivery_prot.Packet.Ids.{copy_id_from_packet}
use ccsds_file_delivery_prot.File.Missing.Receive.{has_memory}
use ccsds_file_delivery_prot.Creation.{zero_header, init_request}
use ccsds_file_delivery_prot.Request.{Request}
use ccsds_file_delivery_prot.Incoming.{
  Receiver, parse_packet_server, receive_directive, receive_finished_ack,
}
use ccsds_file_delivery_prot.Packet.Directives.{get_ack_from_packet}
use ccsds_file_delivery_prot.Application.{
  route, find_request, Cell, load, all_requests, process_pdu_header,
}
use ccsds_file_delivery_prot.Application.Server.{
  Ftp, IncomingCalls, receivers, new_incomming_request, on_recv_server_callback,
  on_time_out_callback_server,
}
use ccsds_file_delivery_prot.Application.Sound.{IsSound, IsRouted}
use ccsds_file_delivery_prot.Application.Routing.{process_pdu_header-IsSound}
use ccsds_file_delivery_prot.Application.Serving.{AllocatesFree, new-Makes}
use mathlib.Core.Option.{some-injective}
use ccsds_file_delivery_prot.Application.Rounds.{IsFree}
use ccsds_file_delivery_prot.Application.Serving.Waiting.{
  IsOrderly, on_time_out_callback_server-IsOrderly,
}
use ccsds_file_delivery_prot.Application.Serving.Freed.{on_recv_server_callback_freed}
use ccsds_file_delivery_prot.Tests.{a_turn, a_header, a_remote, a_disk, working_port}
use ccsds_file_delivery_prot.Tests.Arrivals.{a_storage}

abbrev done : Request
done = record a_turn.request {
  resent_finished = 1;
  local_entity = record a_turn.request.local_entity { transaction_finished_indication = true };
}

abbrev a_cell : Cell Receiver
a_cell = record {
  address = 64;
  element = record { turn = record a_turn { request = done }; started = []; disk = a_disk };
}

abbrev a_server : Ftp
a_server = record {
  packet_len = 1_024;
  buff = record { byte = λ i. 0 };
  my_cfdp_id = 5;
  requests = record { request_list = a_cell ∷ []; unlisted = []; current_request = some 64 };
  transaction_inactivity_limit = 100;
  active_clients = [];
  transaction_sequence_number = 1;
  close = false;
}

-- A header from 3 to 5 for transaction 4, and ten bytes of data.
abbrev a_packet : Buffer
a_packet = record { byte = λ i. if i == 2 then 10 else if i == 3 then 0x11 else i - 1 }

-- An address above all that are in use.
abbrev above : List (Cell Receiver) → ℕ
above [] = 1
above (c ∷ cs) = c.address + 1 + above cs

above-IsFree : (cells : List (Cell Receiver)) (p : ℕ) → above cells ≤ p → IsFree p cells
above-IsFree [] p high = tt
above-IsFree (c ∷ cs) p high =
    ((λ e. absurd (omega (arith, high, e))), above-IsFree cs p (omega (arith, high)))

-- A new request is made, but the list has no memory for its node.
abbrev some_calls : IncomingCalls
some_calls = record {
  get_remote_entity_from_json = λ id. some a_remote;
  allocated = λ cells. some (above cells);
  on_stack = a_header;
  now = 50;
  new_disk = a_disk;
  pushes = false;
}

some_calls-AllocatesFree : AllocatesFree some_calls
some_calls-AllocatesFree cells p e =
    let same = some-injective _ _ e in above-IsFree cells p (omega (arith, same))

a_server-IsSound : IsSound receivers a_server.requests
a_server-IsSound = record { addresses = (tt, tt); ids = (tt, tt); current = (a_cell.element, refl) }

process_pdu_header-IsSound_example :
    Returns
      (λ routed.
        IsSound receivers routed.requests
        × (routed.header ≡ (get_pdu_header_from_packet big a_packet zero_header).1)
        × IsRouted receivers false a_server.requests routed.header routed.index routed.requests)
      (process_pdu_header receivers big true
        (new_incomming_request some_calls a_server)
        false
        5
        1_024
        a_packet
        a_server.requests)
process_pdu_header-IsSound_example =
    process_pdu_header-IsSound receivers big true (new_incomming_request some_calls a_server) false
      5 1_024 a_packet a_server.requests (new-Makes some_calls a_server some_calls-AllocatesFree)
      a_server-IsSound

on_time_out_callback_server-IsOrderly_example :
    Returns
      (λ out. IsOrderly out.app.requests.request_list)
      (on_time_out_callback_server big (λ n. 60) a_server)
on_time_out_callback_server-IsOrderly_example =
    on_time_out_callback_server-IsOrderly big (λ n. 60) a_server (tt, tt) (tt, tt)

a_packet-header :
    ((get_pdu_header_from_packet big a_packet zero_header).0 ≡ some 7)
    × ((get_pdu_header_from_packet big a_packet zero_header).1.destination_id ≡ 5)
    × ((get_pdu_header_from_packet big a_packet zero_header).1.pdu_data_field_len ≡ 10)
unfolding get_pdu_header_from_packet get_bits_from_protocol_byte get_data_length get16 htons load16
    copy_id_from_packet
a_packet-header = (refl, refl, refl)

on_recv_server_callback_freed_example :
    Returns
      (λ out.
        (out.app.requests.current_request ≡ some 64)
        × (load 64 (all_requests out.app.requests) ≡ none)
        × (on_recv_server_callback big a_storage working_port 9 has_memory some_calls 60 a_packet 17
              out.app
            ≡ none))
      (on_time_out_callback_server big (λ n. 60) a_server)
on_recv_server_callback_freed_example =
    on_recv_server_callback_freed big a_storage working_port 9 has_memory (λ n. 60) some_calls 60 17
      64 7 a_packet a_server a_cell.element (tt, tt) refl refl (refl, refl, refl, refl)
      (omega arith) a_packet-header.0 a_packet-header.1 (omega (arith, a_packet-header.2))

-- The packet is handled: its request is new and the current one.
a_packet_handled :
    Returns
      (λ received. (received.count ≡ some 17) × (received.app.requests.current_request ≡ some 66))
      (on_recv_server_callback big a_storage working_port 9 has_memory some_calls 60 a_packet 17
        a_server)
unfolding on_recv_server_callback process_pdu_header route get_pdu_header_from_packet
    get_bits_from_protocol_byte get_data_length get16 htons load16 copy_id_from_packet find_request
    new_incomming_request init_request parse_packet_server receive_directive receive_finished_ack
    get_ack_from_packet
a_packet_handled = (refl, refl)
