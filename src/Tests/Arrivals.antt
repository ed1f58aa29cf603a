-- ===== src/Tests/Arrivals.antt =====
-- The theorems on metadata, messages and the receiver's packet handler, each used on an example.
use ccsds_file_delivery_prot.Common.{
  Returns, if◌then◌else◌, ℕ, ◌+◌, ◌≡◌, refl, arith, ◌==◌, ◌||◌, true, false, none, some, List, [],
  ◌∷◌, length, u32, if◌then◌else◌,
}
use ccsds_file_delivery_prot.Wire.{Buffer, little, big, get16, htons, load16}
use ccsds_file_delivery_prot.Packet.Fields.{get_data_length}
use ccsds_file_delivery_prot.Packet.Header.{PduHeader}
use ccsds_file_delivery_prot.Packet.Directives.{build_eof_packet}
use ccsds_file_delivery_prot.Message.{
  Message, put_proxy, cont_part, text, max_path, add_messages_to_packet, get_messages_from_packet,
}
use ccsds_file_delivery_prot.Message.RoundTrip.{wires, get-add_messages}
use ccsds_file_delivery_prot.Request.{Request}
use ccsds_file_delivery_prot.Reception.{Port}
use ccsds_file_delivery_prot.Metadata.{build_put_packet_metadata, parse_metadata_packet}
use ccsds_file_delivery_prot.Incoming.{Storage, Receiver, with_request, parse_packet_server}
use ccsds_file_delivery_prot.Metadata.RoundTrip.{
  source_of, destination_of, parse-build_put_packet_metadata,
}
use ccsds_file_delivery_prot.Incoming.Total.{IsReadable}
use ccsds_file_delivery_prot.Incoming.Handler.{Adds, is_empty_metadata, is_finished_ack}
use ccsds_file_delivery_prot.Incoming.Directive.{parse_packet_server-Adds, parse-build_eof}
use ccsds_file_delivery_prot.Tests.{a_turn, a_header, filled_with}
use ccsds_file_delivery_prot.File.Missing.Receive.{has_memory}

abbrev named : ℕ → Buffer
named c = record { byte = λ k. if k == 3 then 0 else c }

abbrev a_request : Request
a_request = record a_turn.request {
  source_file_name = named 97;
  destination_file_name = named 98;
  segmentation_control = 1;
}

parse-build_put_packet_metadata_example :
    (let m' = (build_put_packet_metadata little (filled_with 0) 12 a_request).1 in
      let (i, got) = parse_metadata_packet little m' 13 a_turn.request in
      (i ≡ 26)
      × (got.segmentation_control ≡ 1)
      × (got.file_size ≡ 10)
      × (text max_path (source_of got) ≡ 97 ∷ 97 ∷ 97 ∷ [])
      × (text max_path (destination_of got) ≡ 98 ∷ 98 ∷ 98 ∷ [])
      × (get_data_length little m' ≡ 40))
parse-build_put_packet_metadata_example =
    parse-build_put_packet_metadata little (filled_with 0) 12 a_request a_turn.request (omega arith)
      (omega arith) refl (omega arith) (omega arith) refl

abbrev two_messages : List Message
two_messages =
    put_proxy (record {
      destination_id = 300;
      source_file_name = record { length = 2; value = 97 ∷ 0 ∷ [] };
      destination_file_name = record { length = 3; value = 98 ∷ 99 ∷ 0 ∷ [] };
    })
    ∷ cont_part (record { destination_id = 1; originator_id = 70_000; transaction_id = 9 })
    ∷ []

get-add_messages_example :
    (let (m', end) = add_messages_to_packet big two_messages (filled_with 1, 30) in
      (end ≡ 30 + length (wires two_messages))
      × (get_messages_from_packet big 3 m' 30 61 [] ≡ some (end, two_messages)))
get-add_messages_example =
    get-add_messages big two_messages [] (filled_with 1) 30 61 3
      (
        (omega arith, (refl, omega arith), (refl, omega arith)),
        ((omega arith, omega arith, omega arith), tt),
      )
      (omega arith) (omega arith) (omega arith) (omega arith) (omega arith)

abbrev pub a_storage : Storage
a_storage = record {
  create_file = λ name. none;
  offset_memory = true;
  node_memory = true;
  temp_name = λ n. filled_with 0;
  saved = λ header req. (false, req);
}

abbrev a_port : Port
a_port = record {
  ssp_lseek = λ disk n. disk;
  ssp_write = λ disk bytes n. (some n, disk);
  ssp_read = λ disk m i n. (none, m, disk);
}

abbrev a_receiver : Receiver
a_receiver = record {
  turn = record a_turn {
    request = record a_turn.request {
      local_entity = record a_turn.request.local_entity { eof_recv_indication = false };
    };
  };
  started = [];
  disk = record { contents = filled_with 0; position = 0 };
}

abbrev a_directive : PduHeader
a_directive = record a_header { pdu_type = 0 }

parse-build_eof_example :
    parse_packet_server little a_storage a_port 9 has_memory 5
      (build_eof_packet little (filled_with 0) 12 1_000 77)
      12
      a_directive
      a_receiver
    ≡ some (
      some 22,
      with_request a_receiver (record a_receiver.turn.request {
        local_entity = record a_receiver.turn.request.local_entity { eof_recv_indication = true };
        file = some (record {
          is_temp = false;
          next_offset_to_send = 0;
          total_size = 1_000;
          partial_checksum = 99;
          eof_checksum = 77;
          missing_offsets = [];
        });
      }),
    )
parse-build_eof_example =
    parse-build_eof little a_storage a_port 9 has_memory 5 (filled_with 0) 12 1_000 77 a_directive
      a_receiver
      (record {
        is_temp = false;
        next_offset_to_send = 0;
        total_size = 10;
        partial_checksum = 99;
        eof_checksum = 99;
        missing_offsets = [];
      })
      (omega arith) (omega arith) (omega arith) (omega arith) (omega arith) refl refl refl

-- The acknowledgement of a finished PDU, at byte 12.
abbrev an_ack : Buffer
an_ack = record {
  byte = λ i. if i == 2 then 3 else if i == 12 then 6 else if i == 13 then 0x51 else 0;
}

an_ack-IsReadable : IsReadable big 9 an_ack
unfolding get_data_length get16 htons load16
an_ack-IsReadable = record {
  messages = record { first = refl; known = λ k. ground arith };
  short = omega arith;
  some_fuel = omega arith;
  enough = omega arith;
}

parse_packet_server-Adds_example :
    Returns
      (λ (result, r').
        (result ≡ some (u32 (12 + get_data_length big an_ack)))
        × Adds
            ((an_ack.byte 12 == 4)
              || is_empty_metadata big an_ack 13 (an_ack.byte 12) a_receiver.turn.request)
            (is_finished_ack an_ack 13 (an_ack.byte 12))
            (an_ack.byte 12 == 7)
            a_receiver.turn.request
            r'.turn.request)
      (parse_packet_server big a_storage a_port 9 has_memory 5 an_ack 12 a_directive a_receiver)
parse_packet_server-Adds_example =
    parse_packet_server-Adds big a_storage a_port 9 has_memory 5 an_ack 12 a_directive a_receiver
      (λ e. absurd (omega (arith, e))) refl refl an_ack-IsReadable refl refl
