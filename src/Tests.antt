-- ===== src/Tests.antt =====
-- The theorems on the PDUs and on a file, each used on an example.
mod Lists
mod Arrivals
mod Bursts
mod Clocks
mod Transfers
mod Servers
mod Sessions
mod Saves
use Prim.Native.Nat.{min}
use ccsds_file_delivery_prot.Common.{
  ℕ, ◌+◌, ◌*◌, ◌/◌, ◌%◌, ◌≡◌, refl, arith, inr, ◌⊎◌, ◌↔◌, true, false, not, ◌&&◌, List, [], ◌∷◌,
  none, some, take, u32, Returns, ltb, if◌then◌else◌, ◌-◌, ◌%◌, ◌||◌, ◌++◌,
}
use ccsds_file_delivery_prot.Sending.{build_data_packet}
use ccsds_file_delivery_prot.Sending.Segment.{Reads, build_data_packet-IsSegment}
use ccsds_file_delivery_prot.Mib.{RemoteEntity, get_header_from_mib}
use ccsds_file_delivery_prot.Mib.Limits.{build-get_header_from_mib}
use ccsds_file_delivery_prot.Packet.Ids.{copy_id_lv_to_packet, copy_id_lv_from_packet}
use ccsds_file_delivery_prot.Packet.Ids.RoundTrip.{id_length}
use ccsds_file_delivery_prot.Packet.Ids.LengthValue.{copy_id_lv-round_trip}
use ccsds_file_delivery_prot.Reception.{
  Disk, Port, Arrival, Reception, get_data_offset_from_packet, receive_packets, process_data_packet,
  write_offset, add_check_sum,
}
use ccsds_file_delivery_prot.Reception.Segment.{Writes, Delivered, IsSegment}
use ccsds_file_delivery_prot.Reception.Delivery.{receive_packets-Delivered, delivered_file}
use ccsds_file_delivery_prot.Wire.{
  at, put, memset, get32, load32, htonl, memcpy, Buffer, little, big,
}
use ccsds_file_delivery_prot.File.Missing.{find_node, find_nak, receive_at, Offset, receive_offset}
use ccsds_file_delivery_prot.File.Missing.Ranges.{missing, Rising}
use ccsds_file_delivery_prot.File.Missing.Receive.{has_memory, Takes, Refuses, receive_offset_cases}
use ccsds_file_delivery_prot.File.Missing.Transfer.{
  receive_all, accepted, whole_file, receive_all-missing, receive_all_complete,
}
use ccsds_file_delivery_prot.File.Checksum.{calc_check_sum, words_loop, fill_last_chunk}
use ccsds_file_delivery_prot.File.Checksum.Spec.{modular_sum, slice}
use ccsds_file_delivery_prot.File.Checksum.Total.{
  covered_length, calc_check_sum-modular_sum, calc_check_sum_short,
}
use ccsds_file_delivery_prot.Packet.Fields.{get_data_length}
use ccsds_file_delivery_prot.Packet.Header.{PduHeader, build_pdu_header, get_pdu_header_from_packet}
use ccsds_file_delivery_prot.Packet.Header.Build.{header_length}
use ccsds_file_delivery_prot.Packet.Header.RoundTrip.{sent_header, get-build_pdu_header}
use ccsds_file_delivery_prot.Packet.Directives.{
  build_eof_packet, get_eof_from_packet, build_ack, get_ack_from_packet, build_finished_pdu,
  get_finished_pdu, finished_pdu,
}
use ccsds_file_delivery_prot.Packet.Directives.Eof.{get-build_eof_packet}
use ccsds_file_delivery_prot.Packet.Directives.Ack.{get-build_ack}
use ccsds_file_delivery_prot.Packet.Directives.Stale.{get-build_finished_pdu}
use ccsds_file_delivery_prot.Request.{File, LocalEntity, Turn, no_procedure, clean_up}
use ccsds_file_delivery_prot.Server.{on_server_time_out}
use ccsds_file_delivery_prot.Server.Timeout.{
  Follows, is_finished, is_received, on_server_time_out-Follows,
}
use ccsds_file_delivery_prot.Server.Completion.{complete_transaction}
use ccsds_file_delivery_prot.Client.{receive_ack}
use ccsds_file_delivery_prot.Client.Acks.{receive-build_ack}
use ccsds_file_delivery_prot.Packet.Nak.{build_nak_packet, get_nak_packet, read_segments}
use ccsds_file_delivery_prot.Packet.Nak.RoundTrip.{get-build_nak_packet, nak_count}

abbrev a_local : LocalEntity
a_local = record {
  eof_sent_indication = false;
  metadata_sent_indication = false;
  eof_recv_indication = true;
  transaction_finished_indication = false;
  metadata_recv_indication = true;
}

-- Memory that holds one byte everywhere.
abbrev filled_with : ℕ → Buffer
filled_with x = record { byte = λ _. x }

abbrev two_gaps : List Offset
two_gaps = record { start = 0; end = 4 } ∷ record { start = 8; end = 12 } ∷ []

abbrev three_segments : List Offset
three_segments =
    record { start = 4; end = 8 }
    ∷ record { start = 0; end = 4 }
    ∷ record { start = 8; end = 10 }
    ∷ []

abbrev a_header : PduHeader
a_header = record {
  version = 1;
  pdu_type = 1;
  direction = 0;
  transmission_mode = 0;
  crc_flag = 1;
  reserved_bit_0 = 0;
  pdu_data_field_len = 0;
  reserved_bit_1 = 0;
  length_of_entity_ids = 2;
  reserved_bit_2 = 0;
  transaction_seq_num_len = 1;
  source_id = 300;
  transaction_sequence_number = 0;
  destination_id = 1_000;
  reserved_space_for_header = 0;
}

abbrev a_turn : Turn
a_turn = record {
  request = record {
    procedure = no_procedure;
    transaction_sequence_number = 7;
    dest_cfdp_id = 300;
    my_cfdp_id = 1_000;
    source_file_name = filled_with 0;
    destination_file_name = filled_with 0;
    timeout_before_cancel = 0;
    timeout_before_journal = 0;
    segmentation_control = 0;
    messages_to_user = [];
    file = some (record {
      is_temp = false;
      next_offset_to_send = 0;
      total_size = 10;
      partial_checksum = 99;
      eof_checksum = 99;
      missing_offsets = [];
    });
    file_size = 10;
    transmission_mode = 0;
    paused = false;
    resent_eof = 0;
    resent_finished = 0;
    local_entity = a_local;
    buff_len = 1_024;
    buff = filled_with 0;
    pdu_header = a_header;
    packet_len = 1_024;
  };
  sent = [];
}

on_server_time_out-Follows_example :
    Returns
      (Follows a_turn (is_finished a_turn || is_received a_turn.request) 2)
      (on_server_time_out little a_turn)
on_server_time_out-Follows_example = on_server_time_out-Follows little a_turn

complete_transaction_example :
    Returns
      (λ t1.
        (is_finished t1 ≡ true)
        × ((before : List Buffer) × (t1.sent ≡ before ++ (t1.request.buff ∷ [])))
        × (t1.request.buff.byte (header_length a_header) ≡ finished_pdu)
        × Returns
            (λ t2. (t2.request.procedure ≡ clean_up) × (t2.sent ≡ t1.sent))
            (on_server_time_out little t1))
      (on_server_time_out little a_turn)
complete_transaction_example = complete_transaction little a_turn refl refl refl (record {
  source_fits = omega arith;
  seq_fits = omega arith;
  destination_fits = omega arith;
  source_length = refl;
  seq_length = refl;
  destination_length = refl;
})

get-build_pdu_header_example :
    ((build_pdu_header little (filled_with 9) 7 1 100 a_header).0 ≡ some (header_length a_header))
    × (get_pdu_header_from_packet little
          (build_pdu_header little (filled_with 9) 7 1 100 a_header).1
          a_header
        ≡ (some (header_length a_header), sent_header a_header 7 1 100))
get-build_pdu_header_example =
    get-build_pdu_header little (filled_with 9) a_header a_header 7 1 100
      (record {
        version = omega arith;
        pdu_type = omega arith;
        direction = omega arith;
        transmission_mode = omega arith;
        crc_flag = omega arith;
        reserved_bit_0 = omega arith;
        reserved_bit_1 = omega arith;
        length_of_entity_ids = omega arith;
        reserved_bit_2 = omega arith;
        transaction_seq_num_len = omega arith;
      })
      (record {
        source_fits = omega arith;
        seq_fits = omega arith;
        destination_fits = omega arith;
        source_length = refl;
        seq_length = refl;
        destination_length = refl;
      })
      (omega arith)

receive_offset_cases_example :
    Rising 0 (receive_offset has_memory two_gaps 9 10).1
    × (Takes two_gaps 9 10 (receive_offset has_memory two_gaps 9 10)
        ⊎ Refuses two_gaps 9 10 (receive_offset has_memory two_gaps 9 10))
receive_offset_cases_example =
    receive_offset_cases 0 9 10 two_gaps (omega arith)
      (omega arith, omega arith, (omega arith, omega arith, tt))

receive_all-missing_example :
    Rising 0 (receive_all two_gaps three_segments)
    × ((b : ℕ)
        → missing (receive_all two_gaps three_segments) b
          ≡ missing two_gaps b && not (missing (accepted two_gaps three_segments) b))
receive_all-missing_example =
    receive_all-missing 0 two_gaps three_segments
      (omega arith, omega arith, (omega arith, omega arith, tt))
      (omega arith, (omega arith, (omega arith, tt)))

receive_all_complete_example : (receive_all (whole_file 10) three_segments ≡ []) ↔ (
    (b : ℕ)
    → missing (whole_file 10) b && not (missing (accepted (whole_file 10) three_segments) b)
      ≡ false)
receive_all_complete_example =
    receive_all_complete 10 three_segments (omega arith)
      (omega arith, (omega arith, (omega arith, tt)))

calc_check_sum-modular_sum_example :
    calc_check_sum little 3 (filled_with 7) 0 10
    ≡ some (u32 (modular_sum (slice (filled_with 7) 0 (covered_length 10))))
calc_check_sum-modular_sum_example =
    calc_check_sum-modular_sum little (filled_with 7) 3 0 10 (λ i. omega arith) (omega arith)
      (omega arith) (omega arith)

calc_check_sum_short_example : calc_check_sum big 1_000_000 (filled_with 7) 0 3 ≡ none
calc_check_sum_short_example =
    calc_check_sum_short big (filled_with 7) 1_000_000 0 3 (omega arith) (omega arith)

get-build_eof_packet_example :
    (let m' = build_eof_packet little (filled_with 0x6a) 12 70_000 0xdead_beef in
      (get_eof_from_packet little m' 13 ≡ record {
        condition_code = 0x6a / 16;
        spare = 0x6a % 16;
        checksum = 0xdead_beef;
        file_size = 70_000;
      })
      × (get_data_length little m' ≡ 10))
get-build_eof_packet_example =
    get-build_eof_packet little (filled_with 0x6a) 12 70_000 0xdead_beef (omega arith) (omega arith)
      (omega arith) (omega arith) (omega arith)

get-build_ack_example :
    (let (len, m') = build_ack big (filled_with 0) 12 4 in
      (get_ack_from_packet m' 13 ≡ record {
        directive_code = 4;
        directive_subtype_code = 1;
        condition_code = 0;
        spare = 0;
        transaction_status = 0;
      })
      × (len ≡ 3)
      × (get_data_length big m' ≡ 3))
get-build_ack_example =
    get-build_ack big (filled_with 0) 12 4 (omega arith) (omega arith) refl refl (omega arith)

receive-build_ack_example : receive_ack (build_ack big (filled_with 0) 12 7).1 13 a_local ≡ a_local
receive-build_ack_example =
    receive-build_ack big (filled_with 0) 12 7 a_local (omega arith) (omega arith) (omega arith)
      (inr refl)

get-build_finished_pdu_example :
    (let (len, m') = build_finished_pdu little (filled_with 0x41) 12 in
      (get_finished_pdu m' 13 ≡ record {
        condition_code = 0x41 / 16;
        end_system_status = 0x41 / 8 % 2;
        delivery_code = 0x41 / 4 % 2;
        file_status = 3;
      })
      × (len ≡ 2)
      × (get_data_length little m' ≡ 2))
get-build_finished_pdu_example =
    get-build_finished_pdu little (filled_with 0x41) 12 (omega arith) (omega arith) (omega arith)

get-build_nak_packet_example :
    (let count = nak_count two_gaps 12 40 in
      (m' : Buffer) × (build_nak_packet little (filled_with 0) 12 40 two_gaps
        ≡ some (17 + 8 * count, m'))
      × ((get_nak_packet little m' 13).1
          ≡ record { start_scope = 0; end_scope = 12; segment_requests = count; segments = 29 })
      × (read_segments little count m' 29 ≡ take count two_gaps))
get-build_nak_packet_example =
    get-build_nak_packet little (filled_with 0) 12 40 two_gaps (record { start = 0; end = 4 })
      (record { start = 8; end = 12 }) (omega arith) (omega arith) (omega arith)
      ((omega arith, omega arith), ((omega arith, omega arith), tt)) (omega arith, omega arith)
      (omega arith, omega arith) refl refl

-- A disk that works, as `lseek` and `write` describe it.
abbrev working_port : Port
working_port = record {
  ssp_lseek = λ d o. record d { position = o };
  ssp_write = λ d bytes n. (
    some n,
    record { contents = memcpy d.contents d.position bytes n; position = d.position + n },
  );
  ssp_read = λ d m i n.
      let count = min n (10 - d.position) in
      (
        some count,
        memcpy m i (at d.contents d.position) count,
        record d { position = d.position + count },
      );
}

working_port-Writes : Writes working_port
working_port-Writes = record { seeks = λ d o h. refl; writes = λ d bytes n. refl }

abbrev a_source : Buffer
a_source = record { byte = λ i. i % 256 }

-- The first ten bytes of the source, behind the offset 0 at place 12.
abbrev an_arrival : Arrival
an_arrival = record {
  packet = record { byte = λ j. if ltb j 16 then 0 else (j - 16) % 256 };
  place = 12;
  data_len = 14;
}

an_arrival_offset : get_data_offset_from_packet little an_arrival.packet an_arrival.place ≡ 0
unfolding get_data_offset_from_packet get32 load32 htonl
an_arrival_offset = refl

an_arrival-IsSegment : IsSegment little a_source an_arrival
an_arrival-IsSegment = record {
  bytes = λ i. ground arith;
  long = omega arith;
  short = omega arith;
  low = omega (arith, an_arrival_offset);
  same = λ k h. rw an_arrival_offset (ground arith);
}

abbrev an_empty_file : Reception
an_empty_file = record {
  file = record {
    is_temp = false;
    next_offset_to_send = 0;
    total_size = 10;
    partial_checksum = 0;
    eof_checksum = 0;
    missing_offsets = whole_file 10;
  };
  disk = record { contents = filled_with 0; position = 0 };
}

receive_packets-Delivered_example :
    Returns
      (λ r'. Rising 0 r'.file.missing_offsets × Delivered a_source 10 r')
      (receive_packets little working_port 20_000 has_memory
        (an_arrival ∷ an_arrival ∷ [])
        an_empty_file)
receive_packets-Delivered_example =
    receive_packets-Delivered little working_port working_port-Writes 20_000 (omega arith) a_source
      10 (an_arrival ∷ an_arrival ∷ []) an_empty_file
      (an_arrival-IsSegment, (an_arrival-IsSegment, tt)) (omega arith, omega arith, tt)
      (λ b small gone. absurd (unfold missing in ground arith))

-- What it leaves.
abbrev received : Reception
received = record {
  file = record {
    is_temp = false;
    next_offset_to_send = 0;
    total_size = 10;
    partial_checksum = 202_311_690;
    eof_checksum = 0;
    missing_offsets = [];
  };
  disk = record { contents = memcpy (filled_with 0) 0 (at an_arrival.packet 16) 10; position = 10 };
}

received_all :
    receive_packets little working_port 20_000 has_memory (an_arrival ∷ []) an_empty_file
    ≡ some received
unfolding receive_packets process_data_packet get_data_offset_from_packet get32 load32 htonl
    receive_offset find_node find_nak receive_at write_offset add_check_sum calc_check_sum
    words_loop fill_last_chunk put memset
received_all = refl

delivered_file_example : received.disk.contents.byte 7 ≡ a_source.byte 7
delivered_file_example =
    delivered_file little working_port working_port-Writes 20_000 (omega arith) a_source 10
      (an_arrival ∷ []) an_empty_file received (omega arith) (an_arrival-IsSegment, tt) refl
      received_all refl 7 (omega arith)

abbrev a_file : File
a_file = record {
  is_temp = false;
  next_offset_to_send = 0;
  total_size = 10;
  partial_checksum = 0;
  eof_checksum = 0;
  missing_offsets = [];
}

abbrev a_disk : Disk
a_disk = record { contents = a_source; position = 0 }

working_port-Reads : Reads working_port 10
working_port-Reads = record { seeks = λ d o h. refl; reads = λ d m i n. refl }

build_data_packet-IsSegment_example :
    (let (len, m', disk') =
        build_data_packet big working_port a_file a_disk (filled_with 5) 12 100 2 in
      (len ≡ some (min (100 - 12 - 4) (10 - 2) + 4))
      × (get_data_offset_from_packet big m' 12 ≡ 2)
      × (get_data_length big m' ≡ min (100 - 12 - 4) (10 - 2) + 4)
      × IsSegment big a_source
          (record { packet = m'; place = 12; data_len = get_data_length big m' }))
build_data_packet-IsSegment_example =
    build_data_packet-IsSegment big working_port a_file a_disk (filled_with 5) 12 100 2
      working_port-Reads (omega arith) (omega arith) (omega arith) (omega arith) (omega arith)
      (λ i. omega arith) (λ i. omega arith)

copy_id_lv-round_trip_example :
    (let (written, m') = copy_id_lv_to_packet little (filled_with 5) 20 70_000 in
      (written ≡ some (id_length 70_000 + 1))
      × (copy_id_lv_from_packet little m' 20 ≡ some (id_length 70_000, 70_000)))
copy_id_lv-round_trip_example = copy_id_lv-round_trip little (filled_with 5) 20 70_000 (omega arith)

abbrev a_remote : RemoteEntity
a_remote = record {
  cfdp_id = 3;
  default_transmission_mode = 1;
  crc_required = 0;
  mtu = 100;
  transaction_inactivity_limit = 60;
}

build-get_header_from_mib_example :
    (build_pdu_header big (filled_with 0) 300 0 5 (get_header_from_mib a_header a_remote 1)).0
    ≡ (if ltb 1 0xff && ltb 300 0xff && ltb 3 0xff then some 7 else none)
build-get_header_from_mib_example =
    build-get_header_from_mib big (filled_with 0) a_header a_remote 1 300 0 5
