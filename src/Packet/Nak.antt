-- ===== src/Packet/Nak.antt =====
-- packet.c: the NAK PDU, which lists missing offsets; and how protocol_handler.c reads the list.
pub mod Segments
pub mod RoundTrip
pub mod Total
use ccsds_file_delivery_prot.Common.{
  ℕ, zero, suc, ◌+◌, ◌-◌, ◌*◌, ◌/◌, List, [], ◌∷◌, Option, none, some, head?, last?, ◌==◌,
  if◌then◌else◌, u16, u32,
}
use ccsds_file_delivery_prot.Wire.{Buffer, Endian, put, put32, put64, get32, get64}
use ccsds_file_delivery_prot.Packet.Fields.{set_packet_header}
use ccsds_file_delivery_prot.Packet.Directives.{nak_pdu, directive}
use ccsds_file_delivery_prot.File.Missing.{Offset}

-- `segments` is the place in the packet.
pub record PduNak : Type 0 where
  pub start_scope : ℕ
  pub end_scope : ℕ
  pub segment_requests : ℕ
  pub segments : ℕ

-- The callback's state; `position` is where `holder->packet` points.
pub record PacketNakHelper : Type 0 where
  pub packet : Buffer
  pub position : ℕ
  pub max_number_of_nak_segments : ℕ
  pub current_number_of_segments : ℕ

module _ (host : Endian) where
  unfoldable pub get_nak_packet : Buffer → ℕ → ℕ × PduNak
  get_nak_packet m i = (
    16,
    record {
      start_scope = get32 host m i;
      end_scope = get32 host m (i + 4);
      segment_requests = get64 host m (i + 8);
      segments = i + 16;
    },
  )

  unfoldable pub fill_nak_array_callback : Offset → PacketNakHelper → PacketNakHelper
  fill_nak_array_callback offset holder =
      if holder.current_number_of_segments == holder.max_number_of_nak_segments
      then holder
      else record holder {
        packet =
            put32 host (put32 host holder.packet holder.position offset.start) (holder.position + 4)
              offset.end;
        position = holder.position + 8;
        current_number_of_segments = holder.current_number_of_segments + 1;
      }

  -- `missing_offsets->iterate`.
  unfoldable pub fill_nak_array : List Offset → PacketNakHelper → PacketNakHelper
  fill_nak_array [] holder = holder
  fill_nak_array (o ∷ os) holder = fill_nak_array os (fill_nak_array_callback o holder)

  -- `none` is the fault of an empty list, which has no first and no last offset.
  unfoldable pub build_nak_packet : Buffer → ℕ → ℕ → List Offset → Option (ℕ × Buffer)
  build_nak_packet m start packet_len missing_offsets =
      let m = put m start nak_pdu in
      let packet_index = u32 (u32 (start + 1) + 16) in
      let holder : PacketNakHelper = record {
        packet = m;
        position = packet_index;
        max_number_of_nak_segments = u32 (packet_len + 0x1_0000_0000 - packet_index) / 8;
        current_number_of_segments = 0;
      } in
      let holder = fill_nak_array missing_offsets holder in
      elim (head? missing_offsets) [
        | none ↦ none
        | some first ↦ elim (last? missing_offsets) [
          | none ↦ none
          | some last ↦
              let packet_index = u32 (start + 1) in
              let m = put32 host holder.packet packet_index first.start in
              let packet_index = u32 (packet_index + 4) in
              let m = put32 host m packet_index last.end in
              let packet_index = u32 (packet_index + 4) in
              let m = put64 host m packet_index holder.current_number_of_segments in
              let packet_index = u32 (packet_index + 8) in
              let packet_index = u32 (packet_index + 8 * holder.current_number_of_segments) in
              let data_len = u16 (u32 (packet_index + 0x1_0000_0000 - start)) in
              some (data_len, set_packet_header host m data_len directive)
        ]
      ]

  -- protocol_handler.c, `process_nak_pdu`: the offsets that the loop over `segment_requests` reads.
  unfoldable pub read_segments : ℕ → Buffer → ℕ → List Offset
  read_segments zero m packet_index = []
  read_segments (suc n) m packet_index =
      let offset : Offset = record {
        start = get32 host m packet_index;
        end = get32 host m (packet_index + 4);
      } in
      offset ∷ read_segments n m (packet_index + 8)
