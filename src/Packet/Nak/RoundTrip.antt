-- ===== src/Packet/Nak/RoundTrip.antt =====
-- `build_nak_packet` of the receiver, then `get_nak_packet` of the sender (packet.c).
use Prim.Native.Nat.{min}
use ccsds_file_delivery_prot.Common.{
  ℕ, ◌+◌, ◌-◌, ◌*◌, ◌/◌, ◌^◌, ◌≤◌, ◌<◌, ◌≡◌, ap, ◌∙◌, arith, u16, u32, inr, inl, List, length, take,
  All, some, head?, last?,
}
use ccsds_file_delivery_prot.Wire.{
  Buffer, Endian, put, put32, put64, get32, get64, bytes32, bytes64,
}
use ccsds_file_delivery_prot.Wire.Access.{
  put32_inside, put32-Outside, put64_inside, put64-Outside, get32_of, get64_of,
}
use ccsds_file_delivery_prot.File.Missing.{Offset}
use ccsds_file_delivery_prot.Packet.Fields.{set_packet_header}
use ccsds_file_delivery_prot.Packet.Fields.Laws.{set_packet_header_outside}
use ccsds_file_delivery_prot.Packet.Directives.{nak_pdu}
use ccsds_file_delivery_prot.Packet.Nak.{
  PacketNakHelper, fill_nak_array, read_segments, build_nak_packet, get_nak_packet,
}
use ccsds_file_delivery_prot.Packet.Nak.Segments.{
  IsU32Offset, fill_nak_array_count, read_segments-fill, read_segments-cong,
}

-- The offsets that fit a packet of `packet_len` bytes behind the 17 bytes before them.
abbrev pub nak_count : List Offset → ℕ → ℕ → ℕ
nak_count xs start packet_len = min (length xs) ((packet_len - (start + 17)) / 8)

module _ (host : Endian) (m : Buffer) (start packet_len : ℕ) (xs : List Offset)
    (first last : Offset) (low : 3 ≤ start) (room : start + 17 ≤ packet_len)
    (small : packet_len < 2 ^ 16) where
  abbrev holder : PacketNakHelper
  holder = record {
    packet = put m start nak_pdu;
    position = start + 17;
    max_number_of_nak_segments = (packet_len - (start + 17)) / 8;
    current_number_of_segments = 0;
  }

  abbrev count : ℕ
  count = nak_count xs start packet_len

  -- The buffer after each step.
  abbrev filled : Buffer
  filled = (fill_nak_array host xs holder).packet

  abbrev with_start : Buffer
  with_start = put32 host filled (start + 1) first.start

  abbrev with_end : Buffer
  with_end = put32 host with_start (start + 5) last.end

  abbrev with_count : Buffer
  with_count = put64 host with_end (start + 9) count

  abbrev pub built : Buffer
  built = set_packet_header host with_count (17 + 8 * count) 0

  count_lem : (fill_nak_array host xs holder).current_number_of_segments ≡ count
  count_lem = fill_nak_array_count host xs holder (omega arith) ∙ omega arith

  build_nak_packet_steps :
      head? xs ≡ some first
      → last? xs ≡ some last
      → build_nak_packet host m start packet_len xs ≡ some (17 + 8 * count, built)
  unfolding build_nak_packet
  build_nak_packet_steps hf hl =
      let i0 : u32 (u32 (start + 1) + 16) ≡ start + 17 = omega arith in
      let i1 : u32 (start + 1) ≡ start + 1 = omega arith in
      let i2 : u32 (start + 1 + 4) ≡ start + 5 = omega arith in
      let i3 : u32 (start + 5 + 4) ≡ start + 9 = omega arith in
      let i4 : u32 (start + 9 + 8) ≡ start + 17 = omega arith in
      let i5 : u32 (packet_len + 0x1_0000_0000 - (start + 17)) ≡ packet_len - (start + 17) =
        omega arith in
      let i6 : u32 (start + 17 + 8 * count) ≡ start + 17 + 8 * count = omega arith in
      let i7 : u16 (u32 (start + 17 + 8 * count + 0x1_0000_0000 - start)) ≡ 17 + 8 * count =
        omega arith in
      rw (build_nak_packet, hf, hl, i0, i1, i2, i3, i4, i5, count_lem, i6, i7)

  read_start : first.start < 2 ^ 32 → get32 host built (start + 1) ≡ first.start
  read_start fits = get32_of host built (start + 1) first.start fits λ k lt.
      set_packet_header_outside host with_count (17 + 8 * count) 0 (start + 1 + k) (omega arith)
      ∙ put64-Outside host with_end (start + 9) count (start + 1 + k) (inl (omega arith))
      ∙ put32-Outside host with_start (start + 5) last.end (start + 1 + k) (inl (omega arith))
      ∙ put32_inside host filled (start + 1) first.start k lt
      ∙ ap (λ (x : ℕ). bytes32 x k) (omega arith)

  read_end : last.end < 2 ^ 32 → get32 host built (start + 5) ≡ last.end
  read_end fits = get32_of host built (start + 5) last.end fits λ k lt.
      set_packet_header_outside host with_count (17 + 8 * count) 0 (start + 5 + k) (omega arith)
      ∙ put64-Outside host with_end (start + 9) count (start + 5 + k) (inl (omega arith))
      ∙ put32_inside host with_start (start + 5) last.end k lt
      ∙ ap (λ (x : ℕ). bytes32 x k) (omega arith)

  read_count : get64 host built (start + 9) ≡ count
  read_count = get64_of host built (start + 9) count (omega arith) λ k lt.
      set_packet_header_outside host with_count (17 + 8 * count) 0 (start + 9 + k) (omega arith)
      ∙ put64_inside host with_end (start + 9) count k lt
      ∙ ap (λ (x : ℕ). bytes64 x k) (omega arith)

  read_offsets : All IsU32Offset xs → read_segments host count built (start + 17) ≡ take count xs
  read_offsets fits =
      read_segments-cong host count built filled (start + 17) (λ j le.
        set_packet_header_outside host with_count (17 + 8 * count) 0 j (omega arith)
        ∙ put64-Outside host with_end (start + 9) count j (inr (omega arith))
        ∙ put32-Outside host with_start (start + 5) last.end j (inr (omega arith))
        ∙ put32-Outside host filled (start + 1) first.start j (inr (omega arith)))
      ∙ read_segments-fill host count xs holder (omega arith) fits

-- A NAK PDU that is built at an offset from 3 on for a list, not empty, of missing offsets of 32
-- bits, with room for its fixed part in a packet shorter than 2 ^ 16, is read back: its scope
-- runs from the start of the first offset to the end of the last one, and its segments are the
-- first offsets of the list, as many as fit the packet.
pub get-build_nak_packet :
    (host : Endian) (m : Buffer) (start packet_len : ℕ) (xs : List Offset) (first last : Offset)
    → 3 ≤ start
    → start + 17 ≤ packet_len
    → packet_len < 2 ^ 16
    → All IsU32Offset xs
    → IsU32Offset first
    → IsU32Offset last
    → head? xs ≡ some first
    → last? xs ≡ some last
    → (let count = nak_count xs start packet_len in
        (m' : Buffer) × (build_nak_packet host m start packet_len xs ≡ some (17 + 8 * count, m'))
        × ((get_nak_packet host m' (start + 1)).1 ≡ record {
          start_scope = first.start;
          end_scope = last.end;
          segment_requests = count;
          segments = start + 17;
        })
        × (read_segments host count m' (start + 17) ≡ take count xs))
unfolding get_nak_packet
get-build_nak_packet host m start packet_len xs first last low room small fits ff fl hf hl =
    let built = built host m start packet_len xs first last low room small in
    let i1 : start + 1 + 4 ≡ start + 5 = omega arith in
    let i2 : start + 1 + 8 ≡ start + 9 = omega arith in
    let i3 : start + 1 + 16 ≡ start + 17 = omega arith in
    (
      built,
      build_nak_packet_steps host m start packet_len xs first last low room small hf hl,
      rw (i1, i2, i3)
          (ground (
            arith,
            read_start host m start packet_len xs first last low room small ff.0,
            read_end host m start packet_len xs first last low room small fl.1,
            read_count host m start packet_len xs first last low room small,
          )),
      read_offsets host m start packet_len xs first last low room small fits,
    )
