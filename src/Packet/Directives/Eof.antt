-- ===== src/Packet/Directives/Eof.antt =====
-- `build_eof_packet` and `get_eof_from_packet` (packet.c).
use ccsds_file_delivery_prot.Common.{
  ℕ, ◌+◌, ◌-◌, ◌/◌, ◌%◌, ◌^◌, ◌≤◌, ◌<◌, ◌≡◌, refl, ap, ◌∙◌, arith, u8, u16, u32, inr, inl,
}
use ccsds_file_delivery_prot.Wire.{Buffer, Endian, bytes32, get32, put32}
use ccsds_file_delivery_prot.Wire.Access.{
  put_here, put-Outside, put32_inside, put32-Outside, get32_of,
}
use ccsds_file_delivery_prot.Packet.Fields.{
  set_packet_directive, set_bits_to_protocol_byte, get_bits_from_protocol_byte, set_packet_header,
  get_data_length,
}
use ccsds_file_delivery_prot.Packet.Fields.Laws.{
  set_bits_zero, set_bits-Outside, set_packet_header_outside, get_data_length-set_packet_header,
}
use ccsds_file_delivery_prot.Packet.Directives.{eof_pdu, build_eof_packet, get_eof_from_packet}

module _ (host : Endian) (m : Buffer) (start file_size checksum : ℕ) (low : 3 ≤ start)
    (high : start + 10 < 256) where
  -- The buffer after each step of `build_eof_packet`.
  abbrev coded : Buffer
  coded = set_packet_directive m start eof_pdu

  abbrev conditioned : Buffer
  conditioned =
      set_bits_to_protocol_byte (set_bits_to_protocol_byte coded (start + 1) 0 3 0) (start + 1) 4 7
        0

  abbrev with_size : Buffer
  with_size = put32 host conditioned (start + 2) file_size

  abbrev with_checksum : Buffer
  with_checksum = put32 host with_size (start + 6) checksum

  abbrev finished : Buffer
  finished = set_packet_header host with_checksum 10 0

  build_eof_packet_steps : build_eof_packet host m start file_size checksum ≡ finished
  unfolding build_eof_packet
  build_eof_packet_steps =
      let i0 : u8 start ≡ start = omega arith in
      let i1 : u8 (start + 1) ≡ start + 1 = omega arith in
      let i2 : u8 (start + 1 + 1) ≡ start + 2 = omega arith in
      let i3 : u8 (start + 2 + 4) ≡ start + 6 = omega arith in
      let i4 : u8 (start + 6 + 4) ≡ start + 10 = omega arith in
      let i5 : u16 (u32 (start + 10 + 0x1_0000_0000 - start)) ≡ 10 = omega arith in
      rw (i0, i1, i2, i3, i4, i5)

  condition_byte : m.byte (start + 1) < 256 → finished.byte (start + 1) ≡ m.byte (start + 1)
  condition_byte small =
      let same : coded.byte (start + 1) ≡ m.byte (start + 1) =
        unfold set_packet_directive in
        put-Outside m start eof_pdu (start + 1) (inr (omega arith)) in
      let first = set_bits_zero coded (start + 1) 0 3 (omega arith) ∙ same in
      set_packet_header_outside host with_checksum 10 0 (start + 1) (omega arith)
      ∙ put32-Outside host with_size (start + 6) checksum (start + 1) (inl (omega arith))
      ∙ put32-Outside host conditioned (start + 2) file_size (start + 1) (inl (omega arith))
      ∙ set_bits_zero (set_bits_to_protocol_byte coded (start + 1) 0 3 0) (start + 1) 4 7
          (omega (arith, first))
      ∙ first

  eof_size : file_size < 2 ^ 32 → get32 host finished (start + 2) ≡ file_size
  eof_size fits = get32_of host finished (start + 2) file_size fits λ k lt.
      set_packet_header_outside host with_checksum 10 0 (start + 2 + k) (omega arith)
      ∙ put32-Outside host with_size (start + 6) checksum (start + 2 + k) (inl (omega arith))
      ∙ put32_inside host conditioned (start + 2) file_size k lt
      ∙ ap (λ (x : ℕ). bytes32 x k) (omega arith)

  eof_checksum : checksum < 2 ^ 32 → get32 host finished (start + 6) ≡ checksum
  eof_checksum fits = get32_of host finished (start + 6) checksum fits λ k lt.
      set_packet_header_outside host with_checksum 10 0 (start + 6 + k) (omega arith)
      ∙ put32_inside host with_size (start + 6) checksum k lt
      ∙ ap (λ (x : ℕ). bytes32 x k) (omega arith)

pub eof_code :
    (host : Endian) (m : Buffer) (start file_size checksum : ℕ)
    → 3 ≤ start
    → start + 10 < 256
    → (build_eof_packet host m start file_size checksum).byte start ≡ eof_pdu
unfolding set_packet_directive
eof_code host m start file_size checksum low high =
    let sized = with_size host m start file_size checksum low high in
    let begun = coded host m start file_size checksum low high in
    rw (build_eof_packet_steps host m start file_size checksum low high) (
      set_packet_header_outside host (with_checksum host m start file_size checksum low high) 10 0
        start low
      ∙ put32-Outside host sized (start + 6) checksum start (inl (omega arith))
      ∙ put32-Outside host (conditioned host m start file_size checksum low high) (start + 2)
          file_size start (inl (omega arith))
      ∙ set_bits-Outside (set_bits_to_protocol_byte begun (start + 1) 0 3 0) (start + 1) 4 7 0 start
          (inl (omega arith))
      ∙ set_bits-Outside begun (start + 1) 0 3 0 start (inl (omega arith))
      ∙ put_here m start eof_pdu)

-- An EOF PDU with a size and a checksum of 32 bits that is built at an offset from 3 to 245 is
-- read back: the size, the checksum, and as condition and spare bits the two halves of whatever
-- byte the buffer held there before. The header then states ten bytes of data.
pub get-build_eof_packet :
    (host : Endian) (m : Buffer) (start file_size checksum : ℕ)
    → 3 ≤ start
    → start + 10 < 256
    → m.byte (start + 1) < 256
    → file_size < 2 ^ 32
    → checksum < 2 ^ 32
    → (let m' = build_eof_packet host m start file_size checksum in
        (get_eof_from_packet host m' (start + 1) ≡ record {
          condition_code = m.byte (start + 1) / 16;
          spare = m.byte (start + 1) % 16;
          checksum = checksum;
          file_size = file_size;
        })
        × (get_data_length host m' ≡ 10))
unfolding get_eof_from_packet get_bits_from_protocol_byte
get-build_eof_packet host m start file_size checksum low high small hs hc =
    rw (build_eof_packet_steps host m start file_size checksum low high) (
      ground (
        arith,
        condition_byte host m start file_size checksum low high small,
        eof_size host m start file_size checksum low high hs,
        eof_checksum host m start file_size checksum low high hc,
        ap (get32 host (finished host m start file_size checksum low high)) size_at,
        ap (get32 host (finished host m start file_size checksum low high)) checksum_at,
      ),
      get_data_length-set_packet_header host _ 10 0
          (finished host m start file_size checksum low high) (omega arith) (λ k lt. refl),
    )
  where
    size_at : start + 1 + 1 ≡ start + 2
    size_at = omega arith

    checksum_at : start + 1 + 5 ≡ start + 6
    checksum_at = omega arith
