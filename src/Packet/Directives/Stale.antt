-- ===== src/Packet/Directives/Stale.antt =====
-- The Finished PDU, built over a byte that the buffer still holds from an earlier packet.
use ccsds_file_delivery_prot.Common.{
  ℕ, ◌+◌, ◌-◌, ◌*◌, ◌/◌, ◌%◌, ◌^◌, ◌≤◌, ◌<◌, ◌≡◌, refl, ◌∙◌, arith, u16, u32, inr, inl,
  bit_or_three,
}
use ccsds_file_delivery_prot.Wire.{Buffer, Endian, put}
use ccsds_file_delivery_prot.Wire.Access.{put-Outside, put_here}
use ccsds_file_delivery_prot.Packet.Fields.{
  set_bits_to_protocol_byte, get_bits_from_protocol_byte, set_packet_header, get_data_length,
}
use ccsds_file_delivery_prot.Packet.Fields.Laws.{
  set_bits_here, set_bits-Outside, set_bits_zero, set_packet_header_outside,
  get_data_length-set_packet_header,
}
use ccsds_file_delivery_prot.Packet.Directives.{finished_pdu, build_finished_pdu, get_finished_pdu}

module _ (host : Endian) (m : Buffer) (start : ℕ) (low : 3 ≤ start)
    (high : start + 2 < 2 ^ 32) where
  abbrev coded : Buffer
  coded = put m start finished_pdu

  -- The three fields of zero bits, then the file status.
  abbrev zeros : Buffer
  zeros =
      set_bits_to_protocol_byte
        (set_bits_to_protocol_byte (set_bits_to_protocol_byte coded (start + 1) 0 3 0) (start + 1) 4
          4 0)
        (start + 1) 5 5 0

  abbrev pub finished : Buffer
  finished = set_packet_header host (set_bits_to_protocol_byte zeros (start + 1) 6 7 3) 2 0

  build_finished_pdu_steps : build_finished_pdu host m start ≡ (2, finished)
  unfolding build_finished_pdu
  build_finished_pdu_steps =
      let i1 : u32 (start + 1) ≡ start + 1 = omega arith in
      let i2 : u32 (start + 1 + 1) ≡ start + 2 = omega arith in
      let i5 : u16 (u32 (start + 2 + 0x1_0000_0000 - start)) ≡ 2 = omega arith in rw (i1, i2, i5)

  zeros_byte : m.byte (start + 1) < 256 → zeros.byte (start + 1) ≡ m.byte (start + 1)
  zeros_byte small =
      let a = put-Outside m start finished_pdu (start + 1) (inr (omega arith)) in
      let b = set_bits_zero coded (start + 1) 0 3 (omega (arith, a)) ∙ a in
      let c =
        set_bits_zero (set_bits_to_protocol_byte coded (start + 1) 0 3 0) (start + 1) 4 4
          (omega (arith, b))
        ∙ b in
      set_bits_zero
        (set_bits_to_protocol_byte (set_bits_to_protocol_byte coded (start + 1) 0 3 0) (start + 1) 4
          4 0)
        (start + 1) 5 5 (omega (arith, c))
      ∙ c

  finished_byte :
      m.byte (start + 1) < 256 → finished.byte (start + 1) ≡ m.byte (start + 1) / 4 * 4 + 3
  finished_byte small = ground (
    arith,
    set_packet_header_outside host (set_bits_to_protocol_byte zeros (start + 1) 6 7 3) 2 0
        (start + 1) (omega arith),
    set_bits_here zeros (start + 1) 6 7 3,
    zeros_byte small,
    bit_or_three (m.byte (start + 1)) small,
  )

  -- The directive code stands where the data begin.
  pub build_finished_pdu_code : (build_finished_pdu host m start).1.byte start ≡ finished_pdu
  build_finished_pdu_code =
      let last = set_bits_to_protocol_byte zeros (start + 1) 6 7 3 in
      rw build_finished_pdu_steps (
        set_packet_header_outside host last 2 0 start (omega arith)
        ∙ set_bits-Outside zeros (start + 1) 6 7 3 start (inl (omega arith))
        ∙ set_bits-Outside _ (start + 1) 5 5 0 start (inl (omega arith))
        ∙ set_bits-Outside _ (start + 1) 4 4 0 start (inl (omega arith))
        ∙ set_bits-Outside coded (start + 1) 0 3 0 start (inl (omega arith))
        ∙ put_here m start finished_pdu)

-- A Finished PDU that is built at an offset from 3 to 2 ^ 32 - 3 reports a retained file, but
-- takes its other fields from the byte that the buffer held there before: the condition code is
-- the upper half of that byte, and so no error only over a byte below 16. The header then states
-- two bytes of data, which `build_finished_pdu` returns.
pub get-build_finished_pdu :
    (host : Endian) (m : Buffer) (start : ℕ)
    → 3 ≤ start
    → start + 2 < 2 ^ 32
    → m.byte (start + 1) < 256
    → (let (len, m') = build_finished_pdu host m start in
        (get_finished_pdu m' (start + 1) ≡ record {
          condition_code = m.byte (start + 1) / 16;
          end_system_status = m.byte (start + 1) / 8 % 2;
          delivery_code = m.byte (start + 1) / 4 % 2;
          file_status = 3;
        })
        × (len ≡ 2)
        × (get_data_length host m' ≡ 2))
unfolding get_finished_pdu get_bits_from_protocol_byte
get-build_finished_pdu host m start low high small =
    rw (build_finished_pdu_steps host m start low high) (
      ground (arith, finished_byte host m start low high small),
      refl,
      get_data_length-set_packet_header host _ 2 0 (finished host m start low high) (omega arith)
          (λ k lt. refl),
    )
