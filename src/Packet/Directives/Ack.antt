-- ===== src/Packet/Directives/Ack.antt =====
-- `build_ack` and `get_ack_from_packet` (packet.c).
use ccsds_file_delivery_prot.Common.{
  ℕ, ◌+◌, ◌-◌, ◌*◌, ◌^◌, ◌≤◌, ◌<◌, ◌≡◌, refl, ap, ◌∙◌, arith, u8, u16, u32, inr, inl, ◌⊎◌,
  bit_or_one, bit_or_high, bit_or_0x70,
}
use ccsds_file_delivery_prot.Wire.{Buffer, Endian, put}
use ccsds_file_delivery_prot.Wire.Access.{put-Outside}
use ccsds_file_delivery_prot.Packet.Fields.{
  or_bits, set_bits_to_protocol_byte, get_bits_from_protocol_byte, set_packet_header,
  get_data_length,
}
use ccsds_file_delivery_prot.Packet.Fields.Laws.{
  set_bits_field, set_bits_here, set_bits-Outside, set_bits_zero, set_packet_header_outside,
  get_data_length-set_packet_header,
}
use ccsds_file_delivery_prot.Packet.Directives.{ack_pdu, build_ack, get_ack_from_packet}

module _ (host : Endian) (m : Buffer) (start type : ℕ) (low : 3 ≤ start)
    (high : start + 3 < 2 ^ 32) where
  -- The buffer after each step of `build_ack`.
  abbrev coded : Buffer
  coded = put m start ack_pdu

  abbrev with_type : Buffer
  with_type = set_bits_to_protocol_byte coded (start + 1) 0 3 type

  abbrev with_subtype : Buffer
  with_subtype = set_bits_to_protocol_byte with_type (start + 1) 4 7 1

  abbrev pub acknowledged : Buffer
  acknowledged =
      set_packet_header host (set_bits_to_protocol_byte with_subtype (start + 2) 0 3 0) 3 0

  build_ack_steps : build_ack host m start type ≡ (3, acknowledged)
  unfolding build_ack
  build_ack_steps =
      let i1 : u32 (start + 1) ≡ start + 1 = omega arith in
      let i2 : u32 (start + 1 + 1) ≡ start + 2 = omega arith in
      let i3 : u32 (start + 2 + 1) ≡ start + 3 = omega arith in
      let i5 : u16 (u32 (start + 3 + 0x1_0000_0000 - start)) ≡ 3 = omega arith in
      rw (i1, i2, i3, i5)

  -- Only two or-ed fields reach the byte behind the code.
  ack_byte : acknowledged.byte (start + 1) ≡ with_subtype.byte (start + 1)
  ack_byte =
      set_packet_header_outside host _ 3 0 (start + 1) (omega arith)
      ∙ set_bits-Outside with_subtype (start + 2) 0 3 0 (start + 1) (inl (omega arith))

  coded_byte : (k : ℕ) → 1 ≤ k → coded.byte (start + k) ≡ m.byte (start + k)
  coded_byte k pos = put-Outside m start ack_pdu (start + k) (inr (omega arith))

  ack_clear : m.byte (start + 1) ≡ 0 → type < 16 → acknowledged.byte (start + 1) ≡ type * 16 + 1
  ack_clear clear small =
      let e = coded_byte 1 (omega arith) ∙ clear in
      let e1 = set_bits_field coded (start + 1) 0 4 8 0 type 0 (type * 16) e (omega arith) in
      ack_byte
      ∙ set_bits_field with_type (start + 1) 4 0 4 type 1 (type * 16) (type * 16 + 1) e1
          (omega arith)

  ack_condition : m.byte (start + 2) < 256 → acknowledged.byte (start + 2) ≡ m.byte (start + 2)
  ack_condition small =
      let same =
        set_bits-Outside with_type (start + 1) 4 7 1 (start + 2) (inr (omega arith))
        ∙ set_bits-Outside coded (start + 1) 0 3 type (start + 2) (inr (omega arith))
        ∙ coded_byte 2 (omega arith) in
      set_packet_header_outside host _ 3 0 (start + 2) (omega arith)
      ∙ set_bits_zero with_subtype (start + 2) 0 3 (omega (arith, same))
      ∙ same

  -- Over any byte of the buffer, an EOF or a metadata ack sets a bit above the low six.
  ack_high : m.byte (start + 1) < 256 → (type ≡ 4) ⊎ (type ≡ 7) → 64 ≤ acknowledged.byte (start + 1)
  ack_high small (inl four) =
      let e =
        set_bits_here coded (start + 1) 0 3 type
        ∙ ap (λ (b : ℕ). u8 (or_bits b 3 type)) (coded_byte 1 (omega arith))
        ∙ ap (λ (t : ℕ). u8 (or_bits (m.byte (start + 1)) 3 t)) four in
      let first = bit_or_high (m.byte (start + 1)) small in
      ground (
        arith,
        e,
        first,
        ack_byte,
        set_bits_here with_type (start + 1) 4 7 1,
        bit_or_one (with_type.byte (start + 1)),
      )
  ack_high small (inr seven) =
      let e =
        set_bits_here coded (start + 1) 0 3 type
        ∙ ap (λ (b : ℕ). u8 (or_bits b 3 type)) (coded_byte 1 (omega arith))
        ∙ ap (λ (t : ℕ). u8 (or_bits (m.byte (start + 1)) 3 t)) seven in
      let first = bit_or_0x70 (m.byte (start + 1)) small in
      ground (
        arith,
        e,
        first,
        ack_byte,
        set_bits_here with_type (start + 1) 4 7 1,
        bit_or_one (with_type.byte (start + 1)),
      )

-- An ACK PDU of a directive code below 16 that is built over clear bytes, at an offset from 3 to
-- 2 ^ 32 - 4, is read back: the code of the acknowledged directive, the subtype 1, no error; the
-- header then states three bytes of data, which `build_ack` returns.
pub get-build_ack :
    (host : Endian) (m : Buffer) (start type : ℕ)
    → 3 ≤ start
    → start + 3 < 2 ^ 32
    → m.byte (start + 1) ≡ 0
    → m.byte (start + 2) ≡ 0
    → type < 16
    → (let (len, m') = build_ack host m start type in
        (get_ack_from_packet m' (start + 1) ≡ record {
          directive_code = type;
          directive_subtype_code = 1;
          condition_code = 0;
          spare = 0;
          transaction_status = 0;
        })
        × (len ≡ 3)
        × (get_data_length host m' ≡ 3))
unfolding get_ack_from_packet get_bits_from_protocol_byte
get-build_ack host m start type low high c1 c2 small =
    rw (build_ack_steps host m start type low high) (
      ground (
        arith,
        ack_clear host m start type low high c1 small,
        ack_condition host m start type low high (omega arith),
        ap (acknowledged host m start type low high).byte next,
      ),
      refl,
      get_data_length-set_packet_header host _ 3 0 (acknowledged host m start type low high)
          (omega arith) (λ k lt. refl),
    )
  where
    next : start + 1 + 1 ≡ start + 2
    next = omega arith

-- The byte behind the code of an EOF or metadata ack is 64 or more, whatever the buffer held.
pub build_ack_byte :
    (host : Endian) (m : Buffer) (start type : ℕ)
    → 3 ≤ start
    → start + 3 < 2 ^ 32
    → m.byte (start + 1) < 256
    → (type ≡ 4) ⊎ (type ≡ 7)
    → 64 ≤ (build_ack host m start type).1.byte (start + 1)
build_ack_byte host m start type low high small which =
    rw (build_ack_steps host m start type low high)
      (ack_high host m start type low high small which)
