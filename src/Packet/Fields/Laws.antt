-- ===== src/Packet/Fields/Laws.antt =====
-- Fields of a byte as digits: what `set_bits_to_protocol_byte` adds and what
-- `get_bits_from_protocol_byte` takes out.
use ccsds_file_delivery_prot.Common.{
  ℕ, ◌+◌, ◌-◌, ◌*◌, ◌^◌, ◌≤◌, ◌<◌, ◌≡◌, ap, ◌∙◌, sym, arith, u8, u16, bit_or, bit_or_fields, inr,
}
use native.Mathlib.Nat.{mod-eq_of_lt}
use ccsds_file_delivery_prot.Wire.{Buffer, Endian, bytes16}
use ccsds_file_delivery_prot.Wire.Access.{
  Outside, Holds, put_here, put-Outside, put16_inside, put16-Outside, get16_of,
}
use ccsds_file_delivery_prot.Packet.Fields.{
  or_bits, set_bits_to_protocol_byte, get_data_length, set_packet_header,
}

-- A field whose bits are still clear is added, shifted by `s`: those below 2 ^ k are clear in
-- `q * 2 ^ k`.
pub or_bits_field :
    (s k q v : ℕ)
    → s ≤ 7
    → v < 256
    → v * 2 ^ s < 256
    → v * 2 ^ s < 2 ^ k
    → or_bits (q * 2 ^ k) (7 - s) v ≡ q * 2 ^ k + v * 2 ^ s
or_bits_field s k q v hs hv hb hk =
    let shift : u8 (7 + 256 - (7 - s)) ≡ s = omega arith in
    let byte : u8 v ≡ v = omega arith in
    rw (shift, byte) (rw (mod-eq_of_lt hb) (bit_or_fields k q (v * 2 ^ s) hk))

pub set_bits_here :
    (m : Buffer) (i from to v : ℕ)
    → (set_bits_to_protocol_byte m i from to v).byte i ≡ u8 (or_bits (m.byte i) to v)
unfolding set_bits_to_protocol_byte
set_bits_here m i from to v = put_here m i _

pub set_bits-Outside :
    (m : Buffer) (i from to v j : ℕ)
    → Outside i 1 j
    → (set_bits_to_protocol_byte m i from to v).byte j ≡ m.byte j
unfolding set_bits_to_protocol_byte
set_bits-Outside m i from to v j h = put-Outside m i _ j h

-- `c` is the byte `b` with the field `v` added `s` bits from the right, where the bits of `b` below
-- 2 ^ k are clear.
abbrev pub Adds : ℕ → ℕ → ℕ → ℕ → ℕ → ℕ → Type 0
Adds b s k q v c =
    (b ≡ q * 2 ^ k) × (s ≤ 7) × (v < 256) × (v * 2 ^ s < 2 ^ k) × (c ≡ b + v * 2 ^ s) × (c < 256)

pub set_bits_field :
    (m : Buffer) (i from s k q v b c : ℕ)
    → m.byte i ≡ b
    → Adds b s k q v c
    → (set_bits_to_protocol_byte m i from (7 - s) v).byte i ≡ c
set_bits_field m i from s k q v b c e (hq, hs, hv, hk, hc, fits) =
    set_bits_here m i from (7 - s) v
    ∙ ap (λ (b : ℕ). u8 (or_bits b (7 - s) v)) (e ∙ hq)
    ∙ ap u8 (or_bits_field s k q v hs hv (omega arith) hk)
    ∙ ap u8 (omega arith)
    ∙ mod-eq_of_lt fits

-- Or-ing a field of zero bits changes nothing.
pub or_bits_zero : (b to : ℕ) → or_bits b to 0 ≡ b
or_bits_zero b to =
    let none : u8 (u8 0 * 2 ^ u8 (7 + 256 - to)) ≡ 0 = omega arith in
    let whole : b * 2 ^ 0 ≡ b = omega arith in
    rw none
      (ap (λ (x : ℕ). bit_or x 0) (sym whole) ∙ bit_or_fields 0 b 0 (omega arith) ∙ omega arith)

-- A step with a field of zero bits leaves the byte alone.
pub set_bits_zero :
    (m : Buffer) (i from to : ℕ)
    → m.byte i < 256
    → (set_bits_to_protocol_byte m i from to 0).byte i ≡ m.byte i
set_bits_zero m i from to small =
    set_bits_here m i from to 0 ∙ ap u8 (or_bits_zero (m.byte i) to) ∙ mod-eq_of_lt small

module _ (host : Endian) (m : Buffer) (data_len is_data : ℕ) where
  pub set_packet_header_outside :
      (j : ℕ) → 3 ≤ j → (set_packet_header host m data_len is_data).byte j ≡ m.byte j
  unfolding set_packet_header
  set_packet_header_outside j le =
      put16-Outside host _ 1 (u16 data_len) j (inr (omega arith))
      ∙ set_bits-Outside m 0 3 3 is_data j (inr (omega arith))

  -- The data length is read back, whatever is done behind the header.
  pub get_data_length-set_packet_header :
      (m' : Buffer)
      → data_len < 2 ^ 16
      → Holds 2 (λ k. (set_packet_header host m data_len is_data).byte (1 + k)) m' 1
      → get_data_length host m' ≡ data_len
  unfolding get_data_length set_packet_header
  get_data_length-set_packet_header m' fits same = get16_of host m' 1 data_len fits λ k lt.
      same k lt
      ∙ put16_inside host _ 1 (u16 data_len) k lt
      ∙ ap (λ (x : ℕ). bytes16 x k) (omega arith)
