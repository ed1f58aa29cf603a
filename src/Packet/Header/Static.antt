-- ===== src/Packet/Header/Static.antt =====
-- The first four bytes of a header, as `build_pdu_header` leaves them.
use ccsds_file_delivery_prot.Common.{
  ℕ, ◌+◌, ◌*◌, ◌^◌, ◌≤◌, ◌<◌, ◌≡◌, ap, ◌∙◌, arith, u8, u16, inr, inl,
}
use ccsds_file_delivery_prot.Wire.{Buffer, Endian, bytes16, memset}
use ccsds_file_delivery_prot.Wire.Access.{Outside, Holds, put16_inside, put16-Outside}
use ccsds_file_delivery_prot.Packet.Fields.{set_bits_to_protocol_byte, set_data_length}
use ccsds_file_delivery_prot.Packet.Fields.Laws.{set_bits_field, set_bits-Outside}
use ccsds_file_delivery_prot.Packet.Header.{PduHeader, set_flags, set_lengths, build_static_header}

-- The fields that share a byte fit their widths.
pub record HasWidths (h : PduHeader) (mode : ℕ) : Type 0 where
  pub version : h.version < 8
  pub pdu_type : h.pdu_type < 2
  pub direction : h.direction < 2
  pub transmission_mode : mode < 2
  pub crc_flag : h.crc_flag < 2
  pub reserved_bit_0 : h.reserved_bit_0 < 2
  pub reserved_bit_1 : h.reserved_bit_1 < 2
  pub length_of_entity_ids : h.length_of_entity_ids < 8
  pub reserved_bit_2 : h.reserved_bit_2 < 2
  pub transaction_seq_num_len : h.transaction_seq_num_len < 8

abbrev pub flags_byte : PduHeader → ℕ → ℕ
flags_byte h mode =
    h.version * 32
    + h.pdu_type * 16
    + h.direction * 8
    + mode * 4
    + h.crc_flag * 2
    + h.reserved_bit_0

abbrev pub lengths_byte : PduHeader → ℕ
lengths_byte h =
    h.reserved_bit_1 * 128
    + h.length_of_entity_ids * 16
    + h.reserved_bit_2 * 8
    + h.transaction_seq_num_len

set_flags_byte :
    (m : Buffer) (mode : ℕ) (h : PduHeader)
    → m.byte 0 ≡ 0
    → HasWidths h mode
    → (set_flags m mode h).byte 0 ≡ flags_byte h mode
unfolding set_flags
set_flags_byte m mode h e w =
    let small : u8 mode ≡ mode = omega arith in
    rw small (
      let e1 = set_bits_field m 0 0 5 8 (0) h.version (0) (h.version * 32) e (omega arith) in
      let m1 = set_bits_to_protocol_byte m 0 0 2 h.version in
      let e2 =
        set_bits_field m1 0 3 4 5 (h.version) h.pdu_type (h.version * 32)
          (h.version * 32 + h.pdu_type * 16) e1 (omega arith) in
      let m2 = set_bits_to_protocol_byte m1 0 3 3 h.pdu_type in
      let e3 =
        set_bits_field m2 0 4 3 4 (h.version * 2 + h.pdu_type) h.direction
          (h.version * 32 + h.pdu_type * 16) (h.version * 32 + h.pdu_type * 16 + h.direction * 8) e2
          (omega arith) in
      let m3 = set_bits_to_protocol_byte m2 0 4 4 h.direction in
      let e4 =
        set_bits_field m3 0 5 2 3 (h.version * 4 + h.pdu_type * 2 + h.direction) mode
          (h.version * 32 + h.pdu_type * 16 + h.direction * 8)
          (h.version * 32 + h.pdu_type * 16 + h.direction * 8 + mode * 4) e3 (omega arith) in
      let m4 = set_bits_to_protocol_byte m3 0 5 5 mode in
      let e5 =
        set_bits_field m4 0 6 1 2 (h.version * 8 + h.pdu_type * 4 + h.direction * 2 + mode)
          h.crc_flag (h.version * 32 + h.pdu_type * 16 + h.direction * 8 + mode * 4)
          (h.version * 32 + h.pdu_type * 16 + h.direction * 8 + mode * 4 + h.crc_flag * 2) e4
          (omega arith) in
      let m5 = set_bits_to_protocol_byte m4 0 6 6 h.crc_flag in
      let e6 =
        set_bits_field m5 0 7 0 1
          (h.version * 16 + h.pdu_type * 8 + h.direction * 4 + mode * 2 + h.crc_flag)
          h.reserved_bit_0
          (h.version * 32 + h.pdu_type * 16 + h.direction * 8 + mode * 4 + h.crc_flag * 2)
          (h.version * 32
            + h.pdu_type * 16
            + h.direction * 8
            + mode * 4
            + h.crc_flag * 2
            + h.reserved_bit_0)
          e5 (omega arith) in
      e6)

set_lengths_byte :
    (m : Buffer) (mode : ℕ) (h : PduHeader)
    → m.byte 3 ≡ 0
    → HasWidths h mode
    → (set_lengths m h).byte 3 ≡ lengths_byte h
unfolding set_lengths
set_lengths_byte m mode h e w =
    let e1 =
      set_bits_field m 3 0 7 8 (0) h.reserved_bit_1 (0) (h.reserved_bit_1 * 128) e (omega arith) in
    let m1 = set_bits_to_protocol_byte m 3 0 0 h.reserved_bit_1 in
    let e2 =
      set_bits_field m1 3 1 4 7 (h.reserved_bit_1) h.length_of_entity_ids (h.reserved_bit_1 * 128)
        (h.reserved_bit_1 * 128 + h.length_of_entity_ids * 16) e1 (omega arith) in
    let m2 = set_bits_to_protocol_byte m1 3 1 3 h.length_of_entity_ids in
    let e3 =
      set_bits_field m2 3 4 3 4 (h.reserved_bit_1 * 8 + h.length_of_entity_ids) h.reserved_bit_2
        (h.reserved_bit_1 * 128 + h.length_of_entity_ids * 16)
        (h.reserved_bit_1 * 128 + h.length_of_entity_ids * 16 + h.reserved_bit_2 * 8) e2
        (omega arith) in
    let m3 = set_bits_to_protocol_byte m2 3 4 4 h.reserved_bit_2 in
    let e4 =
      set_bits_field m3 3 5 0 3
        (h.reserved_bit_1 * 16 + h.length_of_entity_ids * 2 + h.reserved_bit_2)
        h.transaction_seq_num_len
        (h.reserved_bit_1 * 128 + h.length_of_entity_ids * 16 + h.reserved_bit_2 * 8)
        (h.reserved_bit_1 * 128
          + h.length_of_entity_ids * 16
          + h.reserved_bit_2 * 8
          + h.transaction_seq_num_len)
        e3 (omega arith) in
    e4

set_flags-Outside :
    (m : Buffer) (mode : ℕ) (h : PduHeader) (j : ℕ)
    → Outside 0 1 j
    → (set_flags m mode h).byte j ≡ m.byte j
unfolding set_flags
set_flags-Outside m mode h j out = simp (set_bits-Outside, out)

set_lengths-Outside :
    (m : Buffer) (h : PduHeader) (j : ℕ) → Outside 3 1 j → (set_lengths m h).byte j ≡ m.byte j
unfolding set_lengths
set_lengths-Outside m h j out = simp (set_bits-Outside, out)

module _ (host : Endian) (m : Buffer) (mode data_len : ℕ) (h : PduHeader) where
  -- The buffer after each of the two first steps.
  abbrev zeroed : Buffer
  zeroed = memset m 0 0 4

  abbrev flagged : Buffer
  flagged = set_flags zeroed mode h

  abbrev sized : Buffer
  sized = set_data_length host flagged data_len

  zeroed_lem : (j : ℕ) → j < 4 → zeroed.byte j ≡ 0
  unfolding memset
  zeroed_lem j lt = ground arith

  sized-Outside : (j : ℕ) → Outside 1 2 j → sized.byte j ≡ flagged.byte j
  unfolding set_data_length
  sized-Outside j out = put16-Outside host flagged 1 (u16 data_len) j out

  pub static_header-flags :
      HasWidths h mode → (build_static_header host m mode data_len h).byte 0 ≡ flags_byte h mode
  unfolding build_static_header
  static_header-flags w =
      set_lengths-Outside sized h 0 (inl (omega arith))
      ∙ sized-Outside 0 (inl (omega arith))
      ∙ set_flags_byte zeroed mode h (zeroed_lem 0 (omega arith)) w

  pub static_header-lengths :
      HasWidths h mode → (build_static_header host m mode data_len h).byte 3 ≡ lengths_byte h
  unfolding build_static_header
  static_header-lengths w =
      set_lengths_byte sized mode h
        (sized-Outside 3 (inr (omega arith))
          ∙ set_flags-Outside zeroed mode h 3 (inr (omega arith))
          ∙ zeroed_lem 3 (omega arith))
        w

  pub static_header-data_len :
      data_len < 2 ^ 16 → Holds 2 (bytes16 data_len) (build_static_header host m mode data_len h) 1
  unfolding build_static_header set_data_length
  static_header-data_len fits k lt =
      set_lengths-Outside sized h (1 + k) (inl (omega arith))
      ∙ put16_inside host flagged 1 (u16 data_len) k lt
      ∙ ap (λ (x : ℕ). bytes16 x k) (omega arith)

  pub static_header_outside :
      (j : ℕ) → 4 ≤ j → (build_static_header host m mode data_len h).byte j ≡ m.byte j
  unfolding build_static_header memset
  static_header_outside j le =
      set_lengths-Outside sized h j (inr (omega arith))
      ∙ sized-Outside j (inr (omega arith))
      ∙ set_flags-Outside zeroed mode h j (inr (omega arith))
      ∙ ground arith
