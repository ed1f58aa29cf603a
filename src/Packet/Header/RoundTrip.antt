-- ===== src/Packet/Header/RoundTrip.antt =====
-- `build_pdu_header`, then `get_pdu_header_from_packet` (packet.c).
use ccsds_file_delivery_prot.Common.{ℕ, ◌+◌, ◌^◌, ◌<◌, ◌≡◌, refl, ◌∙◌, subst, arith, some}
use ccsds_file_delivery_prot.Wire.{Buffer, Endian}
use ccsds_file_delivery_prot.Wire.Access.{Holds, get16_of}
use ccsds_file_delivery_prot.Packet.Fields.{get_bits_from_protocol_byte, get_data_length}
use ccsds_file_delivery_prot.Packet.Ids.{copy_id_from_packet}
use ccsds_file_delivery_prot.Packet.Ids.RoundTrip.{id_length, id_bytes, copy_id_from_packet_of}
use ccsds_file_delivery_prot.Packet.Header.{PduHeader, build_pdu_header, get_pdu_header_from_packet}
use ccsds_file_delivery_prot.Packet.Header.Static.{
  HasWidths, flags_byte, lengths_byte, static_header-flags, static_header-lengths,
  static_header-data_len,
}
use ccsds_file_delivery_prot.Packet.Header.Build.{
  HasIds, header_length, with_destination, build_pdu_header_result, build_pdu_header_static,
  build_pdu_header-source, build_pdu_header-number, build_pdu_header-destination,
}

-- The header that a reader should see.
abbrev pub sent_header : PduHeader → ℕ → ℕ → ℕ → PduHeader
sent_header h seq mode data_len = record h {
  transmission_mode = mode;
  pdu_data_field_len = data_len;
  transaction_sequence_number = seq;
  reserved_space_for_header = header_length h;
}

-- The bit fields of the two packed bytes, taken out again.
flags_fields :
    (h : PduHeader) (mode : ℕ)
    → HasWidths h mode
    → (get_bits_from_protocol_byte (flags_byte h mode) 0 2 ≡ h.version)
      × (get_bits_from_protocol_byte (flags_byte h mode) 3 3 ≡ h.pdu_type)
      × (get_bits_from_protocol_byte (flags_byte h mode) 4 4 ≡ h.direction)
      × (get_bits_from_protocol_byte (flags_byte h mode) 5 5 ≡ mode)
      × (get_bits_from_protocol_byte (flags_byte h mode) 6 6 ≡ h.crc_flag)
      × (get_bits_from_protocol_byte (flags_byte h mode) 7 7 ≡ h.reserved_bit_0)
unfolding get_bits_from_protocol_byte
flags_fields h mode w = omega arith

lengths_fields :
    (h : PduHeader) (mode : ℕ)
    → HasWidths h mode
    → (get_bits_from_protocol_byte (lengths_byte h) 0 0 ≡ h.reserved_bit_1)
      × (get_bits_from_protocol_byte (lengths_byte h) 1 3 ≡ h.length_of_entity_ids)
      × (get_bits_from_protocol_byte (lengths_byte h) 4 4 ≡ h.reserved_bit_2)
      × (get_bits_from_protocol_byte (lengths_byte h) 5 7 ≡ h.transaction_seq_num_len)
unfolding get_bits_from_protocol_byte
lengths_fields h mode w = omega arith

module _ (host : Endian) (m : Buffer) (h0 h : PduHeader) (seq mode data_len : ℕ) where
  -- Any memory with the bytes of a header is read as that header.
  get_pdu_header_of :
      HasWidths h mode
      → HasIds h seq
      → m.byte 0 ≡ flags_byte h mode
      → m.byte 3 ≡ lengths_byte h
      → get_data_length host m ≡ data_len
      → copy_id_from_packet host m 4 h.length_of_entity_ids ≡ h.source_id
      → copy_id_from_packet host m (4 + h.length_of_entity_ids) h.transaction_seq_num_len ≡ seq
      → copy_id_from_packet host m
          (4 + h.length_of_entity_ids + h.transaction_seq_num_len)
          h.length_of_entity_ids
        ≡ h.destination_id
      → get_pdu_header_from_packet host m h0
        ≡ (some (header_length h), sent_header h seq mode data_len)
  unfolding get_pdu_header_from_packet
  get_pdu_header_of w v e0 e3 el es en ed =
      let f = flags_fields h mode w in let g = lengths_fields h mode w in ground arith

module _ (host : Endian) (m : Buffer) (h0 h : PduHeader) (seq mode data_len : ℕ) where
  -- What a receiver reads from a header that `build_pdu_header` wrote over any buffer is what was
  -- sent: every field, and the place where the data start. The fields fit their widths, the ids and
  -- the transaction number are below 0xffffffff and as long as the header states.
  pub get-build_pdu_header :
      HasWidths h mode
      → HasIds h seq
      → data_len < 2 ^ 16
      → ((build_pdu_header host m seq mode data_len h).0 ≡ some (header_length h))
        × (get_pdu_header_from_packet host (build_pdu_header host m seq mode data_len h).1 h0
            ≡ (some (header_length h), sent_header h seq mode data_len))
  get-build_pdu_header w v fits =
      let result = build_pdu_header_result host m seq mode data_len h v in
      let final = with_destination host m seq mode data_len h in
      let below = build_pdu_header_static host m seq mode data_len h in
      rw result (
        refl,
        get_pdu_header_of host final h0 h seq mode data_len w v
            (below 0 (omega arith) ∙ static_header-flags host m mode data_len h w)
            (below 3 (omega arith) ∙ static_header-lengths host m mode data_len h w)
            (unfold get_data_length in
              get16_of host final 1 data_len fits λ k lt.
                below (1 + k) (omega arith)
                ∙ static_header-data_len host m mode data_len h fits k lt)
            (id_read final 4 h.source_id _ v.source_fits v.source_length
              (build_pdu_header-source host m seq mode data_len h v))
            (id_read final _ seq _ v.seq_fits v.seq_length
              (build_pdu_header-number host m seq mode data_len h v))
            (id_read final _ h.destination_id _ v.destination_fits v.destination_length
              (build_pdu_header-destination host m seq mode data_len h v)),
      )
    where
      id_read :
          (m : Buffer) (i id len : ℕ)
          → id < 0xffff_ffff
          → id_length id ≡ len
          → Holds len (id_bytes id) m i
          → copy_id_from_packet host m i len ≡ id
      id_read m i id len fits e holds =
          subst (λ (len : ℕ). copy_id_from_packet host m i len ≡ id) e
            (copy_id_from_packet_of host m i id fits (λ k lt. holds k (omega (arith, e))))
