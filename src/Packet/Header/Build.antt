-- ===== src/Packet/Header/Build.antt =====
-- `build_pdu_header` on a header whose lengths are those of its ids.
use ccsds_file_delivery_prot.Common.{ℕ, ◌+◌, ◌≤◌, ◌<◌, ◌≡◌, ◌∙◌, arith, inr, inl, some}
use ccsds_file_delivery_prot.Wire.{Buffer, Endian}
use ccsds_file_delivery_prot.Wire.Access.{Outside, Holds}
use ccsds_file_delivery_prot.Packet.Ids.{copy_id_to_packet}
use ccsds_file_delivery_prot.Packet.Ids.RoundTrip.{
  id_length, id_bytes, copy_id_to_packet_length, copy_id_to_packet-Outside,
  copy_id_to_packet_inside,
}
use ccsds_file_delivery_prot.Packet.Header.{PduHeader, build_static_header, build_pdu_header}
use ccsds_file_delivery_prot.Packet.Header.Static.{static_header_outside}

-- The ids of `h` and the number `seq` can be sent, and take as many bytes as `h` states.
pub record HasIds (h : PduHeader) (seq : ℕ) : Type 0 where
  pub source_fits : h.source_id < 0xffff_ffff
  pub seq_fits : seq < 0xffff_ffff
  pub destination_fits : h.destination_id < 0xffff_ffff
  pub source_length : id_length h.source_id ≡ h.length_of_entity_ids
  pub seq_length : id_length seq ≡ h.transaction_seq_num_len
  pub destination_length : id_length h.destination_id ≡ h.length_of_entity_ids

pub id_length_bounds : (id : ℕ) → (1 ≤ id_length id) × (id_length id ≤ 8)
id_length_bounds id = ground arith

-- Where the parts of the header start, and its length.
abbrev pub number_at : PduHeader → ℕ
number_at h = 4 + h.length_of_entity_ids

abbrev pub destination_at : PduHeader → ℕ
destination_at h = number_at h + h.transaction_seq_num_len

abbrev pub header_length : PduHeader → ℕ
header_length h = destination_at h + h.length_of_entity_ids

module _ (host : Endian) (m : Buffer) (seq mode data_len : ℕ) (h : PduHeader) where
  abbrev pub with_static : Buffer
  with_static = build_static_header host m mode data_len h

  abbrev pub with_source : Buffer
  with_source = (copy_id_to_packet host with_static 4 h.source_id).1

  abbrev pub with_number : Buffer
  with_number = (copy_id_to_packet host with_source (number_at h) seq).1

  abbrev pub with_destination : Buffer
  with_destination = (copy_id_to_packet host with_number (destination_at h) h.destination_id).1

  pub build_pdu_header_result :
      HasIds h seq
      → build_pdu_header host m seq mode data_len h ≡ (some (header_length h), with_destination)
  unfolding build_pdu_header
  build_pdu_header_result v = ground (
    arith,
    id_length_bounds h.source_id,
    id_length_bounds seq,
    copy_id_to_packet_length host with_static 4 h.source_id v.source_fits,
    copy_id_to_packet_length host with_source (number_at h) seq v.seq_fits,
    copy_id_to_packet_length host with_number (destination_at h) h.destination_id
        v.destination_fits,
  )

  final_byte :
      (j : ℕ)
      → Outside 4 (id_length h.source_id) j
      → Outside (number_at h) (id_length seq) j
      → Outside (destination_at h) (id_length h.destination_id) j
      → with_destination.byte j ≡ with_static.byte j
  final_byte j a b c =
      copy_id_to_packet-Outside host with_number (destination_at h) h.destination_id j c
      ∙ copy_id_to_packet-Outside host with_source (number_at h) seq j b
      ∙ copy_id_to_packet-Outside host with_static 4 h.source_id j a

  -- The first four bytes are those of the static header, and bytes behind the header stay.
  pub build_pdu_header_static : (j : ℕ) → j < 4 → with_destination.byte j ≡ with_static.byte j
  build_pdu_header_static j lt = final_byte j (inl lt) (inl (omega arith)) (inl (omega arith))

  pub build_pdu_header_behind :
      (j : ℕ) → HasIds h seq → header_length h ≤ j → with_destination.byte j ≡ m.byte j
  build_pdu_header_behind j v le =
      final_byte j (inr (omega (arith, v.source_length))) (inr (omega (arith, v.seq_length)))
        (inr (omega (arith, v.destination_length)))
      ∙ static_header_outside host m mode data_len h j (omega arith)

  pub build_pdu_header-source :
      HasIds h seq → Holds h.length_of_entity_ids (id_bytes h.source_id) with_destination 4
  build_pdu_header-source v k lt =
      copy_id_to_packet-Outside host with_number (destination_at h) h.destination_id (4 + k)
        (inl (omega arith))
      ∙ copy_id_to_packet-Outside host with_source (number_at h) seq (4 + k) (inl (omega arith))
      ∙ copy_id_to_packet_inside host with_static 4 h.source_id k v.source_fits
          (omega (arith, v.source_length))

  pub build_pdu_header-number :
      HasIds h seq → Holds h.transaction_seq_num_len (id_bytes seq) with_destination (number_at h)
  build_pdu_header-number v k lt =
      copy_id_to_packet-Outside host with_number (destination_at h) h.destination_id
        (number_at h + k) (inl (omega arith))
      ∙ copy_id_to_packet_inside host with_source (number_at h) seq k v.seq_fits
          (omega (arith, v.seq_length))

  pub build_pdu_header-destination :
      HasIds h seq
      → Holds h.length_of_entity_ids (id_bytes h.destination_id) with_destination (destination_at h)
  build_pdu_header-destination v k lt =
      copy_id_to_packet_inside host with_number (destination_at h) h.destination_id k
        v.destination_fits (omega (arith, v.destination_length))
