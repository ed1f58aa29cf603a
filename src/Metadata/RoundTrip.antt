-- ===== src/Metadata/RoundTrip.antt =====
-- `build_put_packet_metadata` of the sender, then `parse_metadata_packet` of the receiver.
use ccsds_file_delivery_prot.Common.{
  ℕ, ◌+◌, ◌-◌, ◌*◌, ◌^◌, ◌≤◌, ◌<◌, ◌≡◌, refl, ap, ◌∙◌, arith, u8, inr, inl, [],
}
use ccsds_file_delivery_prot.Wire.{
  Buffer, Bytes, Endian, at, put, put32, memcpy, memset, bytes32, get32,
}
use ccsds_file_delivery_prot.Wire.Order.{memcpy_inside, memcpy_outside}
use ccsds_file_delivery_prot.Wire.Access.{
  put_here, put-Outside, put32_inside, put32-Outside, get32_of,
}
use ccsds_file_delivery_prot.Packet.Fields.{
  set_packet_directive, set_bits_to_protocol_byte, get_bits_from_protocol_byte, set_packet_header,
  get_data_length,
}
use ccsds_file_delivery_prot.Packet.Fields.Laws.{
  set_bits_field, set_packet_header_outside, get_data_length-set_packet_header,
}
use ccsds_file_delivery_prot.Packet.Directives.{meta_data_pdu}
use ccsds_file_delivery_prot.Message.{strnlen, text, max_path, add_messages_to_packet}
use ccsds_file_delivery_prot.Message.Pieces.{strnlen-le, text_of}
use ccsds_file_delivery_prot.Request.{Request}
use ccsds_file_delivery_prot.Metadata.{build_put_packet_metadata, parse_metadata_packet}

abbrev pub source_of : Request → Bytes
source_of req = at req.source_file_name 0

abbrev pub destination_of : Request → Bytes
destination_of req = at req.destination_file_name 0

-- The place behind the names.
abbrev pub names_end : ℕ → Request → ℕ
names_end start req =
    start + 8 + strnlen (source_of req) max_path + strnlen (destination_of req) max_path

memset_inside : (m : Buffer) (j : ℕ) → j < max_path → (memset m 0 0 max_path).byte j ≡ 0
unfolding memset
memset_inside m j lt = ground arith

-- A name that is read: the array is cleared, and the bytes copied in.
copied_text :
    (old : Buffer) (name : Bytes) (packet : Buffer) (i : ℕ)
    → ((k : ℕ) → k < strnlen name max_path → packet.byte (i + k) ≡ name k)
    → text max_path
        (at (memcpy (memset old 0 0 max_path) 0 (at packet i) (strnlen name max_path)) 0)
      ≡ text max_path name
copied_text old name packet i same =
    text_of max_path name
      (at (memcpy (memset old 0 0 max_path) 0 (at packet i) (strnlen name max_path)) 0)
      (λ k lt.
        memcpy_inside (memset old 0 0 max_path) 0 (at packet i) (strnlen name max_path) k lt
        ∙ same k lt)
      λ lt.
        ap (memcpy (memset old 0 0 max_path) 0 (at packet i) (strnlen name max_path)).byte
          (omega arith)
        ∙ memcpy_outside (memset old 0 0 max_path) 0 (at packet i) (strnlen name max_path)
            (strnlen name max_path) (inr (omega arith))
        ∙ memset_inside old (strnlen name max_path) lt

module _ (host : Endian) (m : Buffer) (start : ℕ) (req : Request) (low : 3 ≤ start)
    (high : names_end start req < 256) where
  abbrev s : ℕ
  s = strnlen (source_of req) max_path

  abbrev d : ℕ
  d = strnlen (destination_of req) max_path

  -- The buffer after each step.
  abbrev coded : Buffer
  coded = set_packet_directive m start meta_data_pdu

  abbrev flagged : Buffer
  flagged = set_bits_to_protocol_byte coded (start + 1) 0 0 req.segmentation_control

  abbrev with_size : Buffer
  with_size = put32 host flagged (start + 2) req.file_size

  abbrev with_source_length : Buffer
  with_source_length = put with_size (start + 6) s

  abbrev with_source : Buffer
  with_source = memcpy with_source_length (start + 7) (source_of req) s

  abbrev with_destination_length : Buffer
  with_destination_length = put with_source (start + 7 + s) d

  abbrev with_destination : Buffer
  with_destination = memcpy with_destination_length (start + 8 + s) (destination_of req) d

  abbrev stated_length : ℕ
  stated_length = u8 (u8 (names_end start req + names_end start req) + 0x1_0000_0000 - start)

  abbrev finished : Buffer
  finished = set_packet_header host with_destination stated_length 0

  build_put_packet_metadata_steps :
      req.messages_to_user ≡ []
      → build_put_packet_metadata host m start req
        ≡ (u8 (names_end start req + names_end start req), finished)
  unfolding build_put_packet_metadata add_messages_to_packet
  build_put_packet_metadata_steps none =
      let s_small = strnlen-le (source_of req) max_path in
      let d_small = strnlen-le (destination_of req) max_path in
      let i0 : u8 start ≡ start = omega (arith, high) in
      let i1 : u8 (start + 1) ≡ start + 1 = omega (arith, high) in
      let i2 : u8 (start + 1 + 1) ≡ start + 2 = omega (arith, high) in
      let i3 : u8 (start + 2 + 4) ≡ start + 6 = omega (arith, high) in
      let is : u8 s ≡ s = omega (arith, s_small) in
      let id : u8 d ≡ d = omega (arith, d_small) in
      let i4 : u8 (start + 6 + 1) ≡ start + 7 = omega (arith, high) in
      let i5 : u8 (start + 7 + s) ≡ start + 7 + s = omega (arith, high) in
      let i6 : u8 (start + 7 + s + 1) ≡ start + 8 + s = omega (arith, high) in
      let i7 : u8 (start + 8 + s + d) ≡ start + 8 + s + d = omega (arith, high) in
      rw (none, i0, i1, i2, i3, is, id, i4, i5, i6, i7) refl

  -- What the buffer holds behind the last step that writes there.
  flag_byte :
      m.byte (start + 1) ≡ 0
      → req.segmentation_control < 2
      → finished.byte (start + 1) ≡ req.segmentation_control * 128
  flag_byte clear seg =
      let before : coded.byte (start + 1) ≡ 0 =
        unfold set_packet_directive in
        put-Outside m start meta_data_pdu (start + 1) (inr (omega arith)) ∙ clear in
      let v = req.segmentation_control in
      set_packet_header_outside host with_destination stated_length 0 (start + 1) (omega arith)
      ∙ memcpy_outside with_destination_length (start + 8 + s) (destination_of req) d (start + 1)
          (inl (omega arith))
      ∙ put-Outside with_source (start + 7 + s) d (start + 1) (inl (omega arith))
      ∙ memcpy_outside with_source_length (start + 7) (source_of req) s (start + 1)
          (inl (omega arith))
      ∙ put-Outside with_size (start + 6) s (start + 1) (inl (omega arith))
      ∙ put32-Outside host flagged (start + 2) req.file_size (start + 1) (inl (omega arith))
      ∙ set_bits_field coded (start + 1) 0 7 8 0 v 0 (v * 128) before
          (refl, omega arith, omega arith, omega arith, omega arith, omega arith)

  size_read : req.file_size < 2 ^ 32 → get32 host finished (start + 2) ≡ req.file_size
  size_read fits = get32_of host finished (start + 2) req.file_size fits λ k lt.
      set_packet_header_outside host with_destination stated_length 0 (start + 2 + k) (omega arith)
      ∙ memcpy_outside with_destination_length (start + 8 + s) (destination_of req) d
          (start + 2 + k) (inl (omega arith))
      ∙ put-Outside with_source (start + 7 + s) d (start + 2 + k) (inl (omega arith))
      ∙ memcpy_outside with_source_length (start + 7) (source_of req) s (start + 2 + k)
          (inl (omega arith))
      ∙ put-Outside with_size (start + 6) s (start + 2 + k) (inl (omega arith))
      ∙ put32_inside host flagged (start + 2) req.file_size k lt
      ∙ ap (λ (x : ℕ). bytes32 x k) (omega arith)

  source_length_read : finished.byte (start + 6) ≡ s
  source_length_read =
      set_packet_header_outside host with_destination stated_length 0 (start + 6) (omega arith)
      ∙ memcpy_outside with_destination_length (start + 8 + s) (destination_of req) d (start + 6)
          (inl (omega arith))
      ∙ put-Outside with_source (start + 7 + s) d (start + 6) (inl (omega arith))
      ∙ memcpy_outside with_source_length (start + 7) (source_of req) s (start + 6)
          (inl (omega arith))
      ∙ put_here with_size (start + 6) s
      ∙ omega (arith, high)

  source_read : (k : ℕ) → k < s → finished.byte (start + 7 + k) ≡ source_of req k
  source_read k lt =
      set_packet_header_outside host with_destination stated_length 0 (start + 7 + k) (omega arith)
      ∙ memcpy_outside with_destination_length (start + 8 + s) (destination_of req) d
          (start + 7 + k) (inl (omega arith))
      ∙ put-Outside with_source (start + 7 + s) d (start + 7 + k) (inl (omega arith))
      ∙ memcpy_inside with_source_length (start + 7) (source_of req) s k lt

  destination_length_read : finished.byte (start + 7 + s) ≡ d
  destination_length_read =
      set_packet_header_outside host with_destination stated_length 0 (start + 7 + s) (omega arith)
      ∙ memcpy_outside with_destination_length (start + 8 + s) (destination_of req) d
          (start + 7 + s) (inl (omega arith))
      ∙ put_here with_source (start + 7 + s) d
      ∙ omega (arith, high)

  destination_read : (k : ℕ) → k < d → finished.byte (start + 8 + s + k) ≡ destination_of req k
  destination_read k lt =
      set_packet_header_outside host with_destination stated_length 0 (start + 8 + s + k)
        (omega arith)
      ∙ memcpy_inside with_destination_length (start + 8 + s) (destination_of req) d k lt

flag_bit : (v : ℕ) → v < 2 → get_bits_from_protocol_byte (v * 128) 0 0 ≡ v
unfolding get_bits_from_protocol_byte
flag_bit v lt = ground arith

-- A metadata PDU for a request without messages, built at an offset from 3 on in a buffer whose flags
-- are clear, with a flag of one bit, a size of 32 bits and names that end below byte 256, is read back
-- into any request: the flag, the size and both names, and the place behind the names. The data length
-- in its header is not that of the PDU: it counts the place behind the names twice, in eight bits.
pub parse-build_put_packet_metadata :
    (host : Endian) (m : Buffer) (start : ℕ) (req old : Request)
    → 3 ≤ start
    → names_end start req < 256
    → m.byte (start + 1) ≡ 0
    → req.segmentation_control < 2
    → req.file_size < 2 ^ 32
    → req.messages_to_user ≡ []
    → (let m' = (build_put_packet_metadata host m start req).1 in
        let (i, got) = parse_metadata_packet host m' (start + 1) old in
        (i ≡ names_end start req)
        × (got.segmentation_control ≡ req.segmentation_control)
        × (got.file_size ≡ req.file_size)
        × (text max_path (source_of got) ≡ text max_path (source_of req))
        × (text max_path (destination_of got) ≡ text max_path (destination_of req))
        × (get_data_length host m'
            ≡ u8 (u8 (names_end start req + names_end start req) + 0x1_0000_0000 - start)))
unfolding parse_metadata_packet
parse-build_put_packet_metadata host m start req old low high clear seg fits none =
    let s = strnlen (source_of req) max_path in
    let d = strnlen (destination_of req) max_path in
    let m' = finished host m start req low high in
    let i1 : u8 (start + 1 + 1) ≡ start + 2 = omega (arith, high) in
    let i2 : u8 (start + 2 + 4) ≡ start + 6 = omega (arith, high) in
    let i3 : u8 (start + 6 + 1) ≡ start + 7 = omega (arith, high) in
    let i4 : u8 (start + 7 + s) ≡ start + 7 + s = omega (arith, high) in
    let i5 : u8 (start + 7 + s + 1) ≡ start + 8 + s = omega (arith, high) in
    let i6 : u8 (start + 8 + s + d) ≡ start + 8 + s + d = omega (arith, high) in
    let is : u8 (m'.byte (start + 6)) ≡ s =
      ap u8 (source_length_read host m start req low high) ∙ omega (arith, high) in
    let id : u8 (m'.byte (start + 7 + s)) ≡ d =
      ap u8 (destination_length_read host m start req low high) ∙ omega (arith, high) in
    rw
      (
        build_put_packet_metadata_steps host m start req low high none,
        i1,
        i2,
        i3,
        is,
        i4,
        i5,
        id,
        i6,
      )
      (
        refl,
        ap (λ (b : ℕ). get_bits_from_protocol_byte b 0 0)
              (flag_byte host m start req low high clear seg)
            ∙ flag_bit req.segmentation_control seg,
        size_read host m start req low high fits,
        copied_text old.source_file_name (source_of req) m' (start + 7)
            (source_read host m start req low high),
        copied_text old.destination_file_name (destination_of req) m' (start + 8 + s)
            (destination_read host m start req low high),
        get_data_length-set_packet_header host _ (stated_length host m start req low high) 0 m'
            (omega arith) λ k lt. refl,
      )
