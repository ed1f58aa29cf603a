-- ===== src/Reception/Segment.antt =====
-- One data PDU: what it changes on disk and in the list of missing offsets.
use ccsds_file_delivery_prot.Common.{
  ℕ, ◌+◌, ◌-◌, ◌^◌, ◌≤◌, ◌<◌, ◌≡◌, refl, ap, sym, ◌∙◌, subst, arith, ◌⊎◌, inl, inr, true, false,
  not, ◌&&◌, ◌==◌, if◌then◌else◌, Returns, if-cases, Returns-map, Bool-cases, Option, some, u32,
  List,
}
use ccsds_file_delivery_prot.Wire.{Buffer, Bytes, Endian, at, memcpy}
use ccsds_file_delivery_prot.Wire.Order.{memcpy_inside, memcpy_outside}
use ccsds_file_delivery_prot.File.Missing.{Offset, Received, receive_offset}
use ccsds_file_delivery_prot.File.Missing.Ranges.{missing, Rising}
use ccsds_file_delivery_prot.File.Missing.Receive.{
  has_memory, received_bytes, Takes, Refuses, receive_offset_cases,
}
use ccsds_file_delivery_prot.File.Checksum.Spec.{HasBytes}
use ccsds_file_delivery_prot.File.Checksum.Total.{calc_check_sum-modular_sum}
use ccsds_file_delivery_prot.Reception.{
  Disk, Port, Reception, Arrival, write_offset, is_refused, get_data_offset_from_packet,
  add_check_sum, process_data_packet,
}

-- A disk that works: a position below 2 ^ 31 is taken, and all bytes are written.
pub record Writes (port : Port) : Type 0 where
  pub seeks : (d : Disk) (o : ℕ) → o < 2 ^ 31 → port.ssp_lseek d o ≡ record d { position = o }
  pub writes :
      (d : Disk) (bytes : Bytes) (n : ℕ)
      → port.ssp_write d bytes n ≡ (
        some n,
        record { contents = memcpy d.contents d.position bytes n; position = d.position + n },
      )

-- Every byte below `size` that is no longer missing is on disk as it is in the source.
abbrev pub Delivered : Buffer → ℕ → Reception → Type 0
Delivered source size r =
    (b : ℕ)
    → b < size
    → missing r.file.missing_offsets b ≡ false
    → r.disk.contents.byte b ≡ source.byte b

-- A data PDU with four to 65531 bytes of the source, below 2 ^ 31.
pub record IsSegment (host : Endian) (source : Buffer) (a : Arrival) : Type 0 where
  pub bytes : HasBytes a.packet
  pub long : 8 ≤ a.data_len
  pub short : a.data_len < 2 ^ 16
  pub low : get_data_offset_from_packet host a.packet a.place + a.data_len < 2 ^ 31
  pub same :
      (k : ℕ)
      → k + 4 < a.data_len
      → a.packet.byte (a.place + 4 + k)
        ≡ source.byte (get_data_offset_from_packet host a.packet a.place + k)

add_check_sum-Returns :
    (host : Endian) (port : Port) (fuel : ℕ) (packet : Buffer) (from n : ℕ) (r : Reception)
    → HasBytes packet
    → 4 ≤ n
    → n < 2 ^ 16
    → 2 ^ 14 < fuel
    → Returns
        (λ r'. (r'.file.missing_offsets ≡ r.file.missing_offsets) × (r'.disk ≡ r.disk))
        (add_check_sum host port fuel has_memory packet from (some n) r)
unfolding add_check_sum
add_check_sum-Returns host port fuel packet from n r h lo hi enough =
    let P : Option Reception → Type 0 =
      Returns (λ r'. (r'.file.missing_offsets ≡ r.file.missing_offsets) × (r'.disk ≡ r.disk)) in
    if-cases P (n == 0) (λ z. absurd (ground arith))
      (λ z.
        rw (calc_check_sum-modular_sum host packet fuel from n h lo (omega arith) (omega arith))
          (refl, refl))

module _ (host : Endian) (port : Port) (works : Writes port) (fuel : ℕ) (enough : 2 ^ 14 < fuel)
    (source : Buffer) (size lo : ℕ) (a : Arrival) (segment : IsSegment host source a)
    (r : Reception) (rising : Rising lo r.file.missing_offsets)
    (delivered : Delivered source size r) where
  abbrev from_offset : ℕ
  from_offset = get_data_offset_from_packet host a.packet a.place

  abbrev count : ℕ
  count = a.data_len - 4

  abbrev written : Disk
  written = record {
    contents = memcpy r.disk.contents from_offset (at a.packet (a.place + 4)) count;
    position = from_offset + count;
  }

  write_offset_writes :
      write_offset port r.disk (at a.packet (a.place + 4)) count from_offset ≡ (some count, written)
  unfolding write_offset
  write_offset_writes =
      rw (write_offset, works.seeks r.disk from_offset (omega (arith, segment.low)))
        (works.writes _ _ _)

  -- A byte of the segment is that of the source, any other one stays.
  written_byte :
      (b : ℕ)
      → b < size
      → missing r.file.missing_offsets b && not (received_bytes from_offset (from_offset + count) b)
        ≡ false
      → written.contents.byte b ≡ source.byte b
  written_byte b lt gone = elim (Bool-cases (received_bytes from_offset (from_offset + count) b)) [
    | inl inside ↦
        let split : from_offset + (b - from_offset) ≡ b = ground arith in
        let short : b - from_offset < count = ground arith in
        subst (λ (i : ℕ). written.contents.byte i ≡ source.byte i) split
          (memcpy_inside r.disk.contents from_offset (at a.packet (a.place + 4)) count
              (b - from_offset) short
            ∙ segment.same (b - from_offset) (omega (arith, segment.long, short)))
    | inr outside ↦
        memcpy_outside r.disk.contents from_offset (at a.packet (a.place + 4)) count b
          (ground arith)
        ∙ delivered b lt (ground arith)
  ]

  abbrev result : Received × List Offset
  result = receive_offset has_memory r.file.missing_offsets from_offset (from_offset + count)

  abbrev kept : Reception
  kept = record r { file = record r.file { missing_offsets = result.1 } }

  process_data_packet_steps :
      process_data_packet host port fuel has_memory a.packet a.place a.data_len r ≡ (
        if is_refused result.0
        then some kept
        else add_check_sum host port fuel has_memory a.packet
            (a.place + 4)
            (some count)
            (record kept { disk = written }))
  unfolding process_data_packet
  process_data_packet_steps =
      let i1 : u32 (from_offset + a.data_len + 0x1_0000_0000 - 4) ≡ from_offset + count =
        omega (arith, segment.long, segment.low) in
      let i2 : u32 (a.data_len + 0x1_0000_0000 - 4) ≡ count =
        omega (arith, segment.long, segment.short) in
      rw (process_data_packet, i1, i2, write_offset_writes) refl

  abbrev Taking : Type 0
  Taking =
      Takes r.file.missing_offsets from_offset (from_offset + count) result
      ⊎ Refuses r.file.missing_offsets from_offset (from_offset + count) result

  refused_Delivered : is_refused result.0 ≡ true → Taking → Delivered source size kept
  refused_Delivered h (inl (t, _, _)) = absurd (ground (arith, t))
  refused_Delivered h (inr (_, e, _)) =
      λ b lt gone. delivered b lt (ap (λ (l : List Offset). missing l b) (sym e) ∙ gone)

  taken_Delivered :
      is_refused result.0 ≡ false → Taking → Delivered source size (record kept { disk = written })
  taken_Delivered h (inl (_, e, _)) = λ b lt gone. written_byte b lt (sym (e b) ∙ gone)
  taken_Delivered h (inr (t, _, _)) = absurd (ground (arith, t))

  abbrev SameFile : Reception → Type 0
  SameFile r' = (r'.file.missing_offsets ≡ result.1) × (r'.disk ≡ written)

  -- It returns, the ranges are what `receive_offset` leaves and stay rising, and what is no longer
  -- missing is on disk.
  pub process_data_packet-Delivered :
      Returns
        (λ r'.
          (r'.file.missing_offsets ≡ result.1)
          × Rising lo r'.file.missing_offsets
          × Delivered source size r')
        (process_data_packet host port fuel has_memory a.packet a.place a.data_len r)
  process_data_packet-Delivered =
      let P : Option Reception → Type 0 = Returns (λ r'.
        (r'.file.missing_offsets ≡ result.1)
        × Rising lo r'.file.missing_offsets
        × Delivered source size r') in
      let (rising', taken_or_not) =
        receive_offset_cases lo from_offset (from_offset + count) r.file.missing_offsets
          (omega arith) rising in
      subst P (sym process_data_packet_steps) (
        if-cases P (is_refused result.0) (λ h. (refl, rising', refused_Delivered h taken_or_not))
          (λ h.
            Returns-map {P = SameFile} _
              (λ r' (same_missing, same_disk). (
                same_missing,
                subst (Rising lo) (sym same_missing) rising',
                λ b lt gone.
                    ap (λ (d : Disk). d.contents.byte b) same_disk
                    ∙ taken_Delivered h taken_or_not b lt
                        (ap (λ (l : List Offset). missing l b) (sym same_missing) ∙ gone),
              ))
              (add_check_sum-Returns host port fuel a.packet (a.place + 4) count
                (record kept { disk = written }) segment.bytes (omega (arith, segment.long))
                (omega (arith, segment.short)) enough)))
