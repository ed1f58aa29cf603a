-- ===== src/Sender/Packet.antt =====
-- `create_data_burst_packets` (protocol_handler.c) on a file with four bytes left at least.
use ccsds_file_delivery_prot.Common.{
  zero, suc, ℕ, ◌+◌, ◌-◌, ◌^◌, ◌≤◌, ◌<◌, ◌≡◌, refl, subst, arith, ◌==◌, leb, false, Option, some,
  u32, List, [], ◌∷◌,
}
use ccsds_file_delivery_prot.Wire.{Buffer, Endian}
use ccsds_file_delivery_prot.File.Checksum.Spec.{HasBytes, modular_sum, slice}
use ccsds_file_delivery_prot.File.Checksum.Total.{covered_length, calc_check_sum-modular_sum}
use ccsds_file_delivery_prot.Request.{File}
use ccsds_file_delivery_prot.Reception.{Disk, Port, Arrival, get_data_offset_from_packet}
use ccsds_file_delivery_prot.Packet.Fields.{get_data_length}
use ccsds_file_delivery_prot.Reception.Segment.{IsSegment}
use ccsds_file_delivery_prot.Sending.{build_data_packet}
use ccsds_file_delivery_prot.Sending.Segment.{
  Reads, count, built, build_data_packet_steps, build_data_packet-IsSegment,
}
use ccsds_file_delivery_prot.Sender.{count_burst, create_data_burst_packets}

-- A data PDU as it arrives, with the length that its header gives.
abbrev pub arrival : Endian → ℕ → Buffer → Arrival
arrival host start m = record { packet = m; place = start; data_len = get_data_length host m }

-- A data PDU whose data start at `start` holds a segment of `contents`: `c` bytes at the offset `o`.
abbrev pub Carries : Endian → Buffer → ℕ → Buffer → ℕ → ℕ → Type 0
Carries host contents start m o c =
    (get_data_offset_from_packet host m start ≡ o)
    × (get_data_length host m ≡ c + 4)
    × IsSegment host contents (arrival host start m)

-- `k` packets with segments of `n` bytes from the offset `o` on, and a last one of `r` bytes.
abbrev pub CarriesFrom : Endian → Buffer → ℕ → ℕ → ℕ → ℕ → ℕ → List Buffer → Type 0
CarriesFrom host contents start n r zero o packets =
    (m : Buffer) × (packets ≡ m ∷ []) × Carries host contents start m o r
CarriesFrom host contents start n r (suc k) o packets =
    (m : Buffer) × (ms : List Buffer) × (packets ≡ m ∷ ms)
    × Carries host contents start m o n
    × CarriesFrom host contents start n r k (o + n) ms

-- One data PDU, in the terms of the file.
module _ (host : Endian) (port : Port) (fuel : ℕ) (file : File) (disk : Disk) (m : Buffer)
    (start len : ℕ) (reads : Reads port file.total_size) (low : 3 ≤ start) (room : start + 8 ≤ len)
    (small : len < 2 ^ 16) (inside : file.next_offset_to_send + 4 ≤ file.total_size)
    (fits : file.total_size + 2 ^ 16 < 2 ^ 31) (enough : 2 ^ 14 < fuel) (bytes : HasBytes m)
    (source : HasBytes disk.contents) where
  abbrev pub next : ℕ
  next = file.next_offset_to_send

  abbrev pub c : ℕ
  c = count host port file disk m start len next reads low room small inside fits

  abbrev pub packet : Buffer
  packet = built host port file disk m start len next reads low room small inside fits

  abbrev pub counted : File
  counted = record file {
    partial_checksum =
        u32
          (file.partial_checksum + u32 (modular_sum (slice packet (start + 4) (covered_length c))));
    next_offset_to_send = next + c;
  }

  steps :
      build_data_packet host port file disk m start len next
      ≡ (some (c + 4), packet, record disk { position = next + c })
  steps =
      build_data_packet_steps host port file disk m start len next reads low room small inside fits

  pub carries : Carries host disk.contents start packet next c × HasBytes packet
  carries =
      let (_, offset, length, segment) =
        subst
          (λ (r : Option ℕ × Buffer × Disk).
            (r.0 ≡ some (c + 4))
            × (get_data_offset_from_packet host r.1 start ≡ next)
            × (get_data_length host r.1 ≡ c + 4)
            × IsSegment host disk.contents (arrival host start r.1))
          steps
          (build_data_packet-IsSegment host port file disk m start len next reads low room small
            inside fits bytes source) in
      ((offset, length, segment), segment.bytes)

  pub create_steps :
      create_data_burst_packets host port fuel m start file len disk
      ≡ (some (next + c == file.total_size, counted), packet, record disk { position = next + c })
  unfolding create_data_burst_packets count_burst
  create_steps =
      let i1 : u32 (start + 4) ≡ start + 4 = omega arith in
      let i2 : u32 (c + 4 + 0x1_0000_0000 - 4) ≡ c = omega arith in
      let i3 : u32 (next + c) ≡ next + c = omega arith in
      let more : leb file.total_size next ≡ false = ground arith in
      let sum =
        calc_check_sum-modular_sum host packet fuel (start + 4) c carries.1 (omega arith)
          (omega arith) (omega arith) in
      rw (steps, i1, i2, sum, i3, more) refl
