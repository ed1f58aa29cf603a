-- ===== src/Sending/Segment.antt =====
-- `build_data_packet` (packet.c), seen by a receiver.
use Prim.Native.Nat.{min}
use ccsds_file_delivery_prot.Common.{
  ℕ, zero, suc, ◌+◌, ◌-◌, ◌^◌, ◌≤◌, ◌<◌, ◌≡◌, refl, ap, sym, ◌∙◌, subst, arith, inl, inr, false,
  ◌&&◌, ltb, leb, ◌==◌, some, u16, u32, Bool-cases,
}
use ccsds_file_delivery_prot.Wire.{
  Buffer, Bytes, Endian, at, get32, put32, memcpy, bytes16, bytes32, put, put16,
}
use ccsds_file_delivery_prot.Wire.Access.{
  put32_inside, put32-Outside, get32_of, put16_inside, put16-Outside, Outside,
}
use ccsds_file_delivery_prot.Wire.Order.{memcpy_inside, memcpy_outside}
use ccsds_file_delivery_prot.File.Checksum.Spec.{HasBytes}
use ccsds_file_delivery_prot.Packet.Fields.{
  set_packet_header, set_data_length, get_data_length, set_bits_to_protocol_byte,
}
use ccsds_file_delivery_prot.Packet.Fields.Laws.{
  set_packet_header_outside, get_data_length-set_packet_header,
}
use ccsds_file_delivery_prot.Request.{File}
use ccsds_file_delivery_prot.Reception.{Disk, Port, get_data_offset_from_packet}
use ccsds_file_delivery_prot.Reception.Segment.{IsSegment}
use ccsds_file_delivery_prot.Sending.{get_offset, finish_data_packet, build_data_packet}

-- A disk that can be read: a position below 2 ^ 31 is taken, and as many bytes are read as are there
-- and wanted.
pub record Reads (port : Port) (size : ℕ) : Type 0 where
  pub seeks : (d : Disk) (o : ℕ) → o < 2 ^ 31 → port.ssp_lseek d o ≡ record d { position = o }
  pub reads :
      (d : Disk) (m : Buffer) (i n : ℕ)
      → (let count = min n (size - d.position) in
          port.ssp_read d m i n ≡ (
            some count,
            memcpy m i (at d.contents d.position) count,
            record d { position = d.position + count },
          ))

memcpy-HasBytes :
    (m : Buffer) (i : ℕ) (src : Bytes) (n : ℕ)
    → HasBytes m
    → ((k : ℕ) → src k < 256)
    → HasBytes (memcpy m i src n)
unfolding memcpy
memcpy-HasBytes m i src n h s j = ground (arith, h j, s (j - i))

bytes32-lt : (x k : ℕ) → bytes32 x k < 256
bytes32-lt x zero = omega arith
bytes32-lt x (suc zero) = omega arith
bytes32-lt x (suc (suc zero)) = omega arith
bytes32-lt x (suc (suc (suc k))) = omega arith

bytes16-lt : (x k : ℕ) → bytes16 x k < 256
bytes16-lt x zero = omega arith
bytes16-lt x (suc k) = omega arith

-- Bytes that replace `n` others at `i`.
replaced-HasBytes :
    (m m' : Buffer) (i n : ℕ)
    → HasBytes m
    → ((k : ℕ) → k < n → m'.byte (i + k) < 256)
    → ((j : ℕ) → Outside i n j → m'.byte j ≡ m.byte j)
    → HasBytes m'
replaced-HasBytes m m' i n h inside outside j = elim (Bool-cases (leb i j && ltb j (i + n))) [
  | inl e ↦
      let split : i + (j - i) ≡ j = ground arith in
      subst (λ (j : ℕ). m'.byte j < 256) split (inside (j - i) (ground arith))
  | inr e ↦ omega (arith, h j, outside j (ground arith))
]

set_bits-HasBytes :
    (m : Buffer) (i from to v : ℕ) → HasBytes m → HasBytes (set_bits_to_protocol_byte m i from to v)
unfolding set_bits_to_protocol_byte put
set_bits-HasBytes m i from to v h j = ground (arith, h j)

module _ (host : Endian) where
  put32-HasBytes : (m : Buffer) (i x : ℕ) → HasBytes m → HasBytes (put32 host m i x)
  put32-HasBytes m i x h =
      replaced-HasBytes m (put32 host m i x) i 4 h
        (λ k lt. omega (arith, put32_inside host m i x k lt, bytes32-lt (u32 x) k))
        (λ j out. put32-Outside host m i x j out)

  put16-HasBytes : (m : Buffer) (i x : ℕ) → HasBytes m → HasBytes (put16 host m i x)
  put16-HasBytes m i x h =
      replaced-HasBytes m (put16 host m i x) i 2 h
        (λ k lt. omega (arith, put16_inside host m i x k lt, bytes16-lt (u16 x) k))
        (λ j out. put16-Outside host m i x j out)

  set_packet_header-HasBytes :
      (m : Buffer) (data_len kind : ℕ)
      → HasBytes m
      → HasBytes (set_packet_header host m data_len kind)
  unfolding set_packet_header set_data_length
  set_packet_header-HasBytes m data_len kind h =
      put16-HasBytes (set_bits_to_protocol_byte m 0 3 3 kind) 1 (u16 data_len)
        (set_bits-HasBytes m 0 3 3 kind h)

module _ (host : Endian) (port : Port) (file : File) (disk : Disk) (m : Buffer)
    (start end offset : ℕ) (reads : Reads port file.total_size) (low : 3 ≤ start)
    (room : start + 8 ≤ end) (small : end < 2 ^ 16) (inside : offset + 4 ≤ file.total_size)
    (fits : file.total_size + 2 ^ 16 < 2 ^ 31) where
  abbrev pub count : ℕ
  count = min (end - start - 4) (file.total_size - offset)

  abbrev pub read_in : Buffer
  read_in = memcpy (put32 host m start offset) (start + 4) (at disk.contents offset) count

  abbrev pub built : Buffer
  built = set_packet_header host read_in (count + 4) 1

  get_offset_reads :
      get_offset port file disk (put32 host m start offset) (start + 4) (end - start - 4) offset
      ≡ (some count, read_in, record disk { position = offset + count })
  unfolding get_offset
  get_offset_reads =
      let read : leb file.total_size offset ≡ false = ground arith in
      rw (get_offset, read, reads.seeks disk offset (omega arith)) (reads.reads _ _ _ _)

  finish_data_packet_sends :
      finish_data_packet host (some count) read_in ≡ (some (count + 4), built)
  unfolding finish_data_packet
  finish_data_packet_sends =
      let some_bytes : (count == 0) ≡ false = ground arith in
      let i : u16 (count + 4) ≡ count + 4 = omega arith in
      rw (finish_data_packet, some_bytes, i) refl

  pub build_data_packet_steps :
      build_data_packet host port file disk m start end offset
      ≡ (some (count + 4), built, record disk { position = offset + count })
  unfolding build_data_packet
  build_data_packet_steps =
      let i1 : u32 (u16 (u32 (end + 0x1_0000_0000 - start)) + 0x1_0000_0000 - 4) ≡ end - start - 4 =
        omega arith in
      let i2 : u32 (start + 4) ≡ start + 4 = omega arith in
      rw (build_data_packet, i1, i2, get_offset_reads, finish_data_packet_sends) refl

  built_offset : get32 host built start ≡ offset
  built_offset = get32_of host built start offset (omega arith) λ k lt.
      set_packet_header_outside host read_in (count + 4) 1 (start + k) (omega arith)
      ∙ memcpy_outside (put32 host m start offset) (start + 4) (at disk.contents offset) count
          (start + k) (inl (omega arith))
      ∙ put32_inside host m start offset k lt
      ∙ ap (λ (x : ℕ). bytes32 x k) (omega arith)

  built_length : get_data_length host built ≡ count + 4
  built_length =
      get_data_length-set_packet_header host read_in (count + 4) 1 built (omega arith)
        (λ k lt. refl)

  built_byte : (k : ℕ) → k < count → built.byte (start + 4 + k) ≡ disk.contents.byte (offset + k)
  built_byte k lt =
      set_packet_header_outside host read_in (count + 4) 1 (start + 4 + k) (omega arith)
      ∙ memcpy_inside (put32 host m start offset) (start + 4) (at disk.contents offset) count k lt

  -- A data PDU that the sender builds, where at least four bytes of a file below 2 ^ 31 - 2 ^ 16
  -- are left from the offset and find room, is built with as many bytes as are left and find
  -- room. It holds a segment of the file on its disk as a receiver takes it: its length, its offset,
  -- and the bytes from there on. The buffer and the disk hold bytes, the disk can be read, and the data
  -- start at 3 or later in a buffer shorter than 2 ^ 16.
  pub build_data_packet-IsSegment :
      HasBytes m
      → HasBytes disk.contents
      → (let (len, m', disk') = build_data_packet host port file disk m start end offset in
          (len ≡ some (count + 4))
          × (get_data_offset_from_packet host m' start ≡ offset)
          × (get_data_length host m' ≡ count + 4)
          × IsSegment host disk.contents
              (record { packet = m'; place = start; data_len = get_data_length host m' }))
  unfolding get_data_offset_from_packet
  build_data_packet-IsSegment h source = rw build_data_packet_steps (
    refl,
    built_offset,
    built_length,
    record {
      bytes = set_packet_header-HasBytes host read_in (count + 4) 1 (
          memcpy-HasBytes (put32 host m start offset) (start + 4) (at disk.contents offset) count
            (put32-HasBytes host m start offset h) (λ k. source (offset + k)));
      long = omega (arith, built_length);
      short = omega (arith, built_length);
      low = omega (arith, built_length, built_offset);
      same = λ k lt.
          built_byte k (omega (arith, lt, built_length))
          ∙ ap (λ (o : ℕ). disk.contents.byte (o + k)) (sym built_offset);
    },
  )
