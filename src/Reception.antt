-- ===== src/Reception.antt =====
-- protocol_handler.c and filesystem_funcs.c: how a data PDU gets into the file on disk. The calls of
-- the operating system are arguments.
pub mod Segment
pub mod Delivery
use ccsds_file_delivery_prot.Common.{
  ℕ, ◌+◌, ◌-◌, ◌==◌, if◌then◌else◌, Bool, true, false, Option, none, some, u32, List, [], ◌∷◌,
}
use ccsds_file_delivery_prot.Wire.{Buffer, Bytes, Endian, at, get32}
use ccsds_file_delivery_prot.File.Missing.{
  Received, refused, taken, no_memory, Alloc, receive_offset,
}
use ccsds_file_delivery_prot.File.Checksum.{calc_check_sum}
use ccsds_file_delivery_prot.Request.{File}

-- The file that a descriptor stands for, and its position.
pub record Disk : Type 0 where
  pub contents : Buffer
  pub position : ℕ

-- `ssp_lseek` gets the 32 bits of the offset, which are those of an `int`; the result of
-- `ssp_write` is `none` for -1, and so is that of `ssp_read`, which is given the memory and the place
-- where the bytes go.
pub record Port : Type 0 where
  pub ssp_lseek : Disk → ℕ → Disk
  pub ssp_write : Disk → Bytes → ℕ → Option ℕ × Disk
  pub ssp_read : Disk → Buffer → ℕ → ℕ → Option ℕ × Buffer × Disk

pub record Reception : Type 0 where
  pub file : File
  pub disk : Disk

-- Whether `receive_offset` returned 0.
abbrev pub is_refused : Received → Bool
is_refused refused = true
is_refused taken = false
is_refused no_memory = false

unfoldable pub write_offset : Port → Disk → Bytes → ℕ → ℕ → Option ℕ × Disk
write_offset port disk buff size offset = port.ssp_write (port.ssp_lseek disk offset) buff size

unfoldable pub get_data_offset_from_packet : Endian → Buffer → ℕ → ℕ
get_data_offset_from_packet host m i = get32 host m i

module _ (host : Endian) (port : Port) (fuel : ℕ) (alloc : Alloc) where
  -- The number of bytes written, summed up; `none` if the fuel of the sum runs out.
  unfoldable pub add_check_sum : Buffer → ℕ → Option ℕ → Reception → Option Reception
  add_check_sum packet from none r = some r
  add_check_sum packet from (some bytes) r =
      if bytes == 0 then some r else elim (calc_check_sum host fuel packet from bytes) [
        | none ↦ none
        | some sum ↦ some (record r {
          file = record r.file { partial_checksum = u32 (r.file.partial_checksum + sum) };
        })
      ]

  -- The data field of `data_len` bytes stands at `i`.
  unfoldable pub process_data_packet : Buffer → ℕ → ℕ → Reception → Option Reception
  process_data_packet packet i data_len r =
      let offset_start = get_data_offset_from_packet host packet i in
      let packet_index : ℕ = 4 in
      let offset_end = u32 (offset_start + data_len + 0x1_0000_0000 - packet_index) in
      let (received, missing) =
        receive_offset alloc r.file.missing_offsets offset_start offset_end in
      let r : Reception = record r { file = record r.file { missing_offsets = missing } } in
      if is_refused received
      then some r
      else let remaining_buffer_length = u32 (data_len + 0x1_0000_0000 - packet_index) in
        let (bytes, disk) =
          write_offset port r.disk (at packet (i + packet_index)) remaining_buffer_length
            offset_start in
        add_check_sum packet (i + packet_index) bytes (record r { disk = disk })

  -- A file that is NULL is not written.
  unfoldable pub process_data : Buffer → ℕ → ℕ → Option File → Disk → Option (Option File × Disk)
  process_data packet i data_len none disk = some (none, disk)
  process_data packet i data_len (some file) disk =
      elim (process_data_packet packet i data_len (record { file = file; disk = disk })) [
        | none ↦ none
        | some r ↦ some (some r.file, r.disk)
      ]

-- A data PDU as it arrives: a packet, the place and the length of its data field.
pub record Arrival : Type 0 where
  pub packet : Buffer
  pub place : ℕ
  pub data_len : ℕ

-- Data PDUs that arrive one after the other.
unfoldable pub receive_packets :
    Endian → Port → ℕ → Alloc → List Arrival → Reception → Option Reception
receive_packets host port fuel alloc [] r = some r
receive_packets host port fuel alloc (a ∷ rest) r =
    elim (process_data_packet host port fuel alloc a.packet a.place a.data_len r) [
      | none ↦ none
      | some r ↦ receive_packets host port fuel alloc rest r
    ]
