-- ===== src/Sending.antt =====
-- packet.c and filesystem_funcs.c: how a data PDU is made from the file on disk.
pub mod Segment
use ccsds_file_delivery_prot.Common.{
  ℕ, ◌+◌, ◌-◌, ◌==◌, leb, if◌then◌else◌, Bool, Option, none, some, u16, u32,
}
use ccsds_file_delivery_prot.Wire.{Buffer, Endian, put32}
use ccsds_file_delivery_prot.Packet.Fields.{set_packet_header}
use ccsds_file_delivery_prot.Packet.Directives.{data_pdu}
use ccsds_file_delivery_prot.Request.{File}
use ccsds_file_delivery_prot.Reception.{Disk, Port}

-- `none` is -1. A seek that fails is only reported.
unfoldable pub get_offset : Port → File → Disk → Buffer → ℕ → ℕ → ℕ → Option ℕ × Buffer × Disk
get_offset port file disk m i buf_size offset =
    if leb file.total_size offset
    then (none, m, disk)
    else port.ssp_read (port.ssp_lseek disk offset) m i buf_size

-- What is done with the number of bytes that were read.
unfoldable pub finish_data_packet : Endian → Option ℕ → Buffer → Option ℕ × Buffer
finish_data_packet host none m = (none, m)
finish_data_packet host (some bytes) m =
    if bytes == 0
    then (none, m)
    else let data_len = u16 (bytes + 4) in
      (some data_len, set_packet_header host m data_len data_pdu)

unfoldable pub build_data_packet :
    Endian → Port → File → Disk → Buffer → ℕ → ℕ → ℕ → Option ℕ × Buffer × Disk
build_data_packet host port file disk m start end offset =
    let data_size = u16 (u32 (end + 0x1_0000_0000 - start)) in
    let m = put32 host m start offset in
    let packet_index = u32 (start + 4) in
    let (bytes, m, disk) =
      get_offset port file disk m packet_index (u32 (data_size + 0x1_0000_0000 - 4)) offset in
    let (len, m) = finish_data_packet host bytes m in (len, m, disk)
