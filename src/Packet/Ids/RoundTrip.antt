-- ===== src/Packet/Ids/RoundTrip.antt =====
-- `copy_id_to_packet`, then `copy_id_from_packet` (packet.c).
use ccsds_file_delivery_prot.Common.{
  ℕ, ◌+◌, ◌<◌, ◌≡◌, ap, arith, some, ltb, u8, u16, u32, if◌then◌else◌,
}
use native.Mathlib.Nat.{add-zero}
use ccsds_file_delivery_prot.Wire.{Buffer, Bytes, Endian, bytes16, bytes32, bytes64}
use ccsds_file_delivery_prot.Wire.Access.{
  Outside, Holds, put_inside, put-Outside, put16_inside, put32_inside, put64_inside, put16-Outside,
  put32-Outside, put64-Outside, get16_of, get32_of, get64_of,
}
use ccsds_file_delivery_prot.Packet.Ids.{copy_id_to_packet, copy_id_from_packet}

-- The number of bytes that an id takes.
abbrev pub id_length : ℕ → ℕ
id_length id =
    if ltb id 0xff then 1 else if ltb id 0xffff then 2 else if ltb id 0xff_ffff then 4 else 8

-- Those bytes, most significant first.
abbrev pub id_bytes : ℕ → Bytes
id_bytes id k =
    if ltb id 0xff
    then id
    else if ltb id 0xffff
    then bytes16 id k
    else if ltb id 0xff_ffff
    then bytes32 id k
    else bytes64 id k

module _ (host : Endian) where
  pub copy_id_to_packet_length :
      (m : Buffer) (i id : ℕ)
      → id < 0xffff_ffff
      → (copy_id_to_packet host m i id).0 ≡ some (id_length id)
  unfolding copy_id_to_packet
  copy_id_to_packet_length m i id h = ground arith

  pub copy_id_to_packet-Outside :
      (m : Buffer) (i id j : ℕ)
      → Outside i (id_length id) j
      → (copy_id_to_packet host m i id).1.byte j ≡ m.byte j
  unfolding copy_id_to_packet
  copy_id_to_packet-Outside m i id j h = ground (
    arith,
    put-Outside m i (u8 id) j,
    put16-Outside host m i (u16 id) j,
    put32-Outside host m i (u32 id) j,
    put64-Outside host m i id j,
  )

  -- It writes the id's bytes, whatever the host.
  pub copy_id_to_packet_inside :
      (m : Buffer) (i id k : ℕ)
      → id < 0xffff_ffff
      → k < id_length id
      → (copy_id_to_packet host m i id).1.byte (i + k) ≡ id_bytes id k
  unfolding copy_id_to_packet
  copy_id_to_packet_inside m i id k h hk = ground (
    arith,
    put_inside m i (u8 id) k,
    put16_inside host m i (u16 id) k,
    put32_inside host m i (u32 id) k,
    put64_inside host m i id k,
  )

  -- An id is read from any memory that holds its bytes.
  pub copy_id_from_packet_of :
      (m : Buffer) (i id : ℕ)
      → id < 0xffff_ffff
      → Holds (id_length id) (id_bytes id) m i
      → copy_id_from_packet host m i (id_length id) ≡ id
  unfolding copy_id_from_packet
  copy_id_from_packet_of m i id h same = ground (
    arith,
    same 0,
    ap m.byte (add-zero i),
    get16_of host m i id,
    get32_of host m i id,
    get64_of host m i id,
  )
