-- ===== src/Packet/Ids.antt =====
-- packet.c: entity ids and transaction numbers of 1, 2, 4 or 8 bytes, bare and with a length byte.
pub mod RoundTrip
pub mod LengthValue
use ccsds_file_delivery_prot.Common.{
  ℕ, ◌+◌, Bool, ltb, ◌==◌, if◌then◌else◌, Option, none, some, u8, u16, u32, u64,
}
use ccsds_file_delivery_prot.Wire.{Buffer, Endian, put, put16, put32, put64, get16, get32, get64}

-- `uint64_t error = -1`.
abbrev pub error_id : ℕ
error_id = 0xffff_ffff_ffff_ffff

module _ (host : Endian) where
  -- The length that was written at `&m[i]`; `none` is the -1 of an id that is too large.
  unfoldable pub copy_id_to_packet : Buffer → ℕ → ℕ → Option ℕ × Buffer
  copy_id_to_packet m i id =
      if ltb id 0xff
      then (some 1, put m i (u8 id))
      else if ltb id 0xffff
      then (some 2, put16 host m i (u16 id))
      else if ltb id 0xff_ffff
      then (some 4, put32 host m i (u32 id))
      else if ltb id 0xffff_ffff
      then (some 8, put64 host m i id)
      else (none, m)

  -- The -1 of an unsupported length is returned as a `uint64_t`.
  unfoldable pub copy_id_from_packet : Buffer → ℕ → ℕ → ℕ
  copy_id_from_packet m i length_of_ids =
      if length_of_ids == 8
      then get64 host m i
      else if length_of_ids == 4
      then get32 host m i
      else if length_of_ids == 2
      then get16 host m i
      else if length_of_ids == 1
      then u8 (m.byte i)
      else error_id

  unfoldable pub copy_id_lv_to_packet : Buffer → ℕ → ℕ → Option ℕ × Buffer
  unfolding copy_id_to_packet
  copy_id_lv_to_packet m i id =
      let (written, m') = copy_id_to_packet m (i + 1) id in
      elim written [ none ↦ (none, m') | some len ↦ (some (len + 1), put m' i len) ]

  -- The length and the id; `none` is the -1, after which `*id` stands as before.
  unfoldable pub copy_id_lv_from_packet : Buffer → ℕ → Option (ℕ × ℕ)
  unfolding copy_id_from_packet
  copy_id_lv_from_packet m i =
      let len = u8 (m.byte i) in
      let id_recv = copy_id_from_packet m (i + 1) len in
      if id_recv == error_id then none else some (len, id_recv)
