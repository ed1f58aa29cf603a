-- ===== src/File/Checksum.antt =====
-- filesystem_funcs.c: `calc_check_sum`. The data stand at an offset of some memory.
pub mod Spec
pub mod Loop
pub mod Total
use ccsds_file_delivery_prot.Common.{
  ℕ, zero, suc, ◌+◌, ◌-◌, ◌%◌, ltb, ◌==◌, if◌then◌else◌, Option, none, some, u8, u32,
}
use ccsds_file_delivery_prot.Wire.{Buffer, Endian, put, memset, get32}

-- `last_chunk[i] = data[end + i]` for the `n` rounds that are left.
unfoldable pub fill_last_chunk : ℕ → Buffer → ℕ → ℕ → Buffer → Buffer
fill_last_chunk zero m end i chunk = chunk
fill_last_chunk (suc n) m end i chunk =
    fill_last_chunk n m end (i + 1) (put chunk i (m.byte (end + i)))

module _ (host : Endian) where
  -- The loop over whole words; `none` if it has not ended when the fuel has.
  unfoldable pub words_loop : ℕ → Buffer → ℕ → ℕ → ℕ → ℕ → Option ℕ
  words_loop zero m from end i check_sum = none
  words_loop (suc fuel) m from end i check_sum =
      let bytes_to_add = get32 host m (from + i) in
      let rest = words_loop fuel m from end (u32 (i + 4)) (u32 (check_sum + bytes_to_add)) in
      if ltb i end then rest else some check_sum

  -- The checksum of the `length` bytes at `from`.
  unfoldable pub calc_check_sum : ℕ → Buffer → ℕ → ℕ → Option ℕ
  unfolding words_loop fill_last_chunk
  calc_check_sum fuel m from length =
      let remaining_bytes = u8 (length % 4) in
      let end = u32 (length + 0x1_0000_0000 - 4) in
      elim (words_loop fuel m from end 0 0) [
        | none ↦ none
        | some check_sum ↦
            let clear = memset (record { byte = λ _. 0 }) 0 0 4 in
            let tail = u32 (length + 0x1_0000_0000 - remaining_bytes) in
            let last_chunk = fill_last_chunk remaining_bytes m (from + tail) 0 clear in
            if remaining_bytes == 0
            then some check_sum
            else some (u32 (check_sum + get32 host last_chunk 0))
      ]
