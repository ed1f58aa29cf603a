-- ===== src/File/Checksum/Total.antt =====
-- `calc_check_sum` (filesystem_funcs.c) as a whole, for each length.
use ccsds_file_delivery_prot.Common.{
  ℕ, zero, suc, ◌+◌, ◌-◌, ◌*◌, ◌/◌, ◌%◌, ◌^◌, ◌≤◌, ◌<◌, ◌≡◌, ◌≢◌, refl, ap, ◌∙◌, arith, none, some,
  u8, u32, if◌then◌else◌, ◌==◌,
}
use native.Mathlib.Decide.{ℕ_discrete}
use ccsds_file_delivery_prot.Wire.{Buffer, Endian, put, memset, get32, join32}
use ccsds_file_delivery_prot.File.Checksum.{words_loop, fill_last_chunk, calc_check_sum}
use ccsds_file_delivery_prot.File.Checksum.Spec.{
  HasBytes, word_sum, get32-join32, modular_sum, slice, modular_sum-slice,
}
use ccsds_file_delivery_prot.File.Checksum.Loop.{words_loop-word_sum, words_loop_goes_on}

abbrev clear_chunk : Buffer
clear_chunk = memset (record { byte = λ _. 0 }) 0 0 4

fill_last_chunk-HasBytes :
    (m : Buffer) (from r i : ℕ) (chunk : Buffer)
    → HasBytes chunk
    → HasBytes (fill_last_chunk r m from i chunk)
unfolding fill_last_chunk put
fill_last_chunk-HasBytes m from zero i chunk h = h
fill_last_chunk-HasBytes m from (suc r) i chunk h =
    fill_last_chunk-HasBytes m from r (i + 1) (put chunk i (m.byte (from + i)))
      (λ j. ground (arith, h j))

clear_chunk-HasBytes : HasBytes clear_chunk
unfolding memset
clear_chunk-HasBytes j = ground arith

-- The last chunk is the word that the specification fills up.
last_chunk_word :
    (m : Buffer) (from r : ℕ)
    → HasBytes m
    → r < 4
    → (let b = (fill_last_chunk r m from 0 clear_chunk).byte in join32 (b 0) (b 1) (b 2) (b 3))
      ≡ modular_sum (slice m from r)
unfolding modular_sum slice fill_last_chunk put memset
last_chunk_word m from zero h lt = refl
last_chunk_word m from (suc zero) h lt =
    let e0 : from + 0 ≡ from = omega arith in ground (arith, ap m.byte e0, h from)
last_chunk_word m from (suc (suc zero)) h lt =
    let e0 : from + 0 ≡ from = omega arith in ground (arith, ap m.byte e0, h from, h (from + 1))
last_chunk_word m from (suc (suc (suc zero))) h lt =
    let e0 : from + 0 ≡ from = omega arith in
    let e2 : from + 2 ≡ from + 1 + 1 = omega arith in
    ground (arith, ap m.byte e0, ap m.byte e2, h from, h (from + 1), h (from + 1 + 1))
last_chunk_word m from (suc (suc (suc (suc r)))) h lt = absurd (omega arith)

last_chunk-sum :
    (host : Endian) (m : Buffer) (from r : ℕ)
    → HasBytes m
    → r < 4
    → get32 host (fill_last_chunk r m from 0 clear_chunk) 0 ≡ modular_sum (slice m from r)
last_chunk-sum host m from r h lt =
    get32-join32 host (fill_last_chunk r m from 0 clear_chunk) 0
      (fill_last_chunk-HasBytes m from r 0 clear_chunk clear_chunk-HasBytes)
    ∙ last_chunk_word m from r h lt

-- The bytes that the sum covers: all of them, but for the last word where the length is a multiple
-- of four.
abbrev pub covered_length : ℕ → ℕ
covered_length length = if length % 4 == 0 then length - 4 else length

module _ (host : Endian) (m : Buffer) (h : HasBytes m) (fuel from length : ℕ) (lo : 4 ≤ length)
    (hi : length < 2 ^ 32) (enough : length / 4 < fuel) where
  abbrev words : ℕ
  words = (length - 1) / 4

  loop_result :
      words_loop host fuel m from (u32 (length + 0x1_0000_0000 - 4)) 0 0
      ≡ some (u32 (word_sum m from words))
  loop_result =
      let end : u32 (length + 0x1_0000_0000 - 4) ≡ length - 4 = omega arith in
      let start : from + 0 ≡ from = omega arith in
      let sum : 0 + word_sum m from words ≡ word_sum m from words = omega arith in
      ap (λ (e : ℕ). words_loop host fuel m from e 0 0) end
      ∙ words_loop-word_sum host m h from (length - 4) (omega arith) words fuel 0 0 (omega arith)
          (omega arith) (omega arith) (omega arith)
      ∙ ap (λ (i : ℕ). some (u32 (0 + word_sum m i words))) start
      ∙ ap (λ (x : ℕ). some (u32 x)) sum

  check_sum_aligned :
      length % 4 ≡ 0
      → calc_check_sum host fuel m from length
        ≡ some (u32 (modular_sum (slice m from (covered_length length))))
  unfolding calc_check_sum slice modular_sum
  check_sum_aligned aligned =
      let whole : words * 4 + 0 ≡ covered_length length = ground arith in
      ground (
        arith,
        loop_result,
        ap (λ (n : ℕ). modular_sum (slice m from n)) whole,
        modular_sum-slice m from words 0,
      )

  check_sum_tail :
      length % 4 ≢ 0
      → calc_check_sum host fuel m from length
        ≡ some (u32 (modular_sum (slice m from (covered_length length))))
  unfolding calc_check_sum
  check_sum_tail odd =
      let tail : from + u32 (length + 0x1_0000_0000 - u8 (length % 4)) ≡ from + words * 4 =
        omega arith in
      let whole : words * 4 + length % 4 ≡ covered_length length = ground arith in
      let remaining : u8 (length % 4) ≡ length % 4 = omega arith in
      ground (
        arith,
        loop_result,
        whole,
        ap (λ (n : ℕ). modular_sum (slice m from n)) whole,
        modular_sum-slice m from words (length % 4),
        last_chunk-sum host m (from + words * 4) (length % 4) h,
        ap (λ (i : ℕ). fill_last_chunk (length % 4) m i 0 clear_chunk) tail,
        remaining,
      )

-- For four to 2 ^ 32 - 1 bytes, with more fuel than a quarter of the length, the result is the
-- CFDP checksum, modulo 2 ^ 32, of the bytes that are covered: if the length is a multiple of
-- four the last four bytes are left out.
pub calc_check_sum-modular_sum :
    (host : Endian) (m : Buffer) (fuel from length : ℕ)
    → HasBytes m
    → 4 ≤ length
    → length < 2 ^ 32
    → length / 4 < fuel
    → calc_check_sum host fuel m from length
      ≡ some (u32 (modular_sum (slice m from (covered_length length))))
calc_check_sum-modular_sum host m fuel from length h lo hi enough =
    elim (ℕ_discrete (length % 4) 0) [
      | yes aligned ↦ check_sum_aligned host m h fuel from length lo hi enough aligned
      | no odd ↦ check_sum_tail host m h fuel from length lo hi enough odd
    ]

-- For fewer than four bytes there is no result before 2 ^ 30 rounds of the loop over words:
-- `length - 4` wraps around, and the loop runs on behind the data.
pub calc_check_sum_short :
    (host : Endian) (m : Buffer) (fuel from length : ℕ)
    → length < 4
    → fuel < 2 ^ 30
    → calc_check_sum host fuel m from length ≡ none
unfolding calc_check_sum
calc_check_sum_short host m fuel from length short few = ground (
  arith,
  words_loop_goes_on host m from (u32 (length + 0x1_0000_0000 - 4)) fuel 0 0 (omega arith)
      (omega arith),
)
