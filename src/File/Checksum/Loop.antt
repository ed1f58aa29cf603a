-- ===== src/File/Checksum/Loop.antt =====
-- The loop over words of `calc_check_sum` (filesystem_funcs.c).
use ccsds_file_delivery_prot.Common.{
  ℕ, zero, suc, ◌+◌, ◌*◌, ◌^◌, ◌≤◌, ◌<◌, ◌≡◌, refl, ap, arith, none, some, u32,
}
use ccsds_file_delivery_prot.Wire.{Buffer, Endian, get32}
use ccsds_file_delivery_prot.File.Checksum.{words_loop}
use ccsds_file_delivery_prot.File.Checksum.Spec.{HasBytes, word_sum, get32-join32}

module _ (host : Endian) (m : Buffer) (bytes : HasBytes m) (from end : ℕ)
    (fits : end + 4 < 2 ^ 32) where
  pub words_loop-word_sum :
      (k fuel i check_sum : ℕ)
      → k < fuel
      → i + k * 4 < end + 4
      → end ≤ i + k * 4
      → check_sum < 2 ^ 32
      → words_loop host fuel m from end i check_sum
        ≡ some (u32 (check_sum + word_sum m (from + i) k))
  unfolding words_loop word_sum
  words_loop-word_sum k zero i c hk below above hc = absurd (omega arith)
  words_loop-word_sum zero (suc fuel) i c hk below above hc = ground arith
  words_loop-word_sum (suc k) (suc fuel) i c hk below above hc =
      let w = get32-join32 host m (from + i) bytes in
      let next : u32 (i + 4) ≡ i + 4 = omega arith in
      let behind : from + (i + 4) ≡ from + i + 1 + 1 + 1 + 1 = omega arith in
      let ih =
        words_loop-word_sum k fuel (i + 4) (u32 (c + get32 host m (from + i))) (omega arith)
          (omega arith) (omega arith) (omega arith) in
      ground (
        arith,
        w,
        ih,
        ap (λ (j : ℕ). words_loop host fuel m from end j (u32 (c + get32 host m (from + i)))) next,
        ap (λ (j : ℕ). word_sum m j k) behind,
      )

-- While `i` is below `end` the loop goes on: it needs more than a quarter of `end` in rounds.
pub words_loop_goes_on :
    (host : Endian) (m : Buffer) (from end fuel i check_sum : ℕ)
    → i + fuel * 4 ≤ end
    → end < 2 ^ 32
    → words_loop host fuel m from end i check_sum ≡ none
unfolding words_loop
words_loop_goes_on host m from end zero i c le lt = refl
words_loop_goes_on host m from end (suc fuel) i c le lt =
    let next : u32 (i + 4) ≡ i + 4 = omega arith in
    let ih =
      words_loop_goes_on host m from end fuel (u32 (i + 4)) (u32 (c + get32 host m (from + i)))
        (omega arith) lt in
    ground (arith, ih)
