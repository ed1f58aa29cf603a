-- ===== src/File/Checksum/Spec.antt =====
-- The checksum of CFDP: the sum of the words of four bytes, most significant first, where the last
-- word is filled up with zeros.
use ccsds_file_delivery_prot.Common.{ℕ, zero, suc, ◌+◌, ◌*◌, ◌<◌, ◌≡◌, ap, arith, List, [], ◌∷◌}
use ccsds_file_delivery_prot.Wire.{Buffer, Endian, join32, get32, htonl, load32}

unfoldable pub modular_sum : List ℕ → ℕ
modular_sum [] = 0
modular_sum (a ∷ []) = join32 a 0 0 0
modular_sum (a ∷ b ∷ []) = join32 a b 0 0
modular_sum (a ∷ b ∷ c ∷ []) = join32 a b c 0
modular_sum (a ∷ b ∷ c ∷ d ∷ rest) = join32 a b c d + modular_sum rest

-- The `n` bytes at `from`.
unfoldable pub slice : Buffer → ℕ → ℕ → List ℕ
slice m from zero = []
slice m from (suc n) = m.byte from ∷ slice m (from + 1) n

abbrev pub HasBytes : Buffer → Type 0
HasBytes m = (i : ℕ) → m.byte i < 256

-- The words before the last one.
unfoldable pub word_sum : Buffer → ℕ → ℕ → ℕ
word_sum m from zero = 0
word_sum m from (suc k) =
    join32 (m.byte from) (m.byte (from + 1)) (m.byte (from + 1 + 1)) (m.byte (from + 1 + 1 + 1))
    + word_sum m (from + 1 + 1 + 1 + 1) k

pub modular_sum-slice :
    (m : Buffer) (from k r : ℕ)
    → modular_sum (slice m from (k * 4 + r))
      ≡ word_sum m from k + modular_sum (slice m (from + k * 4) r)
unfolding modular_sum slice word_sum
modular_sum-slice m from zero r =
    let e : from + zero * 4 ≡ from = omega arith in
    let e' : zero * 4 + r ≡ r = omega arith in rw (e, e') (omega arith)
modular_sum-slice m from (suc k) r =
    let four : suc k * 4 + r ≡ suc (suc (suc (suc (k * 4 + r)))) = omega arith in
    let behind : from + suc k * 4 ≡ from + 1 + 1 + 1 + 1 + k * 4 = omega arith in
    rw (four, behind) (omega (arith, modular_sum-slice m (from + 1 + 1 + 1 + 1) k r))

-- A host reads a word most significant byte first.
pub get32-join32 :
    (host : Endian) (m : Buffer) (i : ℕ)
    → HasBytes m
    → get32 host m i
      ≡ join32 (m.byte i) (m.byte (i + 1)) (m.byte (i + 1 + 1)) (m.byte (i + 1 + 1 + 1))
unfolding get32 htonl load32
get32-join32 host m i h =
    let e0 : i + 0 ≡ i = omega arith in
    let e2 : i + 2 ≡ i + 1 + 1 = omega arith in
    let e3 : i + 3 ≡ i + 1 + 1 + 1 = omega arith in
    ground (
      arith,
      ap m.byte e0,
      ap m.byte e2,
      ap m.byte e3,
      h i,
      h (i + 1),
      h (i + 1 + 1),
      h (i + 1 + 1 + 1),
    )
