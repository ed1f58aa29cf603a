-- ===== src/Wire/Order.antt =====
-- Copies of bytes, and integers in the byte order of the host and of the network.
use ccsds_file_delivery_prot.Common.{
  ℕ, zero, suc, ◌+◌, ◌-◌, ◌/◌, ◌%◌, ◌^◌, ◌≤◌, ◌<◌, bit_or_fields, ◌≡◌, refl, ◌∙◌, sym, ap, ◌⊎◌,
  arith,
}
use native.Mathlib.Decide.{dec_lt}
use ccsds_file_delivery_prot.Wire.{
  Buffer, Bytes, Endian, little, big, memcpy, bytes16, bytes32, bytes64, join64, store16, store32,
  store64, htons, htonl, htonll,
}

-- A copy puts the source's bytes into its range, and keeps all others.
pub memcpy_inside :
    (m : Buffer) (i : ℕ) (src : Bytes) (n k : ℕ) → k < n → (memcpy m i src n).byte (i + k) ≡ src k
unfolding memcpy
memcpy_inside m i src n k h = let e : i + k - i ≡ k = omega arith in ground (arith, ap src e)

pub memcpy_outside :
    (m : Buffer) (i : ℕ) (src : Bytes) (n j : ℕ)
    → (j < i) ⊎ (i + n ≤ j)
    → (memcpy m i src n).byte j ≡ m.byte j
unfolding memcpy
memcpy_outside m i src n j h = ground arith

module _ (host : Endian) where
  pub store16-htons : (x k : ℕ) → x < 2 ^ 16 → k < 2 → store16 host (htons host x) k ≡ bytes16 x k
  unfolding store16 htons
  store16-htons x zero hx hk = ground arith
  store16-htons x (suc zero) hx hk = ground arith
  store16-htons x (suc (suc k)) hx hk = absurd (omega arith)

  pub store32-htonl : (x k : ℕ) → x < 2 ^ 32 → k < 4 → store32 host (htonl host x) k ≡ bytes32 x k
  unfolding store32 htonl
  store32-htonl x zero hx hk = ground arith
  store32-htonl x (suc zero) hx hk = ground arith
  store32-htonl x (suc (suc zero)) hx hk = ground arith
  store32-htonl x (suc (suc (suc zero))) hx hk = ground arith
  store32-htonl x (suc (suc (suc (suc k)))) hx hk = absurd (omega arith)

  pub htonl-lt : (x : ℕ) → x < 2 ^ 32 → htonl host x < 2 ^ 32
  unfolding htonl
  htonl-lt x h = ground arith

-- The macro on a little-endian host swaps the halves, and on a big-endian one does nothing.
pub htonll_little :
    (x : ℕ)
    → x < 2 ^ 64
    → htonll little x ≡ join64 (htonl little (x % 2 ^ 32)) (htonl little (x / 2 ^ 32))
unfolding htonll
htonll_little x h =
    let hi : htonl little (x / 2 ^ 32) < 2 ^ 32 = htonl-lt little (x / 2 ^ 32) (omega arith) in
    let lo : htonl little (x % 2 ^ 32) < 2 ^ 32 = htonl-lt little (x % 2 ^ 32) (omega arith) in
    ground (
      arith,
      bit_or_fields 32 (htonl little (x % 2 ^ 32)) (htonl little (x / 2 ^ 32)) hi,
      one_swapped,
    )
  where
    one_swapped : htonl little 1 ≡ 0x1_000000
    one_swapped = unfold htonl in refl

pub htonll_big : (x : ℕ) → htonll big x ≡ x
unfolding htonll htonl
htonll_big x = refl

module _ (a b : ℕ) (ha : a < 2 ^ 32) (hb : b < 2 ^ 32) where
  store64_upper : (k : ℕ) → k < 4 → store64 little (join64 a b) (4 + k) ≡ store32 little a k
  unfolding store64 store32
  store64_upper zero h = ground arith
  store64_upper (suc zero) h = ground arith
  store64_upper (suc (suc zero)) h = ground arith
  store64_upper (suc (suc (suc zero))) h = ground arith
  store64_upper (suc (suc (suc (suc k)))) h = absurd (omega arith)

  store64_lower : (k : ℕ) → k < 4 → store64 little (join64 a b) k ≡ store32 little b k
  unfolding store64 store32
  store64_lower zero h = ground arith
  store64_lower (suc zero) h = ground arith
  store64_lower (suc (suc zero)) h = ground arith
  store64_lower (suc (suc (suc zero))) h = ground arith
  store64_lower (suc (suc (suc (suc k)))) h = absurd (omega arith)

bytes64_lower : (x k : ℕ) → k < 4 → bytes64 x (4 + k) ≡ bytes32 (x % 2 ^ 32) k
bytes64_lower x zero h = omega arith
bytes64_lower x (suc zero) h = omega arith
bytes64_lower x (suc (suc zero)) h = omega arith
bytes64_lower x (suc (suc (suc zero))) h = omega arith
bytes64_lower x (suc (suc (suc (suc k)))) h = absurd (omega arith)

bytes64_upper : (x k : ℕ) → x < 2 ^ 64 → k < 4 → bytes64 x k ≡ bytes32 (x / 2 ^ 32) k
bytes64_upper x zero hx h = omega arith
bytes64_upper x (suc zero) hx h = omega arith
bytes64_upper x (suc (suc zero)) hx h = omega arith
bytes64_upper x (suc (suc (suc zero))) hx h = omega arith
bytes64_upper x (suc (suc (suc (suc k)))) hx h = absurd (omega arith)

module _ (x : ℕ) (h : x < 2 ^ 64) where
  halves_lt : (htonl little (x % 2 ^ 32) < 2 ^ 32) × (htonl little (x / 2 ^ 32) < 2 ^ 32)
  halves_lt = (htonl-lt little _ (omega arith), htonl-lt little _ (omega arith))

  pub store64-htonll :
      (host : Endian) (k : ℕ) → k < 8 → store64 host (htonll host x) k ≡ bytes64 x k
  store64-htonll big k hk = rw (htonll_big x) (unfold store64 in refl)
  store64-htonll little k hk = elim (dec_lt k 4) [
    | yes p ↦ rw (htonll_little x h) (
        store64_lower _ _ halves_lt.0 halves_lt.1 k p
        ∙ store32-htonl little (x / 2 ^ 32) k (omega arith) p
        ∙ sym (bytes64_upper x k h p))
    | no q ↦
        let low : k - 4 < 4 = omega arith in
        let e : k ≡ 4 + (k - 4) = omega arith in
        rw (htonll_little x h, e)
          (store64_upper _ _ halves_lt.0 halves_lt.1 (k - 4) low
            ∙ store32-htonl little (x % 2 ^ 32) (k - 4) (omega arith) low
            ∙ sym (bytes64_lower x (k - 4) low))
  ]
