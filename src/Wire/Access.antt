-- ===== src/Wire/Access.antt =====
-- Reading and writing integers at an offset: what a write leaves there, what it leaves alone, and
-- that a read gives back what a write put there.
use ccsds_file_delivery_prot.Common.{
  zero, suc, ℕ, ◌+◌, ◌/◌, ◌%◌, ◌^◌, ◌≤◌, ◌<◌, ◌≡◌, ◌∙◌, ap, ◌⊎◌, arith, u8, u16, u32, u64,
}
use ccsds_file_delivery_prot.Wire.{
  join16, join32, Buffer, Bytes, Endian, little, big, put, at, bytes16, bytes32, bytes64, load16,
  load32, load64, htons, htonl, htonll, put16, put32, put64, get16, get32, get64,
}
use ccsds_file_delivery_prot.Wire.Order.{
  memcpy_inside, memcpy_outside, store16-htons, store32-htonl, store64-htonll, htonll_little,
  htonll_big,
}

-- `j` does not lie in the `n` bytes from `i` on.
abbrev pub Outside : ℕ → ℕ → ℕ → Type 0
Outside i n j = (j < i) ⊎ (i + n ≤ j)

-- The `n` bytes from `i` on are those of `b`.
abbrev pub Holds : ℕ → Bytes → Buffer → ℕ → Type 0
Holds n b m i = (k : ℕ) → k < n → m.byte (i + k) ≡ b k

pub put_here : (m : Buffer) (i v : ℕ) → (put m i v).byte i ≡ u8 v
unfolding put
put_here m i v = ground arith

pub put_inside : (m : Buffer) (i v k : ℕ) → k < 1 → (put m i v).byte (i + k) ≡ u8 v
unfolding put
put_inside m i v k h = ground arith

pub put-Outside : (m : Buffer) (i v j : ℕ) → Outside i 1 j → (put m i v).byte j ≡ m.byte j
unfolding put
put-Outside m i v j h = ground arith

module _ (host : Endian) where
  pub put16_inside :
      (m : Buffer) (i x k : ℕ) → k < 2 → (put16 host m i x).byte (i + k) ≡ bytes16 (u16 x) k
  unfolding put16
  put16_inside m i x k h = memcpy_inside m i _ 2 k h ∙ store16-htons host (u16 x) k (omega arith) h

  pub put32_inside :
      (m : Buffer) (i x k : ℕ) → k < 4 → (put32 host m i x).byte (i + k) ≡ bytes32 (u32 x) k
  unfolding put32
  put32_inside m i x k h = memcpy_inside m i _ 4 k h ∙ store32-htonl host (u32 x) k (omega arith) h

  pub put64_inside :
      (m : Buffer) (i x k : ℕ) → k < 8 → (put64 host m i x).byte (i + k) ≡ bytes64 (u64 x) k
  unfolding put64
  put64_inside m i x k h = memcpy_inside m i _ 8 k h ∙ store64-htonll (u64 x) (omega arith) host k h

  pub put16-Outside :
      (m : Buffer) (i x j : ℕ) → Outside i 2 j → (put16 host m i x).byte j ≡ m.byte j
  unfolding put16
  put16-Outside m i x j h = memcpy_outside m i _ 2 j h

  pub put32-Outside :
      (m : Buffer) (i x j : ℕ) → Outside i 4 j → (put32 host m i x).byte j ≡ m.byte j
  unfolding put32
  put32-Outside m i x j h = memcpy_outside m i _ 4 j h

  pub put64-Outside :
      (m : Buffer) (i x j : ℕ) → Outside i 8 j → (put64 host m i x).byte j ≡ m.byte j
  unfolding put64
  put64-Outside m i x j h = memcpy_outside m i _ 8 j h

  -- A read takes the bytes most significant first.
  pub get16_of : (m : Buffer) (i x : ℕ) → x < 2 ^ 16 → Holds 2 (bytes16 x) m i → get16 host m i ≡ x
  unfolding get16 htons load16
  get16_of m i x hx a = ground (arith, a 0 (omega arith), a 1 (omega arith))

  pub get32_of : (m : Buffer) (i x : ℕ) → x < 2 ^ 32 → Holds 4 (bytes32 x) m i → get32 host m i ≡ x
  unfolding get32 htonl load32
  get32_of m i x hx a =
      ground (arith, a 0 (omega arith), a 1 (omega arith), a 2 (omega arith), a 3 (omega arith))

-- What a host loads from the bytes of `x`, it swaps to `x`.
htonll-load64_little :
    (b : Bytes) (x : ℕ)
    → x < 2 ^ 64
    → ((k : ℕ) → k < 8 → b k ≡ bytes64 x k)
    → (load64 little b % 2 ^ 32 ≡ htonl little (x / 2 ^ 32))
      × (load64 little b / 2 ^ 32 ≡ htonl little (x % 2 ^ 32))
unfolding load64 htonl
htonll-load64_little b x hx a =
    let e0 = a 0 (omega arith) in
    let e1 = a 1 (omega arith) in
    let e2 = a 2 (omega arith) in
    let e3 = a 3 (omega arith) in
    let e4 = a 4 (omega arith) in
    let e5 = a 5 (omega arith) in
    let e6 = a 6 (omega arith) in
    let e7 = a 7 (omega arith) in rw (e0, e1, e2, e3, e4, e5, e6, e7) (omega arith, omega arith)

htonl-htonl_little : (x : ℕ) → x < 2 ^ 32 → htonl little (htonl little x) ≡ x
unfolding htonl
htonl-htonl_little x h = omega arith

get64_of_little :
    (b : Bytes) (x : ℕ)
    → x < 2 ^ 64
    → ((k : ℕ) → k < 8 → b k ≡ bytes64 x k)
    → load64 little b < 2 ^ 64
    → htonll little (load64 little b) ≡ x
get64_of_little b x hx a hb =
    let (lo, hi) = htonll-load64_little b x hx a in
    htonll_little (load64 little b) hb
    ∙ omega (
      arith,
      ap (htonl little) lo,
      ap (htonl little) hi,
      htonl-htonl_little (x / 2 ^ 32) (omega arith),
      htonl-htonl_little (x % 2 ^ 32) (omega arith),
    )

load64_little-lt :
    (b : Bytes) (x : ℕ) → ((k : ℕ) → k < 8 → b k ≡ bytes64 x k) → load64 little b < 2 ^ 64
unfolding load64
load64_little-lt b x a =
    let e0 = a 0 (omega arith) in
    let e1 = a 1 (omega arith) in
    let e2 = a 2 (omega arith) in
    let e3 = a 3 (omega arith) in
    let e4 = a 4 (omega arith) in
    let e5 = a 5 (omega arith) in
    let e6 = a 6 (omega arith) in
    let e7 = a 7 (omega arith) in rw (e0, e1, e2, e3, e4, e5, e6, e7) (omega arith)

load64_big :
    (b : Bytes) (x : ℕ) → x < 2 ^ 64 → ((k : ℕ) → k < 8 → b k ≡ bytes64 x k) → load64 big b ≡ x
unfolding load64
load64_big b x hx a =
    let e0 = a 0 (omega arith) in
    let e1 = a 1 (omega arith) in
    let e2 = a 2 (omega arith) in
    let e3 = a 3 (omega arith) in
    let e4 = a 4 (omega arith) in
    let e5 = a 5 (omega arith) in
    let e6 = a 6 (omega arith) in
    let e7 = a 7 (omega arith) in rw (e0, e1, e2, e3, e4, e5, e6, e7) (omega arith)

pub get64_of :
    (host : Endian) (m : Buffer) (i x : ℕ)
    → x < 2 ^ 64
    → Holds 8 (bytes64 x) m i
    → get64 host m i ≡ x
unfolding get64
get64_of little m i x hx a = get64_of_little (at m i) x hx a (load64_little-lt (at m i) x a)
get64_of big m i x hx a = htonll_big _ ∙ load64_big (at m i) x hx a

-- Memories that agree on the bytes of an integer give the same integer.
pub get32_cong :
    (host : Endian) (m m' : Buffer) (i : ℕ)
    → Holds 4 (at m' i) m i
    → get32 host m i ≡ get32 host m' i
unfolding get32 load32
get32_cong little m m' i a =
    let e0 = a 0 (omega arith) in
    let e1 = a 1 (omega arith) in
    let e2 = a 2 (omega arith) in let e3 = a 3 (omega arith) in rw (e0, e1, e2, e3)
get32_cong big m m' i a =
    let e0 = a 0 (omega arith) in
    let e1 = a 1 (omega arith) in
    let e2 = a 2 (omega arith) in let e3 = a 3 (omega arith) in rw (e0, e1, e2, e3)

-- What is read from bytes does not depend on the host.
module _ (host : Endian) (m : Buffer) (i : ℕ) (small : (j : ℕ) → m.byte j < 256) where
  byte_here : m.byte (i + 0) ≡ m.byte i
  byte_here = ap m.byte (omega arith)

  Holds-join16 : Holds 2 (bytes16 (join16 (m.byte i) (m.byte (i + 1)))) m i
  Holds-join16 zero h = omega (arith, byte_here, small i, small (i + 1))
  Holds-join16 (suc zero) h = omega (arith, small i, small (i + 1))
  Holds-join16 (suc (suc k)) h = absurd (omega (arith, h))

  pub get16-join16 : get16 host m i ≡ join16 (m.byte i) (m.byte (i + 1))
  get16-join16 = get16_of host m i _ (omega (arith, small i, small (i + 1))) Holds-join16

  Holds-join32 :
      Holds 4 (bytes32 (join32 (m.byte i) (m.byte (i + 1)) (m.byte (i + 2)) (m.byte (i + 3)))) m i
  Holds-join32 zero h =
      omega (arith, byte_here, small i, small (i + 1), small (i + 2), small (i + 3))
  Holds-join32 (suc zero) h = omega (arith, small i, small (i + 1), small (i + 2), small (i + 3))
  Holds-join32 (suc (suc zero)) h =
      omega (arith, small i, small (i + 1), small (i + 2), small (i + 3))
  Holds-join32 (suc (suc (suc zero))) h =
      omega (arith, small i, small (i + 1), small (i + 2), small (i + 3))
  Holds-join32 (suc (suc (suc (suc k)))) h = absurd (omega (arith, h))

  pub get32-join32 :
      get32 host m i ≡ join32 (m.byte i) (m.byte (i + 1)) (m.byte (i + 2)) (m.byte (i + 3))
  get32-join32 =
      get32_of host m i _ (omega (arith, small i, small (i + 1), small (i + 2), small (i + 3)))
        Holds-join32
