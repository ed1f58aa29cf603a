-- ===== src/Wire.antt =====
-- Packet memory and network byte order, as Program/src uses them. A `char *` is the memory behind
-- it, a function from offsets to bytes; `&packet[i]` is an offset.
-- `memcpy`, `memset` and the byte order functions are the C library's. The host's own byte order is
-- an argument: `htonl` of an integer is the integer whose bytes in memory are the big-endian ones.
pub mod Order
pub mod Access
use ccsds_file_delivery_prot.Common.{
  ℕ, zero, suc, ◌+◌, ◌-◌, ◌*◌, ◌/◌, ◌%◌, ◌^◌, ◌≤◌, ◌<◌, bit_or, Bool, true, false, ◌&&◌, ltb, leb,
  ◌==◌, if◌then◌else◌, u8, u16, u32, u64,
}

pub record Buffer : Type 0 where
  pub byte : ℕ → ℕ

-- `packet[i] = v`.
unfoldable pub put : Buffer → ℕ → ℕ → Buffer
put m i v = record { byte = λ j. if j == i then u8 v else m.byte j }

unfoldable pub memset : Buffer → ℕ → ℕ → ℕ → Buffer
memset m i v n = record { byte = λ j. if leb i j && ltb j (i + n) then u8 v else m.byte j }

-- The bytes that a copy reads from.
abbrev pub Bytes : Type 0
Bytes = ℕ → ℕ

-- `memcpy(&m[i], src, n)`.
unfoldable pub memcpy : Buffer → ℕ → Bytes → ℕ → Buffer
memcpy m i src n = record { byte = λ j. if leb i j && ltb j (i + n) then src (j - i) else m.byte j }

-- `&m[i]`, as a source to read from.
abbrev pub at : Buffer → ℕ → Bytes
at m i j = m.byte (i + j)

pub data Endian : Type 0 where
  little big : Endian

-- The bytes of an integer, most significant first.
abbrev pub bytes16 : ℕ → Bytes
bytes16 x zero = x / 256 % 256
bytes16 x (suc _) = x % 256

abbrev pub bytes32 : ℕ → Bytes
bytes32 x zero = x / 0x1_000000 % 256
bytes32 x (suc zero) = x / 0x1_0000 % 256
bytes32 x (suc (suc zero)) = x / 256 % 256
bytes32 x (suc (suc (suc _))) = x % 256

abbrev pub bytes64 : ℕ → Bytes
bytes64 x zero = x / 2 ^ 56 % 256
bytes64 x (suc zero) = x / 2 ^ 48 % 256
bytes64 x (suc (suc zero)) = x / 2 ^ 40 % 256
bytes64 x (suc (suc (suc zero))) = x / 2 ^ 32 % 256
bytes64 x (suc (suc (suc (suc k)))) = bytes32 x k

-- The integer of some bytes, given most significant first.
abbrev pub join16 : ℕ → ℕ → ℕ
join16 a b = a * 256 + b

abbrev pub join32 : ℕ → ℕ → ℕ → ℕ → ℕ
join32 a b c d = a * 0x1_000000 + b * 0x1_0000 + c * 256 + d

abbrev pub join64 : ℕ → ℕ → ℕ
join64 hi lo = hi * 0x1_0000_0000 + lo

module _ (host : Endian) where
  -- The bytes that stand in the host's memory for an integer.
  unfoldable pub store16 : ℕ → Bytes
  store16 x k = elim host [ little ↦ bytes16 x (1 - k) | big ↦ bytes16 x k ]

  unfoldable pub store32 : ℕ → Bytes
  store32 x k = elim host [ little ↦ bytes32 x (3 - k) | big ↦ bytes32 x k ]

  unfoldable pub store64 : ℕ → Bytes
  store64 x k = elim host [ little ↦ bytes64 x (7 - k) | big ↦ bytes64 x k ]

  -- The integer that the host reads from memory.
  unfoldable pub load16 : Bytes → ℕ
  load16 b = elim host [ little ↦ join16 (b 1) (b 0) | big ↦ join16 (b 0) (b 1) ]

  unfoldable pub load32 : Bytes → ℕ
  load32 b = elim host [
    | little ↦ join32 (b 3) (b 2) (b 1) (b 0)
    | big ↦ join32 (b 0) (b 1) (b 2) (b 3)
  ]

  unfoldable pub load64 : Bytes → ℕ
  load64 b = elim host [
    | little ↦ join64 (join32 (b 7) (b 6) (b 5) (b 4)) (join32 (b 3) (b 2) (b 1) (b 0))
    | big ↦ join64 (join32 (b 0) (b 1) (b 2) (b 3)) (join32 (b 4) (b 5) (b 6) (b 7))
  ]

  -- `htons` and `ntohs` are one function, and so are `htonl` and `ntohl`.
  unfoldable pub htons : ℕ → ℕ
  htons x = elim host [ little ↦ join16 (x % 256) (x / 256 % 256) | big ↦ x ]

  unfoldable pub htonl : ℕ → ℕ
  htonl x = elim host [
    | little ↦ join32 (x % 256) (x / 256 % 256) (x / 0x1_0000 % 256) (x / 0x1_000000 % 256)
    | big ↦ x
  ]

  -- The macro `ssp_htonll`, which is `ssp_ntohll` too: the halves are swapped unless `htonl(1)` is 1.
  unfoldable pub htonll : ℕ → ℕ
  unfolding htonl
  htonll x =
      if 1 == htonl 1
      then x
      else bit_or (u64 (htonl (x % 0x1_0000_0000) * 2 ^ 32)) (htonl (u32 (x / 2 ^ 32)))

  -- `memcpy(&m[i], &net, n)` with `net = htonl(x)`, for each width.
  unfoldable pub put16 : Buffer → ℕ → ℕ → Buffer
  put16 m i x = memcpy m i (store16 (htons (u16 x))) 2

  unfoldable pub put32 : Buffer → ℕ → ℕ → Buffer
  put32 m i x = memcpy m i (store32 (htonl (u32 x))) 4

  unfoldable pub put64 : Buffer → ℕ → ℕ → Buffer
  put64 m i x = memcpy m i (store64 (htonll (u64 x))) 8

  -- `memcpy(&net, &m[i], n)`, then `ntohl(net)`, for each width.
  unfoldable pub get16 : Buffer → ℕ → ℕ
  get16 m i = htons (load16 (at m i))

  unfoldable pub get32 : Buffer → ℕ → ℕ
  get32 m i = htonl (load32 (at m i))

  unfoldable pub get64 : Buffer → ℕ → ℕ
  get64 m i = htonll (load64 (at m i))
