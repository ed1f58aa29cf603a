-- ===== src/Packet/Nak/Segments.antt =====
-- The array of offsets in a NAK PDU.
use Prim.Native.Nat.{min}
use ccsds_file_delivery_prot.Common.{
  ℕ, zero, suc, ◌+◌, ◌-◌, ◌^◌, ◌≤◌, ◌<◌, ◌≡◌, refl, ap, ◌∙◌, arith, inl, List, [], ◌∷◌, length,
  take, All,
}
use ccsds_file_delivery_prot.Wire.{Buffer, Endian, put32, get32, bytes32}
use ccsds_file_delivery_prot.Wire.Access.{put32_inside, put32-Outside, get32_of, get32_cong}
use ccsds_file_delivery_prot.File.Missing.{Offset}
use ccsds_file_delivery_prot.Packet.Nak.{
  PacketNakHelper, fill_nak_array_callback, fill_nak_array, read_segments,
}

abbrev pub IsU32Offset : Offset → Type 0
IsU32Offset o = (o.start < 2 ^ 32) × (o.end < 2 ^ 32)

-- How many of the offsets still find room.
abbrev pub fitting : List Offset → PacketNakHelper → ℕ
fitting os h = min (length os) (h.max_number_of_nak_segments - h.current_number_of_segments)

module _ (host : Endian) where
  callback_outside :
      (o : Offset) (h : PacketNakHelper) (j : ℕ)
      → j < h.position
      → (fill_nak_array_callback host o h).packet.byte j ≡ h.packet.byte j
  unfolding fill_nak_array_callback
  callback_outside o h j lt = ground (
    arith,
    put32-Outside host (put32 host h.packet h.position o.start) (h.position + 4) o.end j
        (inl (omega arith)),
    put32-Outside host h.packet h.position o.start j (inl lt),
  )

  callback_position :
      (o : Offset) (h : PacketNakHelper) → h.position ≤ (fill_nak_array_callback host o h).position
  unfolding fill_nak_array_callback
  callback_position o h = ground arith

  -- What lies before the array is not touched.
  pub fill_nak_array_outside :
      (os : List Offset) (h : PacketNakHelper) (j : ℕ)
      → j < h.position
      → (fill_nak_array host os h).packet.byte j ≡ h.packet.byte j
  unfolding fill_nak_array
  fill_nak_array_outside [] h j lt = refl
  fill_nak_array_outside (o ∷ os) h j lt =
      fill_nak_array_outside os (fill_nak_array_callback host o h) j
        (omega (arith, callback_position o h))
      ∙ callback_outside o h j lt

  pub fill_nak_array_count :
      (os : List Offset) (h : PacketNakHelper)
      → h.current_number_of_segments ≤ h.max_number_of_nak_segments
      → (fill_nak_array host os h).current_number_of_segments
        ≡ h.current_number_of_segments + fitting os h
  unfolding fill_nak_array fill_nak_array_callback
  fill_nak_array_count [] h le = omega arith
  fill_nak_array_count (o ∷ os) h le =
      ground (arith, fill_nak_array_count os (fill_nak_array_callback host o h))

  module _ (o : Offset) (os : List Offset) (h : PacketNakHelper)
      (room : h.current_number_of_segments < h.max_number_of_nak_segments)
      (fits : IsU32Offset o) where
    abbrev with_start : Buffer
    with_start = put32 host h.packet h.position o.start

    -- The callback's state where there is room, and the packet at the end.
    abbrev copied : PacketNakHelper
    copied = record h {
      packet = put32 host with_start (h.position + 4) o.end;
      position = h.position + 8;
      current_number_of_segments = h.current_number_of_segments + 1;
    }

    copied_lem : fill_nak_array_callback host o h ≡ copied
    unfolding fill_nak_array_callback
    copied_lem = ground arith

    abbrev filled : Buffer
    filled = (fill_nak_array host os copied).packet

    first_start : get32 host filled h.position ≡ o.start
    first_start = get32_of host filled h.position o.start fits.0 λ k lt.
        fill_nak_array_outside os copied (h.position + k) (omega arith)
        ∙ put32-Outside host with_start (h.position + 4) o.end (h.position + k) (inl (omega arith))
        ∙ put32_inside host h.packet h.position o.start k lt
        ∙ ap (λ (x : ℕ). bytes32 x k) (omega arith)

    first_end : get32 host filled (h.position + 4) ≡ o.end
    first_end = get32_of host filled (h.position + 4) o.end fits.1 λ k lt.
        fill_nak_array_outside os copied (h.position + 4 + k) (omega arith)
        ∙ put32_inside host with_start (h.position + 4) o.end k lt
        ∙ ap (λ (x : ℕ). bytes32 x k) (omega arith)

  -- The reader sees the offsets that found room.
  pub read_segments-fill :
      (n : ℕ) (os : List Offset) (h : PacketNakHelper)
      → n ≡ fitting os h
      → All IsU32Offset os
      → read_segments host n (fill_nak_array host os h).packet h.position ≡ take n os
  unfolding read_segments fill_nak_array
  read_segments-fill zero os h e fits = refl
  read_segments-fill (suc n) [] h e fits = absurd (omega arith)
  read_segments-fill (suc n) (o ∷ os) h e (f, fs) =
      let room : h.current_number_of_segments < h.max_number_of_nak_segments = omega arith in
      rw (copied_lem o os h room f, fill_nak_array)
        (ground (
          arith,
          first_start o os h room f,
          first_end o os h room f,
          read_segments-fill n os (copied o os h room f) (omega arith) fs,
        ))

-- Reading the array depends on its bytes alone.
pub read_segments-cong :
    (host : Endian) (n : ℕ) (m m' : Buffer) (i : ℕ)
    → ((j : ℕ) → i ≤ j → m.byte j ≡ m'.byte j)
    → read_segments host n m i ≡ read_segments host n m' i
unfolding read_segments
read_segments-cong host zero m m' i same = refl
read_segments-cong host (suc n) m m' i same = ground (
  arith,
  get32_cong host m m' i (λ k lt. same (i + k) (omega arith)),
  get32_cong host m m' (i + 4) (λ k lt. same (i + 4 + k) (omega arith)),
  read_segments-cong host n m m' (i + 8) (λ j le. same j (omega arith)),
)
