-- ===== src/Reception/Delivery.antt =====
-- A whole file that arrives in data PDUs.
use ccsds_file_delivery_prot.Common.{
  ℕ, inl, inr, ◌+◌, ◌-◌, ◌^◌, ◌<◌, ◌≡◌, ap, sym, ◌∙◌, subst, arith, false, Returns, Returns-map,
  Option-cases, some, List, [], ◌∷◌, All,
}
use ccsds_file_delivery_prot.Wire.{Buffer, Endian}
use ccsds_file_delivery_prot.File.Missing.{Offset, receive_offset}
use ccsds_file_delivery_prot.File.Missing.Ranges.{missing, Rising}
use ccsds_file_delivery_prot.File.Missing.Receive.{has_memory}
use ccsds_file_delivery_prot.File.Missing.Transfer.{whole_file}
use ccsds_file_delivery_prot.Reception.{
  Port, Reception, Arrival, get_data_offset_from_packet, process_data_packet, receive_packets,
}
use ccsds_file_delivery_prot.Reception.Segment.{
  Writes, Delivered, IsSegment, process_data_packet-Delivered,
}

module _ (host : Endian) (port : Port) (works : Writes port) (fuel : ℕ) (enough : 2 ^ 14 < fuel)
    (source : Buffer) (size : ℕ) where
  abbrev IsGood : Reception → Type 0
  IsGood r = Rising 0 r.file.missing_offsets × Delivered source size r

  -- The ranges that are left of those before.
  abbrev Missing : Arrival → Reception → Reception → Type 0
  Missing a r r' =
      let o = get_data_offset_from_packet host a.packet a.place in
      r'.file.missing_offsets
      ≡ (receive_offset has_memory r.file.missing_offsets o (o + (a.data_len - 4))).1

  -- Data PDUs that hold segments of the source with four bytes or more, in any order, lost or
  -- repeated, are processed with a working disk, enough memory, and fuel for 2 ^ 14 words: the
  -- code returns, the ranges stay rising, and every byte that is no longer missing is on disk as
  -- in the source, if both was so before.
  pub receive_packets-Delivered :
      (arrivals : List Arrival) (r : Reception)
      → All (IsSegment host source) arrivals
      → Rising 0 r.file.missing_offsets
      → Delivered source size r
      → Returns
          (λ r'. Rising 0 r'.file.missing_offsets × Delivered source size r')
          (receive_packets host port fuel has_memory arrivals r)
  unfolding receive_packets
  receive_packets-Delivered [] r segments rising delivered = (rising, delivered)
  receive_packets-Delivered (a ∷ rest) r (segment, segments) rising delivered =
      let one =
        Returns-map
          {P = λ r'. Missing a r r' × Rising 0 r'.file.missing_offsets × Delivered source size r'} _
          (λ r' (_, rising', delivered'). (rising', delivered'))
          (process_data_packet-Delivered host port works fuel enough source size 0 a segment r
            rising delivered) in
      elim (Option-cases
        (process_data_packet host port fuel has_memory a.packet a.place a.data_len r)) [
          | inl e ↦ absurd (subst (Returns IsGood) e one)
          | inr (r', e) ↦
              let (rising', delivered') : IsGood r' = subst (Returns IsGood) e one in
              rw (receive_packets, e)
                (receive_packets-Delivered rest r' segments rising' delivered')
        ]

  -- A file of at least one byte, all of it missing at first, has the bytes of the source on disk
  -- once data PDUs that hold segments of the source with four bytes or more leave no range
  -- missing. The disk works, there is enough memory, and fuel for 2 ^ 14 words.
  pub delivered_file :
      (arrivals : List Arrival) (r r' : Reception)
      → 0 < size
      → All (IsSegment host source) arrivals
      → r.file.missing_offsets ≡ whole_file size
      → receive_packets host port fuel has_memory arrivals r ≡ some r'
      → r'.file.missing_offsets ≡ []
      → (b : ℕ) → b < size
      → r'.disk.contents.byte b ≡ source.byte b
  unfolding missing
  delivered_file arrivals r r' pos segments whole done empty b lt =
      let start : Rising 0 (whole_file size) = (omega arith, pos, tt) in
      let all =
        receive_packets-Delivered arrivals r segments (subst (Rising 0) (sym whole) start)
          (λ i small gone.
            let here : missing (whole_file size) i ≡ false =
              ap (λ (l : List Offset). missing l i) (sym whole) ∙ gone in
            absurd (ground (arith, here))) in
      let (_, delivered) : IsGood r' = subst (Returns IsGood) done all in
      delivered b lt (ap (λ (l : List Offset). missing l b) empty)
