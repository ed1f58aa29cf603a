-- ===== src/Packet/Ids/LengthValue.antt =====
-- Ids that carry their length in front.
use ccsds_file_delivery_prot.Common.{
  ℕ, false, ◌+◌, ◌<◌, ◌≡◌, refl, ap, ◌∙◌, arith, some, inr, u8, ◌==◌,
}
use ccsds_file_delivery_prot.Wire.{Buffer, Endian, put}
use ccsds_file_delivery_prot.Wire.Access.{put_here, put-Outside}
use ccsds_file_delivery_prot.Packet.Ids.{
  copy_id_to_packet, copy_id_from_packet, copy_id_lv_to_packet, copy_id_lv_from_packet, error_id,
}
use ccsds_file_delivery_prot.Packet.Ids.RoundTrip.{
  id_length, copy_id_to_packet_length, copy_id_to_packet_inside, copy_id_from_packet_of,
}

module _ (host : Endian) (m : Buffer) (i id : ℕ) (fits : id < 0xffff_ffff) where
  abbrev pub with_id : Buffer
  with_id = (copy_id_to_packet host m (i + 1) id).1

  abbrev pub with_length : Buffer
  with_length = put with_id i (id_length id)

  pub copy_id_lv_to_packet_steps :
      copy_id_lv_to_packet host m i id ≡ (some (id_length id + 1), with_length)
  unfolding copy_id_lv_to_packet
  copy_id_lv_to_packet_steps =
      rw (copy_id_lv_to_packet, copy_id_to_packet_length host m (i + 1) id fits) refl

  length_read : u8 (with_length.byte i) ≡ id_length id
  length_read = ap u8 (put_here with_id i (id_length id)) ∙ ground arith

  id_read : copy_id_from_packet host with_length (i + 1) (id_length id) ≡ id
  id_read = copy_id_from_packet_of host with_length (i + 1) id fits λ k lt.
      put-Outside with_id i (id_length id) (i + 1 + k) (inr (omega arith))
      ∙ copy_id_to_packet_inside host m (i + 1) id k fits lt

  copy_id_lv_read : copy_id_lv_from_packet host with_length i ≡ some (id_length id, id)
  unfolding copy_id_lv_from_packet
  copy_id_lv_read =
      let known : (id == error_id) ≡ false = ground arith in
      rw (copy_id_lv_from_packet, length_read, id_read, known) refl

-- An id below 0xffffffff is written behind its length, in one byte more than the id takes, and is
-- read back with that length, on any host and over any buffer.
pub copy_id_lv-round_trip :
    (host : Endian) (m : Buffer) (i id : ℕ)
    → id < 0xffff_ffff
    → (let (written, m') = copy_id_lv_to_packet host m i id in
        (written ≡ some (id_length id + 1))
        × (copy_id_lv_from_packet host m' i ≡ some (id_length id, id)))
copy_id_lv-round_trip host m i id fits =
    rw (copy_id_lv_to_packet_steps host m i id fits) (refl, copy_id_lv_read host m i id fits)
