-- ===== src/Mib/Limits.antt =====
-- Which transactions a header from the management information base can carry.
use ccsds_file_delivery_prot.Common.{ℕ, ◌≡◌, arith, ltb, ◌&&◌, if◌then◌else◌, none, some}
use ccsds_file_delivery_prot.Wire.{Buffer, Endian}
use ccsds_file_delivery_prot.Packet.Ids.{copy_id_to_packet}
use ccsds_file_delivery_prot.Packet.Header.{
  PduHeader, build_pdu_header, build_static_header, is_length,
}
use ccsds_file_delivery_prot.Mib.{RemoteEntity, get_header_from_mib}

one_byte :
    (host : Endian) (m : Buffer) (i id : ℕ)
    → is_length (copy_id_to_packet host m i id).0 1 ≡ ltb id 0xff
unfolding copy_id_to_packet
one_byte host m i id = ground arith

-- A header from the base is built, in seven bytes, exactly if the transaction number and both ids
-- are below 255; otherwise -1 is returned.
pub build-get_header_from_mib :
    (host : Endian) (m : Buffer) (h : PduHeader) (remote : RemoteEntity)
    (my_id seq mode data_len : ℕ)
    → (build_pdu_header host m seq mode data_len (get_header_from_mib h remote my_id)).0
      ≡ (if ltb my_id 0xff && ltb seq 0xff && ltb remote.cfdp_id 0xff then some 7 else none)
unfolding build_pdu_header get_header_from_mib
build-get_header_from_mib host m h remote my_id seq mode data_len =
    let m0 = build_static_header host m mode data_len (get_header_from_mib h remote my_id) in
    let m1 = (copy_id_to_packet host m0 4 my_id).1 in
    let m2 = (copy_id_to_packet host m1 5 seq).1 in
    ground
      (arith, one_byte host m0 4 my_id, one_byte host m1 5 seq, one_byte host m2 6 remote.cfdp_id)
