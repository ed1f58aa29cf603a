-- ===== src/Client.antt =====
-- protocol_handler.c, `parse_packet_client`: what the sending side does with an ACK PDU.
pub mod Acks
use ccsds_file_delivery_prot.Common.{ℕ, ◌==◌, if◌then◌else◌, true}
use ccsds_file_delivery_prot.Wire.{Buffer}
use ccsds_file_delivery_prot.Packet.Directives.{eof_pdu, meta_data_pdu}
use ccsds_file_delivery_prot.Request.{LocalEntity}

-- The switch over the byte at `packet_index`; a `char` from 128 on is negative, and no case.
unfoldable pub receive_ack : Buffer → ℕ → LocalEntity → LocalEntity
receive_ack packet packet_index local =
    let code = packet.byte packet_index in
    if code == eof_pdu
    then record local { eof_recv_indication = true }
    else if code == meta_data_pdu
    then record local { metadata_recv_indication = true }
    else local
