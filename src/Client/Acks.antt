-- ===== src/Client/Acks.antt =====
-- The acks that a receiver sends, seen by the sender.
use ccsds_file_delivery_prot.Common.{ℕ, ◌+◌, ◌≤◌, ◌<◌, ◌^◌, ◌≡◌, ◌⊎◌, arith}
use ccsds_file_delivery_prot.Wire.{Buffer, Endian}
use ccsds_file_delivery_prot.Packet.Directives.{build_ack}
use ccsds_file_delivery_prot.Packet.Directives.Ack.{build_ack_byte}
use ccsds_file_delivery_prot.Request.{LocalEntity}
use ccsds_file_delivery_prot.Client.{receive_ack}

-- The ack of an EOF (4) or of a metadata PDU (7), as `build_ack` builds it at an offset from 3 to
-- 2 ^ 32 - 4 over any bytes, changes no indication of the sender that receives it.
pub receive-build_ack :
    (host : Endian) (m : Buffer) (start type : ℕ) (local : LocalEntity)
    → 3 ≤ start
    → start + 3 < 2 ^ 32
    → m.byte (start + 1) < 256
    → (type ≡ 4) ⊎ (type ≡ 7)
    → receive_ack (build_ack host m start type).1 (start + 1) local ≡ local
unfolding receive_ack
receive-build_ack host m start type local low high small which =
    ground (arith, build_ack_byte host m start type low high small which)
