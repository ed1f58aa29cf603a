-- ===== src/Packet.antt =====
-- Program/src/packet.c: how protocol data units are laid out in a packet.
pub mod Fields
pub mod Ids
pub mod Header
pub mod Directives
pub mod Nak
