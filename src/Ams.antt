-- ===== src/Ams.antt =====
-- internal/ams: the AMS/TCP header, the AMS header and whole packets.
pub mod Header
pub mod Packet
