-- ===== src/Exchange.antt =====
-- A sender and a receiver together: what src/sender.cpp and src/protocol/srtla_handler.cpp send is
-- what the other reads.
pub mod Handshake
pub mod Acks
pub mod Losses
