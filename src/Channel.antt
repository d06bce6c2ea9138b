-- ===== src/Channel.antt =====
-- The authenticated channel to a peer: src/net/peer_channel.h, peer_channel.cpp,
-- secure_channel.h and secure_channel.cpp.
pub mod Replay
pub mod Cipher
pub mod Handshake
pub mod Peer
