-- ===== src/Wire.antt =====
-- src/net/wire.cpp, wire.h and messages.h: the messages of the mesh and their encodings.
-- A `serialize` is a `Writer` for each message, and a `deserialize` a `Reader` of the message from
-- the default-constructed one that every caller passes. The `reserve` calls are left out: they
-- change no value.
pub mod Lists
pub mod Peer
pub mod Attribute
pub mod Session
pub mod Presence
pub mod Lobby
