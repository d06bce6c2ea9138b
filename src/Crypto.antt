-- ===== src/Crypto.antt =====
-- src/common/crypto.h and crypto.cpp: the hash, the keys derived with it and the canonical encoding.
-- The wrappers of the vendored curve and cipher are parameters of the channel. Wiping a buffer that is
-- about to be freed changes no value and is left out.
pub mod Sha256
pub mod Keys
pub mod Encoder
pub mod Base64
