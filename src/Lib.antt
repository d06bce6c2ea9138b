-- ===== src/Lib.antt =====
-- EOS Reimagined: a reimplementation of the Epic Online Services SDK in which the peers of a game find
-- each other and talk directly. This library models the P2P interface, what a lobby does with the
-- messages of other peers, and the parts that the interfaces stand on: the bytes that peers exchange, the
-- stream and datagram paths that carry them, the completions that a game is called back with, and the
-- serializer of the records that are written.
--
-- The parts, from the bytes up.
-- - ByteBuffer: src/common/byte_buffer.h and byte_buffer.cpp. A put is a function on the bytes written
--   so far; a get takes the bytes that are not read yet to a value, or `none` where the code returns
--   false, and to the bytes that are left. A byte is a number. A `u64` and the words below it wrap
--   around where the code's do, and an `i64` is an integer of `Base/Int`. `put_var` recurses on the
--   value getting smaller. A double is its bit pattern.
-- - Wire: src/net/wire.cpp, wire.h and messages.h. `serialize_x` and `deserialize_x` are the overloads
--   of `serialize` and `deserialize` for the struct `x`; `Peer` has the envelope, discovery, identity
--   and P2P data, `Attribute` what sessions and lobbies share, and `Session`, `Lobby` and `Presence`
--   their messages. `Lists` has the loops over lists and the caps of inbound ones. Every caller passes
--   `deserialize` a default-constructed message, so a reader makes a new one.
-- - Frame: `frame_message` and `try_deframe` of src/net/wire.cpp, and of src/net/message_router.cpp
--   `take_frame` and the loop that empties a read buffer. Each frame takes four bytes at least, so the
--   length of the buffer and one is fuel enough for the loop: the theorems on `drain_frames` hold
--   without a condition on the fuel.
-- - Crypto: src/common/crypto.cpp and crypto.h. `Sha256`, `Keys` (HMAC and HKDF), `Encoder` (the
--   canonical encoder) and `Base64` are the code's own. The vendored curve and cipher are parameters:
--   the records `Curve` and `Aead`, of their functions and what the code relies on.
-- - Channel: `Cipher` and `Handshake` are `cipher_state` and `noise_handshake` of
--   src/net/secure_channel.h and secure_channel.cpp, `Replay` and `Peer` the `replay_window` and
--   `peer_channel` of src/net/peer_channel.h and peer_channel.cpp. A method is a function from the
--   state to its result, or `none` where the code returns false, and to the state that it leaves in
--   either case (`Base/Attempt`). Random bytes are an argument, and secrets are not wiped.
-- - Router: of src/net/message_router.h and message_router.cpp, `seal_frame`, the loop of `drain_peers`
--   over what a peer's connection has given, and in `Datagrams` `send_datagram` and `handle_datagram`
--   over the table of peers, a list in the order of the ids, and in `Listeners` `dispatch` and
--   the registration of listeners, which are numbers. A frame takes four bytes at least, so the
--   length of the buffer and one is fuel enough. What the socket takes is an argument.
-- - HandleStore: src/common/handle_store.h, and Ids: `id_string_is_valid` of src/common/ids.cpp.
-- - LabelRegistry: src/core/label_registry.h and label_registry.cpp. The kinds are numbers, and
--   `clear_labels` and `label_count` are its `clear` and `size`.
-- - FrameResult and CallbackManager: src/core/frame_result.h, frame_result.cpp, callback_manager.h and
--   callback_manager.cpp. The manager is a record, and each public method a step on it: the lock is held
--   throughout, but for what the tracer is told. Owners are numbers, maps are association lists in the
--   order of their keys, and the clock is an argument. What the owners do (src/core/i_run_callback.h)
--   is the record `Owners`: `run_callbacks` answers for one result and may change it; `cb_run_frame`
--   may change the manager, since the lock is recursive. A result is delivered outside the lock, so
--   `tick` gives what it fires.
-- - JsonWriter: src/common/json_writer.h and json_writer.cpp. A call is a function on the writer. The
--   loop over a string takes a byte at least in each round, so the length of the string is fuel enough.
-- - Eos: what the interfaces share: the result codes, the tests of versions and users, and the two ids
--   that they read of src/core/settings.h.
-- - P2p: src/interfaces/p2p.h and p2p.cpp. A call of the game is a function from its options, where `none`
--   is a null pointer, and the state to the state and the result code. `Packets` has sending, receiving
--   and the queues, `Connections` accepting and closing, `Inbound` `on_network_message`, and `Calls` any
--   sequence of these. What the interface hands to the router stands in `sent`, in order; what the
--   router answers to each, a `Network`, is an argument. The maps are `Base/Dict`.
-- - Lobby: src/interfaces/lobby.h and lobby.cpp: `on_network_message` and what it stands on. `Search` has
--   `lobby_matches` and what an answer adds to a search, `Inbound` a function for each message. A
--   notification is an event in `fired`, once, however many listeners there are. Whether `sdk_connect`
--   knows a peer is an argument.
-- - Base: what the parts share: Boolean tests, lists, integers, bits of words, association lists, texts
--   and the maps that they order, and the decimal digits of a number, whose fuel is more than the digits.
-- - Tests: concrete inputs.
--
-- Assumed: `run_callbacks` does not call the manager's methods while the queues are sifted, the steady
-- clock does not step back, listeners do not call an interface from within a notification, and an
-- allocation succeeds. Lengths that a writer emits are below 2 ^ 64 by their C++ types, which the
-- conditions of the round trips say.
--
-- When `message_router::send` fails on a link it drops the peer, and calls `on_network_message` of the
-- interfaces with `peer_disconnected` before it returns to the interface that sends (`drop_peer`). The P2P
-- and lobby models ask the router about each send (`drops`) and record in `broken` that a peer was
-- dropped so. They do not follow the call into the interface: of a broken state they say nothing, and the
-- results to which this matters have as a condition that it does not happen. A peer that is gone between two
-- messages is a message as any other.
--
-- Not modelled: sockets, dialing and handshaking of the router, the vendored cryptography; of the P2P
-- interface the registration of notifications, the NAT type, relay and port settings; of the lobby
-- interface the calls of the game; the other interfaces above the mesh, the configuration, the tracer's
-- records, and the exported functions.
pub mod Base
pub mod Eos
pub mod P2p
pub mod Lobby
pub mod Crypto
pub mod ByteBuffer
pub mod Wire
pub mod Frame
pub mod Channel
pub mod Router
pub mod FrameResult
pub mod CallbackManager
pub mod HandleStore
pub mod Ids
pub mod JsonWriter
pub mod LabelRegistry
pub mod Tests
