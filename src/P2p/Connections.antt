-- ===== src/P2p/Connections.antt =====
-- How the game opens and closes connections: `accept_connection`, `close_connection` and
-- `close_connections` of src/interfaces/p2p.cpp.
use mathlib.Core.List.{foldl}
use eos_reimagined.Base.{Bool, true, false, not, ◌&&◌, ◌||◌, Option, none, some, [], if◌then◌else◌}
use eos_reimagined.Base.Int.{ℤ, pos}
use eos_reimagined.Base.Texts.{same_text, is_empty}
use eos_reimagined.Base.Dict.{find, put}
use eos_reimagined.ByteBuffer.{Text}
use eos_reimagined.Eos.{
  EosResult, success, invalid_user, invalid_parameters, Settings, version_is_supported, is_user,
}
use eos_reimagined.P2p.{
  Network, SocketId, socket_id_is_valid, connection_pending, connection_open, connection_requested,
  Connection, ConnectionKey, connection_key, P2p, closed, closed_by_local_user, flush_packets,
  queue_event, send_p2p, opened, picked, unpicked, p2p_connect_request, p2p_connect_response,
  p2p_connection_close,
}
use eos_reimagined.P2p.Packets.{new_connection, socket_of}

-- `EOS_P2P_AcceptConnectionOptions` and `EOS_P2P_CloseConnectionOptions`; `close_connections` does not
-- read the remote user.
pub record ConnectionOptions : Type 0 where
  pub api_version : ℤ
  pub local_user : Option Text
  pub remote_user : Option Text
  pub socket_id : Option SocketId

unfoldable pub no_socket : Option SocketId → Bool
no_socket none = true
no_socket (some socket) = false

-- Whether a connection is with a peer, on a socket or on any.
unfoldable pub with_peer : Text → Text → ConnectionKey → Bool
with_peer peer socket key = same_text key.0 peer && (is_empty socket || same_text key.1 socket)

unfoldable pub on_socket : Text → ConnectionKey → Bool
on_socket socket key = same_text key.1 socket

module _ (own : Settings) (network : Network) where
  unfoldable pub ask : ConnectionKey → P2p → P2p
  ask key p = send_p2p own network p2p_connect_request key 0 [] true p

  unfoldable pub agree : ConnectionKey → Connection → P2p → P2p
  agree key entry p =
      opened own network key entry (send_p2p own network p2p_connect_response key 0 [] true p)

  unfoldable pub accept_entry : ConnectionKey → Connection → P2p → P2p
  unfolding ask agree
  accept_entry key entry p = elim entry.state [
    | connection_open ↦ p
    | connection_requested ↦ agree key entry p
    | connection_pending ↦ ask key p
  ]

  unfoldable pub accept_on : ConnectionKey → Option Connection → P2p → P2p
  unfolding accept_entry ask
  accept_on key (some entry) p = accept_entry key entry p
  accept_on key none p =
      ask key (record p { connections = put key (new_connection connection_pending) p.connections })

  unfoldable pub accept_for : ConnectionOptions → Option Text → P2p → EosResult × P2p
  unfolding accept_on
  accept_for o none p = (invalid_user, p)
  accept_for o (some remote) p =
      let key : ConnectionKey = (remote, socket_of o.socket_id) in
      if not (is_user own.product_user_id o.local_user)
      then (invalid_user, p)
      else (success, accept_on key (find key p.connections) p)

  unfoldable pub accept_connection : Option ConnectionOptions → P2p → EosResult × P2p
  unfolding accept_for socket_id_is_valid
  accept_connection none p = (invalid_parameters, p)
  accept_connection (some o) p =
      if not (version_is_supported o.api_version (pos 1)) || not (socket_id_is_valid o.socket_id)
      then (invalid_parameters, p)
      else accept_for o o.remote_user p

  -- The peer is told, and the game on the next tick.
  unfoldable pub say_closed : P2p → ConnectionKey → P2p
  say_closed p key =
      queue_event closed key closed_by_local_user
        (send_p2p own network p2p_connection_close key 0 [] true p)

  -- The connections with a peer, in their order; then what it has queued goes.
  unfoldable pub close_with : Text → Text → P2p → P2p
  unfolding say_closed
  close_with peer socket p =
      let test = with_peer peer socket in
      let p' = foldl say_closed p (picked test p.connections) in
      flush_packets peer socket (record p' { connections = unpicked test p.connections })

  unfoldable pub close_for : ConnectionOptions → Option Text → P2p → EosResult × P2p
  unfolding close_with
  close_for o none p = (invalid_user, p)
  close_for o (some peer) p =
      if not (is_user own.product_user_id o.local_user)
      then (invalid_user, p)
      else (success, close_with peer (socket_of o.socket_id) p)

  unfoldable pub close_connection : Option ConnectionOptions → P2p → EosResult × P2p
  unfolding close_for no_socket socket_id_is_valid
  close_connection none p = (invalid_parameters, p)
  close_connection (some o) p =
      if not (version_is_supported o.api_version (pos 1))
        || not (no_socket o.socket_id) && not (socket_id_is_valid o.socket_id)
      then (invalid_parameters, p)
      else close_for o o.remote_user p

  unfoldable pub say_closed_flush : Text → P2p → ConnectionKey → P2p
  unfolding say_closed
  say_closed_flush socket p key = flush_packets key.0 socket (say_closed p key)

  unfoldable pub close_on : Text → P2p → P2p
  unfolding say_closed_flush
  close_on socket p =
      let test = on_socket socket in
      let p' = foldl (say_closed_flush socket) p (picked test p.connections) in
      record p' { connections = unpicked test p.connections }

  unfoldable pub close_connections : Option ConnectionOptions → P2p → EosResult × P2p
  unfolding close_on socket_id_is_valid
  close_connections none p = (invalid_parameters, p)
  close_connections (some o) p =
      if not (version_is_supported o.api_version (pos 1)) || not (socket_id_is_valid o.socket_id)
      then (invalid_parameters, p)
      else if not (is_user own.product_user_id o.local_user)
      then (invalid_user, p)
      else (success, close_on (socket_of o.socket_id) p)
