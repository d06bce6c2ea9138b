-- ===== src/Tests/Routing.antt =====
-- Envelopes and datagrams between the two peers, and the stores of handles.
use eos_reimagined.Base.{◌≤◌, ℕ, ◌<◌, ◌≡◌, refl, true, false, none, some, List, [], ◌∷◌, map, arith}
use eos_reimagined.Base.Int.{pos}
use eos_reimagined.ByteBuffer.{
  Text, put_u8, put_u16, put_string, put_svar, zig_zag, put_bytes, put_var, ◌⨾◌,
}
use eos_reimagined.Wire.Peer.{NetEnvelope, serialize_net_envelope}
use eos_reimagined.Channel.Cipher.{init_key}
use eos_reimagined.Channel.Peer.{PeerChannel}
use eos_reimagined.Channel.Peer.Established.{Crossed}
use eos_reimagined.Channel.Peer.Datagrams.{open_all}
use eos_reimagined.Router.{Router, Peer, accept_inbound, send_all, drain_peer}
use eos_reimagined.Router.Stream.{IsFor, attribute, envelopes_arrive}
use eos_reimagined.Router.Datagrams.{Mesh, p2p_data, send_datagram, handle_datagram}
use eos_reimagined.Router.Datagrams.Delivery.{Linked, datagram_delivered}
use eos_reimagined.Base.Assoc.{lookup}
use eos_reimagined.Channel.Replay.Window.{elem}
use eos_reimagined.Router.Listeners.{in_bucket, dispatch}
use eos_reimagined.Router.Listeners.Heard.{
  Once, ListenerCall, call_register, call_unregister, all_called, listens, dispatch_reaches,
}
use eos_reimagined.LabelRegistry.{label_registry, label_count, bucket_for}
use eos_reimagined.LabelRegistry.Labels.{LabelCall, call_label, labelled_all, label_count_bounded}
use eos_reimagined.LabelRegistry.Unique.{times, labels_unique}
use eos_reimagined.HandleStore.{HandleStore, add, find}
use eos_reimagined.HandleStore.Reuse.{
  StoreCall, call_add, call_elsewhere, call_release, called_all, released_stays, add_finds,
}
use eos_reimagined.Tests.Peers.{sender, receiver, toy_cipher, seven, receiver-Crossed}

abbrev alice : Text
alice = b'a' ∷ []

abbrev bob : Text
bob = b'b' ∷ []

abbrev game : Text
game = b'g' ∷ []

abbrev bobs : Router
bobs = record { product_user_id = bob; game_id = game }

-- Alice claims to be someone else.
abbrev forged : NetEnvelope
forged = record {
  type_tag = 22;
  source_id = b'x' ∷ [];
  dest_id = bob;
  game_id = game;
  timestamp = pos 5;
  payload = 1 ∷ 2 ∷ [];
}

abbrev broadcast : NetEnvelope
broadcast = record forged { source_id = alice; dest_id = []; payload = [] }

forged-IsFor : IsFor bobs alice forged
unfolding accept_inbound serialize_net_envelope ◌⨾◌ put_u8 put_u16 put_string put_svar zig_zag
    put_bytes put_var
forged-IsFor = record {
  envelope = record {
    type_tag = omega arith;
    source_id = omega arith;
    dest_id = omega arith;
    game_id = omega arith;
    timestamp = omega arith;
    payload = omega arith;
  };
  small = omega arith;
  ordinary = refl;
  ours = refl;
}

broadcast-IsFor : IsFor bobs alice broadcast
unfolding accept_inbound serialize_net_envelope ◌⨾◌ put_u8 put_u16 put_string put_svar zig_zag
    put_bytes put_var
broadcast-IsFor = record {
  envelope = record {
    type_tag = omega arith;
    source_id = omega arith;
    dest_id = omega arith;
    game_id = omega arith;
    timestamp = omega arith;
    payload = omega arith;
  };
  small = omega arith;
  ordinary = refl;
  ours = refl;
}

abbrev of_alice : Peer
of_alice = record {
  buffer = [];
  channel = receiver;
  epic_id = [];
  datagram_port = 7777;
  last_seen = 0;
}

abbrev envelopes : List NetEnvelope
envelopes = forged ∷ broadcast ∷ []

envelopes_arrive_example :
    (bytes : List ℕ) × (c' : PeerChannel) × (left : Peer) × (send_all toy_cipher envelopes sender
      ≡ (some bytes, c'))
    × (drain_peer toy_cipher bobs alice 9 (record of_alice { buffer = bytes })
        ≡ (map (attribute alice) envelopes, none, left))
    × (left.buffer ≡ [])
    × Crossed c' left.channel
unfolding init_key
envelopes_arrive_example =
    envelopes_arrive toy_cipher bobs alice 9 envelopes sender of_alice receiver-Crossed refl
      (omega arith) (forged-IsFor, (broadcast-IsFor, tt))

abbrev of_bob : Peer
of_bob = record of_alice { channel = sender }

abbrev of_carol : Peer
of_carol = record of_alice { channel = record receiver { udp_recv_tag = 5 } }

abbrev ours : Mesh
ours = record {
  router = record { product_user_id = alice; game_id = game };
  running = true;
  peers = (bob, of_bob) ∷ [];
  datagrams_sent = 0;
  datagrams_received = 0;
}

abbrev theirs : Mesh
theirs = record {
  router = bobs;
  running = true;
  peers = (b'0' ∷ [], of_carol) ∷ (alice, of_alice) ∷ [];
  datagrams_sent = 0;
  datagrams_received = 0;
}

ours-Linked : Linked ours theirs alice bob of_bob of_alice
ours-Linked = record {
  before = [];
  after = [];
  before_there = (b'0' ∷ [], of_carol) ∷ [];
  after_there = [];
  running = refl;
  sender = refl;
  receiver = refl;
  table = refl;
  table_there = refl;
  others = tt;
  others_there = (refl, tt);
  port = refl;
  tags = refl;
  word = omega arith;
  crossed = receiver-Crossed;
}

nothing_opened : receiver ≡ (open_all toy_cipher receiver [] []).0
unfolding open_all
nothing_opened = refl

new_sequence : elem 4 (open_all toy_cipher receiver [] []).1 ≡ false
unfolding open_all
new_sequence = refl

datagram_delivered_example :
    (bytes : List ℕ) × (ours' : Mesh) × (theirs' : Mesh) × (send_datagram toy_cipher true bob seven
        ours
      ≡ (some bytes, ours'))
    × (handle_datagram toy_cipher 9 bytes theirs ≡ (
      some (record {
        type_tag = p2p_data;
        source_id = alice;
        dest_id = bob;
        game_id = game;
        timestamp = pos 0;
        payload = seven;
      }),
      theirs',
    ))
    × ((handle_datagram toy_cipher 9 bytes theirs').0 ≡ none)
datagram_delivered_example =
    datagram_delivered toy_cipher ours theirs alice bob of_bob of_alice seven 9 receiver []
      ours-Linked refl nothing_opened (omega arith) new_sequence (omega arith)

-- A handle of another store, and one that is released.
abbrev store : HandleStore Text
store = record { counter = 9; objects = (3, alice) ∷ (7, bob) ∷ [] }

abbrev store_calls : List (StoreCall Text)
store_calls = call_release 3 ∷ call_add game ∷ call_elsewhere ∷ call_add alice ∷ []

gone : find 5 store ≡ none
unfolding find lookup
gone = refl

released_stays_example : find 5 (called_all store_calls store) ≡ none
released_stays_example = released_stays store_calls store 5 (omega arith) (omega arith) gone

add_finds_example :
    let s = called_all store_calls (record { counter = 1; objects = [] }) in
    let (id, s') = add bob s in (0 < id) × (find id s ≡ none) × (find id s' ≡ some bob)
add_finds_example = add_finds store_calls 1 bob (omega arith) (omega arith)

-- The null id, and one that is short.
abbrev null_id : Text
null_id =
    48 ∷ 48 ∷ 48 ∷ 48 ∷ 48 ∷ 48 ∷ 48 ∷ 48 ∷ 48 ∷ 48 ∷ 48 ∷ 48 ∷ 48 ∷ 48 ∷ 48 ∷ 48 ∷ 48 ∷ 48 ∷ 48
    ∷ 48 ∷ 48 ∷ 48 ∷ 48 ∷ 48 ∷ 48 ∷ 48 ∷ 48 ∷ 48 ∷ 48 ∷ 48 ∷ 48 ∷ 48 ∷ []

-- Registered twice, and one of two taken off again.
abbrev listener_calls : List ListenerCall
listener_calls =
    call_register 20 3 ∷ call_register 20 4 ∷ call_register 20 3 ∷ call_unregister 20 4 ∷ []

dispatch_reaches_example :
    (in_bucket 3 (dispatch 20 (all_called listener_calls [])) ≡ listens 20 3 listener_calls false)
    × Once (dispatch 20 (all_called listener_calls []))
dispatch_reaches_example = dispatch_reaches listener_calls 20 3

-- Two tokens held at most: the third label drops the coldest.
abbrev label_calls : List LabelCall
label_calls =
    call_label 3 alice
    ∷ call_label 3 bob
    ∷ call_label 3 alice
    ∷ call_label 3 game
    ∷ call_label 4 bob
    ∷ []

label_count_bounded_example : label_count 3 (labelled_all label_calls (label_registry 2)) ≤ 2
label_count_bounded_example = label_count_bounded 2 label_calls 3 (omega arith)

labels_unique_example :
    let r = labelled_all label_calls (label_registry 2) in
    times (b's' ∷ b'#' ∷ b'0' ∷ []) (bucket_for (lookup 3 r.buckets)).tokens ≤ 1
labels_unique_example = labels_unique 2 label_calls 3 (b's' ∷ b'#' ∷ b'0' ∷ []) (omega arith)
