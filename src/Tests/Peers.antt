-- ===== src/Tests/Peers.antt =====
-- Two peers on a toy curve and a toy cipher, which satisfy what is assumed of them.
use eos_reimagined.Base.{ℕ, ◌<◌, ◌≡◌, refl, Bool, true, false, none, some, List, [], ◌∷◌, arith}
use eos_reimagined.ByteBuffer.{Text}
use eos_reimagined.Crypto.Sha256.{sha256}
use eos_reimagined.Channel.Cipher.{new_cipher, Aead, init_key}
use eos_reimagined.Channel.Replay.{fresh, accept}
use eos_reimagined.Channel.Replay.Window.{Distinct, elem}
use eos_reimagined.Channel.Handshake.{Curve, Handshake, SplitKeys, x25519_shared, split}
use eos_reimagined.Channel.Handshake.Split.{split_crossed}
use eos_reimagined.Channel.Peer.{PeerChannel, peer_channel, seal_datagram, open_datagram}
use eos_reimagined.Channel.Peer.Labels.{mesh_prologue_injective, datagram_ad_injective}
use eos_reimagined.Channel.Peer.Established.{Authenticated, Crossed, peers_established}
use eos_reimagined.Channel.Peer.Datagrams.{open_all, delivered_once, datagram_opens_once}
use eos_reimagined.Channel.Peer.Frames.{seal_all, unseal_all, unseal_all-seal_all}
use eos_reimagined.Channel.Peer.Ready.{
  Call, call_open, call_read, call_seal, called_all, established_ready,
}

abbrev pub sixteen : List ℕ
sixteen = 1 ∷ 2 ∷ 3 ∷ 4 ∷ 5 ∷ 6 ∷ 7 ∷ 8 ∷ 9 ∷ 10 ∷ 11 ∷ 12 ∷ 13 ∷ 14 ∷ 15 ∷ 16 ∷ []

abbrev pub toy_cipher : Aead
toy_cipher = record {
  aead_encrypt = λ key nonce ad plain. (plain, sixteen);
  aead_decrypt = λ key nonce tag ad body. some body;
  body_length = λ key nonce ad plain. refl;
  tag_length = λ key nonce ad plain. refl;
  decrypts = λ key nonce ad plain. refl;
}

abbrev pub toy_key : List ℕ
toy_key =
    9 ∷ 9 ∷ 9 ∷ 9 ∷ 9 ∷ 9 ∷ 9 ∷ 9 ∷ 9 ∷ 9 ∷ 9 ∷ 9 ∷ 9 ∷ 9 ∷ 9 ∷ 9 ∷ 9 ∷ 9 ∷ 9 ∷ 9 ∷ 9 ∷ 9 ∷ 9 ∷ 9
    ∷ 9 ∷ 9 ∷ 9 ∷ 9 ∷ 9 ∷ 9 ∷ 9 ∷ 9 ∷ []

abbrev toy_curve : Curve
toy_curve = record {
  public_key = λ secret. toy_key;
  crypto_x25519 = λ secret peer_public. 7 ∷ [];
  public_length = λ secret. refl;
  agrees = λ a b. refl;
}

abbrev pub seven : List ℕ
seven = 7 ∷ []

abbrev no_id : Text
no_id = []

abbrev five : ℕ
five = 5

toy_shared : (a b : List ℕ) → x25519_shared toy_curve a b ≡ some seven
unfolding x25519_shared
toy_shared a b = refl

peers_established_example :
    Authenticated toy_cipher toy_curve
      (3 ∷ [])
      (4 ∷ [])
      (peer_channel true (1 ∷ []) toy_key (5 ∷ []))
      (peer_channel false (2 ∷ []) toy_key (5 ∷ []))
      toy_key
      toy_key
peers_established_example =
    peers_established toy_cipher toy_curve (5 ∷ []) (1 ∷ []) (2 ∷ []) (3 ∷ []) (4 ∷ []) seven seven
      seven (toy_shared (3 ∷ []) toy_key) (toy_shared (3 ∷ []) toy_key)
      (toy_shared (1 ∷ []) toy_key)

-- Two established channels with crossed keys, the sender behind four datagrams.
abbrev pub sender : PeerChannel
sender = record {
  handshake = none;
  send = init_key (1 ∷ []);
  recv = init_key (2 ∷ []);
  remote_static = toy_key;
  udp_send = 3 ∷ [];
  udp_recv = 4 ∷ [];
  udp_send_tag = 0;
  udp_recv_tag = 0;
  udp_seq = 4;
  udp_replay = fresh;
  initiator = true;
  established = true;
  message_index = 3;
}

abbrev pub receiver : PeerChannel
receiver = record sender {
  send = init_key (2 ∷ []);
  recv = init_key (1 ∷ []);
  udp_send = 4 ∷ [];
  udp_recv = 3 ∷ [];
  initiator = false;
}

-- Out of order, played back, and too short.
abbrev incoming : List (Text × Text × ℕ × List ℕ)
incoming =
    ([], [], 3, 8 ∷ sixteen)
    ∷ ([], [], 1, 8 ∷ sixteen)
    ∷ ([], [], 3, 8 ∷ sixteen)
    ∷ ([], [], 2, 8 ∷ [])
    ∷ []

delivered_example : (open_all toy_cipher receiver [] incoming).1 ≡ 1 ∷ 3 ∷ []
unfolding open_all open_datagram accept
delivered_example = refl

delivered_once_example : Distinct (open_all toy_cipher receiver [] incoming).1
delivered_once_example = delivered_once toy_cipher receiver incoming refl

incoming-Crossed : Crossed sender (open_all toy_cipher receiver [] incoming).0
unfolding open_all open_datagram accept
incoming-Crossed = record {
  sends = refl;
  receives = refl;
  udp_sends = refl;
  udp_receives = refl;
  ready = refl;
  ready_there = refl;
}

incoming_new : elem 4 (open_all toy_cipher receiver [] incoming).1 ≡ false
incoming_new = rw delivered_example refl

incoming_near : (open_all toy_cipher receiver [] incoming).0.udp_replay.highest < 68
unfolding open_all open_datagram accept
incoming_near = omega arith

datagram_opens_once_example :
    (out : List ℕ) × (e : PeerChannel) × (seal_datagram toy_cipher [] [] seven sender
      ≡ (some (4, out), record sender { udp_seq = 5 }))
    × (open_datagram toy_cipher [] [] 4 out (open_all toy_cipher receiver [] incoming).0
        ≡ (some seven, e))
    × (open_datagram toy_cipher [] [] 4 out e ≡ (none, e))
datagram_opens_once_example =
    datagram_opens_once toy_cipher sender receiver incoming [] [] seven refl incoming-Crossed
      (omega arith) incoming_new incoming_near

too_short : (open_datagram toy_cipher [] [] 4 seven receiver).0 ≡ none
unfolding open_datagram
too_short = refl

pub receiver-Crossed : Crossed sender receiver
receiver-Crossed = record {
  sends = refl;
  receives = refl;
  udp_sends = refl;
  udp_receives = refl;
  ready = refl;
  ready_there = refl;
}

abbrev frames : List (List ℕ × List ℕ)
frames = (1 ∷ [], 7 ∷ 8 ∷ []) ∷ ([], 9 ∷ []) ∷ []

unseal_all-seal_all_example :
    unseal_all toy_cipher receiver (seal_all toy_cipher sender frames) ≡ frames
unfolding init_key
unseal_all-seal_all_example =
    unseal_all-seal_all toy_cipher sender receiver frames receiver-Crossed refl (omega arith)

abbrev calls : List Call
calls = call_open (some seven) ∷ call_seal seven [] ∷ call_read none seven ∷ []

established_ready_example :
    let c = called_all toy_cipher toy_curve calls (peer_channel true (1 ∷ []) toy_key []) in
    (c.established ≡ true → c.handshake ≡ none)
    × (c.established ≡ true → c.send.has_key ≡ true)
    × (c.established ≡ true → c.recv.has_key ≡ true)
established_ready_example = established_ready toy_cipher toy_curve true (1 ∷ []) toy_key [] calls

mesh_prologue_injective_example : (seven ≡ seven) × (toy_key ≡ toy_key) × (no_id ≡ no_id)
mesh_prologue_injective_example =
    mesh_prologue_injective seven toy_key [] seven toy_key [] (omega arith) (omega arith)
      (omega arith) (omega arith) (omega arith) (omega arith) refl

datagram_ad_injective_example : (seven ≡ seven) × (toy_key ≡ toy_key) × (five ≡ five)
datagram_ad_injective_example =
    datagram_ad_injective seven toy_key seven toy_key 5 5 (omega arith) (omega arith) (omega arith)
      (omega arith) (omega arith) (omega arith) refl

-- The end of a handshake.
abbrev ended : Bool → Handshake
ended initiator = record {
  symmetric = record { ck = toy_key; h = toy_key; cs = new_cipher };
  initiator = initiator;
  s_priv = seven;
  s_pub = toy_key;
  e_priv = seven;
  e_pub = toy_key;
  have_e = true;
  remote_static = toy_key;
  have_rs = true;
  re = toy_key;
  have_re = true;
  fixed_ephemeral = false;
  fixed_e_priv = toy_key;
  message_index = 3;
  done = true;
  split_done = false;
  handshake_hash = toy_key;
}

split_crossed_example :
    (k : SplitKeys) × (l : SplitKeys) × (split (ended true)
      ≡ (some k, record (ended true) { split_done = true }))
    × (split (ended false) ≡ (some l, record (ended false) { split_done = true }))
    × (k.send ≡ l.recv)
    × (k.recv ≡ l.send)
    × (k.udp_send ≡ l.udp_recv)
    × (k.udp_recv ≡ l.udp_send)
split_crossed_example = split_crossed (ended true) (ended false) refl refl refl refl refl refl refl

-- The digest of "abc", from the standard.
sha256_abc :
    sha256 (97 ∷ 98 ∷ 99 ∷ [])
    ≡ 0xba ∷ 0x78 ∷ 0x16 ∷ 0xbf ∷ 0x8f ∷ 0x01 ∷ 0xcf ∷ 0xea ∷ 0x41 ∷ 0x41 ∷ 0x40 ∷ 0xde ∷ 0x5d
      ∷ 0xae ∷ 0x22 ∷ 0x23 ∷ 0xb0 ∷ 0x03 ∷ 0x61 ∷ 0xa3 ∷ 0x96 ∷ 0x17 ∷ 0x7a ∷ 0x9c ∷ 0xb4 ∷ 0x10
      ∷ 0xff ∷ 0x61 ∷ 0xf2 ∷ 0x00 ∷ 0x15 ∷ 0xad ∷ []
unfolding sha256
sha256_abc = refl
