-- ===== src/Channel/Peer/Established.antt =====
-- Two channels that carry each other's handshake messages.
use eos_reimagined.Base.{arith, ℕ, ◌≡◌, refl, true, false, none, some, List, [], length, ◌==◌}
use eos_reimagined.Base.Attempt.{◌>>=◌, proceed}
use eos_reimagined.Channel.Cipher.{Aead}
use eos_reimagined.Channel.Handshake.{Curve, x25519_shared, noise_handshake}
use eos_reimagined.Channel.Handshake.Messages.{
  write_first, read_first, write_second, read_second, write_third, read_third, i1, r2, i3, r3,
  message2_size, message3_size, message2, message3,
}
use eos_reimagined.Channel.Handshake.Split.{split_crossed}
use eos_reimagined.Channel.Peer.{
  PeerChannel, step_continue, step_done, peer_channel, peer_open, read_handshake, written, answer,
  consumed, finish, finished, establish, counted, on_handshake, call_handshake, in_handshake,
  we_write, handshake_message_size,
}

-- Two channels that are established with crossed keys.
pub record Crossed (c d : PeerChannel) : Type 0 where
  pub sends : c.send ≡ d.recv
  pub receives : c.recv ≡ d.send
  pub udp_sends : c.udp_send ≡ d.udp_recv
  pub udp_receives : c.udp_recv ≡ d.udp_send
  pub ready : c.established ≡ true
  pub ready_there : d.established ≡ true

-- The opening message of `c` and the three steps that it sets off at `d`, `c` and `d` again, and what
-- they leave.
pub record Authenticated (aead : Aead) (curve : Curve) (e f : List ℕ) (c d : PeerChannel)
    (c_static d_static : List ℕ) : Type 0 where
  pub m1 : List ℕ
  pub m2 : List ℕ
  pub m3 : List ℕ
  pub c1 : PeerChannel
  pub c2 : PeerChannel
  pub d1 : PeerChannel
  pub d2 : PeerChannel
  pub opening : peer_open aead curve (some e) c ≡ (some m1, c1)
  pub first : read_handshake aead curve (some f) m1 d ≡ (some (step_continue, m2), d1)
  pub second : read_handshake aead curve none m2 c1 ≡ (some (step_done, m3), c2)
  pub third : read_handshake aead curve none m3 d1 ≡ (some (step_done, []), d2)
  pub crossed : Crossed c2 d2
  pub knows_d : c2.remote_static ≡ d_static
  pub knows_c : d2.remote_static ≡ c_static

module _ (aead : Aead) (curve : Curve) where
  -- An initiator and a responder with the same prologue, who hold the static secrets `a` and `b` and
  -- draw `e` and `f`, and whose shared secrets are not refused: the opening message and the three
  -- steps that it sets off all succeed, and both ends are established. Each has the static key of the
  -- other, and what either sends with the other receives with, on the stream and in datagrams.
  pub peers_established :
      (prologue a b e f x1 x2 x3 : List ℕ)
      → x25519_shared curve e (curve.public_key f) ≡ some x1
      → x25519_shared curve e (curve.public_key b) ≡ some x2
      → x25519_shared curve a (curve.public_key f) ≡ some x3
      → let c = peer_channel true a (curve.public_key a) prologue in
        let d = peer_channel false b (curve.public_key b) prologue in
        Authenticated aead curve e f c d (curve.public_key a) (curve.public_key b)
  unfolding peer_channel peer_open read_handshake written answer consumed finish finished establish
      counted on_handshake call_handshake in_handshake we_write handshake_message_size ◌>>=◌ proceed
      noise_handshake
  peers_established prologue a b e f x1 x2 x3 ee es se =
      let w1 = write_first aead curve prologue a b e f x1 x2 x3 ee es se in
      let g1 = read_first aead curve prologue a b e f x1 x2 x3 ee es se in
      let w2 = write_second aead curve prologue a b e f x1 x2 x3 ee es se in
      let g2 = read_second aead curve prologue a b e f x1 x2 x3 ee es se in
      let w3 = write_third aead curve prologue a b e f x1 x2 x3 ee es se none in
      let g3 = read_third aead curve prologue a b e f x1 x2 x3 ee es se in
      let n = i3 aead curve prologue a b e f x1 x2 x3 ee es se in
      let m = r3 aead curve prologue a b e f x1 x2 x3 ee es se in
      let s1 : (length (curve.public_key e) == 32) ≡ true = ground (arith, curve.public_length e) in
      let s2 : (length (message2 aead curve prologue a b e f x1 x2 x3 ee es se) == 96) ≡ true =
        ground (arith, message2_size aead curve prologue a b e f x1 x2 x3 ee es se) in
      let s3 : (length (message3 aead curve prologue a b e f x1 x2 x3 ee es se) == 64) ≡ true =
        ground (arith, message3_size aead curve prologue a b e f x1 x2 x3 ee es se) in
      let c = peer_channel true a (curve.public_key a) prologue in
      let d = peer_channel false b (curve.public_key b) prologue in
      let (k, l, sk, sl, ks, kr, us, ur) = split_crossed n m refl refl refl refl refl refl refl in
      record {
        m1 = curve.public_key e;
        m2 = message2 aead curve prologue a b e f x1 x2 x3 ee es se;
        m3 = message3 aead curve prologue a b e f x1 x2 x3 ee es se;
        c1 = record c {
          handshake = some (i1 aead curve prologue a b e f x1 x2 x3 ee es se);
          message_index = 1;
        };
        c2 =
            (establish [] k (record c { remote_static = curve.public_key b; message_index = 3 })).1;
        d1 = record d {
          handshake = some (r2 aead curve prologue a b e f x1 x2 x3 ee es se);
          message_index = 2;
        };
        d2 =
            (establish [] l (record d { remote_static = curve.public_key a; message_index = 3 })).1;
        opening = rw w1 refl;
        first = rw (s1, g1, w2) refl;
        second = rw (s2, g2, w3, sk) refl;
        third = rw (s3, g3, sl) refl;
        crossed = record {
          sends = ks;
          receives = kr;
          udp_sends = us;
          udp_receives = ur;
          ready = refl;
          ready_there = refl;
        };
        knows_d = refl;
        knows_c = refl;
      }
