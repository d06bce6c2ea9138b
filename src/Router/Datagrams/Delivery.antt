-- ===== src/Router/Datagrams/Delivery.antt =====
-- A datagram that one router sends is dispatched by the other.
use eos_reimagined.Base.{
  Bool-cases, inl, inr, ◌-◌, All, ℕ, ◌+◌, ◌*◌, ◌/◌, ◌%◌, ◌^◌, ◌<◌, ◌≤◌, ◌≡◌, refl, sym, ap, ◌∙◌,
  true, false, none, some, List, [], ◌∷◌, ◌++◌, length, ltb, le→ltb_false, ◌==◌, bit_or, arith,
}
use eos_reimagined.Base.Bits.{bit_or_above}
use eos_reimagined.Base.Int.{pos}
use eos_reimagined.ByteBuffer.{Text}
use eos_reimagined.Frame.Stream.{body_length_lem}
use eos_reimagined.Channel.Cipher.{Aead}
use eos_reimagined.Channel.Replay.{fresh}
use eos_reimagined.Channel.Replay.Window.{elem}
use eos_reimagined.Channel.Peer.{PeerChannel, seal_datagram, open_datagram}
use eos_reimagined.Channel.Peer.Established.{Crossed}
use eos_reimagined.Channel.Peer.Datagrams.{open_all, open_datagram_tag, datagram_opens_once}
use eos_reimagined.Router.{Router, Peer, same_text, write_be32}
use eos_reimagined.Router.Datagrams.{
  Mesh, write_be64, read_be, read_be32, read_be64, p2p_data, send_datagram, handle_datagram,
  sealed_for, send_by, socket_takes, opened_from, open_by, count_received,
}

joined : (q r : ℕ) → q < 2 ^ 56 → r < 2 ^ 8 → bit_or (q * 2 ^ 8 % 2 ^ 64) r ≡ q * 2 ^ 8 + r
joined q r hq hr =
    let small : q * 2 ^ 8 % 2 ^ 64 ≡ q * 2 ^ 8 = omega (arith, hq) in
    rw small (bit_or_above 56 8 q r hq hr)

read_be64-write_be64 : (n : ℕ) (rest : List ℕ) → n < 2 ^ 64 → read_be64 (write_be64 n ++ rest) ≡ n
unfolding read_be64 read_be write_be64
read_be64-write_be64 n rest h =
    let e1 : bit_or 0 (n / 2 ^ 56 % 2 ^ 8) ≡ n / 2 ^ 56 =
      joined 0 (n / 2 ^ 56 % 2 ^ 8) (omega arith) (omega arith) ∙ omega (arith, h) in
    let e2 : bit_or (n / 2 ^ 56 * 2 ^ 8 % 2 ^ 64) (n / 2 ^ 48 % 2 ^ 8) ≡ n / 2 ^ 48 =
      joined (n / 2 ^ 56) (n / 2 ^ 48 % 2 ^ 8) (omega (arith, h)) (omega arith)
      ∙ omega (arith, h) in
    let e3 : bit_or (n / 2 ^ 48 * 2 ^ 8 % 2 ^ 64) (n / 2 ^ 40 % 2 ^ 8) ≡ n / 2 ^ 40 =
      joined (n / 2 ^ 48) (n / 2 ^ 40 % 2 ^ 8) (omega (arith, h)) (omega arith)
      ∙ omega (arith, h) in
    let e4 : bit_or (n / 2 ^ 40 * 2 ^ 8 % 2 ^ 64) (n / 2 ^ 32 % 2 ^ 8) ≡ n / 2 ^ 32 =
      joined (n / 2 ^ 40) (n / 2 ^ 32 % 2 ^ 8) (omega (arith, h)) (omega arith)
      ∙ omega (arith, h) in
    let e5 : bit_or (n / 2 ^ 32 * 2 ^ 8 % 2 ^ 64) (n / 2 ^ 24 % 2 ^ 8) ≡ n / 2 ^ 24 =
      joined (n / 2 ^ 32) (n / 2 ^ 24 % 2 ^ 8) (omega (arith, h)) (omega arith)
      ∙ omega (arith, h) in
    let e6 : bit_or (n / 2 ^ 24 * 2 ^ 8 % 2 ^ 64) (n / 2 ^ 16 % 2 ^ 8) ≡ n / 2 ^ 16 =
      joined (n / 2 ^ 24) (n / 2 ^ 16 % 2 ^ 8) (omega (arith, h)) (omega arith)
      ∙ omega (arith, h) in
    let e7 : bit_or (n / 2 ^ 16 * 2 ^ 8 % 2 ^ 64) (n / 2 ^ 8 % 2 ^ 8) ≡ n / 2 ^ 8 =
      joined (n / 2 ^ 16) (n / 2 ^ 8 % 2 ^ 8) (omega (arith, h)) (omega arith) ∙ omega (arith, h) in
    let e8 : bit_or (n / 2 ^ 8 * 2 ^ 8 % 2 ^ 64) (n % 2 ^ 8) ≡ n =
      joined (n / 2 ^ 8) (n % 2 ^ 8) (omega (arith, h)) (omega arith) ∙ omega (arith, h) in
    rw (e1, e2, e3, e4, e5, e6, e7, e8) refl

read_be32-write_be32 : (n : ℕ) (rest : List ℕ) → n < 2 ^ 32 → read_be32 (write_be32 n ++ rest) ≡ n
unfolding read_be32 write_be32
read_be32-write_be32 n rest h = body_length_lem n h

same_text_refl : (t : Text) → same_text t t ≡ true
same_text_refl [] = refl
same_text_refl (x ∷ xs) = ground (arith, same_text_refl xs)

module _ (aead : Aead) where
  -- The entry under an id, behind entries with other ids.
  send_by-found :
      (before after : List (Text × Peer)) (own to : Text) (payload : List ℕ) (entry : Peer)
      → All (λ p. same_text p.0 to ≡ false) before
      → (entry.datagram_port == 0) ≡ false
      → let (sent, entry') =
          sealed_for aead entry (seal_datagram aead own to payload entry.channel) in
        send_by aead own to payload (before ++ (to, entry) ∷ after)
        ≡ (sent, before ++ (to, entry') ∷ after)
  unfolding send_by
  send_by-found [] after own to payload entry others port = simp (same_text_refl to, port) refl
  send_by-found ((id, p) ∷ before) after own to payload entry (other, others) port =
      let rest = send_by-found before after own to payload entry others port in
      simp (other, rest) refl

  -- The entry with a tag, behind entries with other tags.
  open_by-found :
      (before after : List (Text × Peer)) (router : Router) (now tag seq : ℕ) (cipher : List ℕ)
      (from : Text) (entry : Peer)
      → All (λ p. (p.1.channel.udp_recv_tag == tag) ≡ false) before
      → (entry.channel.udp_recv_tag == tag) ≡ true
      → let (msg, entry') =
          opened_from aead router from now entry
            (open_datagram aead from router.product_user_id seq cipher entry.channel) in
        open_by aead router now tag seq cipher (before ++ (from, entry) ∷ after)
        ≡ (msg, before ++ (from, entry') ∷ after)
  unfolding open_by
  open_by-found [] after router now tag seq cipher from entry others here = simp here refl
  open_by-found ((id, p) ∷ before) after router now tag seq cipher from entry (other, others) here =
      let rest = open_by-found before after router now tag seq cipher from entry others here in
      simp (other, rest) refl

  -- The fields of the header are read back.
  header : (tag seq : ℕ) (sealed : List ℕ) → List ℕ
  header tag seq sealed = 2 ∷ [] ++ (write_be32 tag ++ write_be64 seq) ++ sealed

  handle_datagram-header :
      (now tag seq : ℕ) (sealed : List ℕ) (mesh : Mesh)
      → tag < 2 ^ 32
      → seq < 2 ^ 64
      → 16 ≤ length sealed
      → handle_datagram aead now (header tag seq sealed) mesh
        ≡ count_received aead mesh (open_by aead mesh.router now tag seq sealed mesh.peers)
  unfolding handle_datagram header write_be32 write_be64
  handle_datagram-header now tag seq sealed mesh ht hs long =
      let enough : ltb (length (header tag seq sealed)) 29 ≡ false =
        le→ltb_false 29 _ (omega (arith, long)) in
      let t = read_be32-write_be32 tag (write_be64 seq ++ sealed) ht in
      let s = read_be64-write_be64 seq sealed hs in simp (enough, t, s) refl

-- A sender's mesh and a receiver's: the entry that the sender has for `to` and the one that the
-- receiver has for `from` are the two ends of one channel, each found first in its table.
pub record Linked (ours theirs : Mesh) (from to : Text) (entry there : Peer) : Type 0 where
  pub before : List (Text × Peer)
  pub after : List (Text × Peer)
  pub before_there : List (Text × Peer)
  pub after_there : List (Text × Peer)
  pub running : ours.running ≡ true
  pub sender : ours.router.product_user_id ≡ from
  pub receiver : theirs.router.product_user_id ≡ to
  pub table : ours.peers ≡ before ++ (to, entry) ∷ after
  pub table_there : theirs.peers ≡ before_there ++ (from, there) ∷ after_there
  pub others : All (λ p. same_text p.0 to ≡ false) before
  pub others_there :
      All (λ p. (p.1.channel.udp_recv_tag == entry.channel.udp_send_tag) ≡ false) before_there
  pub port : (entry.datagram_port == 0) ≡ false
  pub tags : (there.channel.udp_recv_tag == entry.channel.udp_send_tag) ≡ true
  pub word : entry.channel.udp_send_tag < 2 ^ 32
  pub crossed : Crossed entry.channel there.channel

module _ (aead : Aead) where
  opened-long :
      (from to : Text) (seq : ℕ) (cipher plain : List ℕ) (c d : PeerChannel)
      → open_datagram aead from to seq cipher c ≡ (some plain, d)
      → 16 ≤ length cipher
  unfolding open_datagram
  opened-long from to seq cipher plain c d e = elim (Bool-cases (ltb (length cipher) 16)) [
    | inr long ↦ ground (arith, long)
    | inl short ↦ elim (Bool-cases c.established) [
      | inl live ↦
          absurd (let f : none ≡ some plain = ap (λ r. r.0) (simp (live, short) at e) in cc)
      | inr early ↦
          absurd (let f : none ≡ some plain = ap (λ r. r.0) (simp (early, short) at e) in cc)
    ]
  ]

  -- Between linked meshes, the receiver's channel behind any incoming datagrams `ds` from a new window:
  -- what the sender puts on the socket, if the sequence is not the last one, not delivered yet and
  -- less than 64 behind the highest that was, is dispatched by the receiver, as data from the
  -- sender with the payload that was sent; played back, it is dropped.
  pub datagram_delivered :
      (ours theirs : Mesh) (from to : Text) (entry there : Peer) (payload : List ℕ) (now : ℕ)
      (d : PeerChannel) (ds : List (Text × Text × ℕ × List ℕ))
      → Linked ours theirs from to entry there
      → d.udp_replay ≡ fresh
      → there.channel ≡ (open_all aead d [] ds).0
      → entry.channel.udp_seq < 2 ^ 64 - 1
      → elem entry.channel.udp_seq (open_all aead d [] ds).1 ≡ false
      → there.channel.udp_replay.highest < entry.channel.udp_seq + 64
      → (bytes : List ℕ) × (ours' : Mesh) × (theirs' : Mesh) × (send_datagram aead true to payload
            ours
          ≡ (some bytes, ours'))
        × (handle_datagram aead now bytes theirs ≡ (
          some (record {
            type_tag = p2p_data;
            source_id = from;
            dest_id = to;
            game_id = theirs.router.game_id;
            timestamp = pos 0;
            payload = payload;
          }),
          theirs',
        ))
        × ((handle_datagram aead now bytes theirs').0 ≡ none)
  unfolding send_datagram socket_takes sealed_for opened_from count_received header
  datagram_delivered ours theirs from to entry there payload now d ds linked start history last new
        near =
      let c = entry.channel in
      let e = there.channel in
      let crossed : Crossed c (open_all aead d [] ds).0 = rw (← history) linked.crossed in
      let near' : (open_all aead d [] ds).0.udp_replay.highest < c.udp_seq + 64 =
        rw (← history) near in
      let (out, e', sent, opens, again) =
        datagram_opens_once aead c d ds from to payload start crossed last new near' in
      let opened : open_datagram aead from to c.udp_seq out e ≡ (some payload, e') =
        rw history opens in
      let put =
        send_by-found aead linked.before linked.after from to payload entry linked.others
          linked.port in
      let got =
        open_by-found aead linked.before_there linked.after_there theirs.router now c.udp_send_tag
          c.udp_seq out from there linked.others_there linked.tags in
      let parsed =
        handle_datagram-header aead now c.udp_send_tag c.udp_seq out theirs linked.word
          (omega (arith, last)) (opened-long from to c.udp_seq out payload e e' opened) in
      let next = record there { channel = e'; last_seen = now } in
      let tag : e'.udp_recv_tag ≡ e.udp_recv_tag =
        ap (λ r. r.1.udp_recv_tag) (sym opened) ∙ open_datagram_tag aead from to c.udp_seq out e in
      let tags : (e'.udp_recv_tag == c.udp_send_tag) ≡ true = rw tag linked.tags in
      let replayed =
        open_by-found aead linked.before_there linked.after_there theirs.router now c.udp_send_tag
          c.udp_seq out from next linked.others_there tags in
      let behind : Mesh = record theirs {
        peers = linked.before_there ++ (from, next) ∷ linked.after_there;
        datagrams_received = (theirs.datagrams_received + 1) % 2 ^ 64;
      } in
      let parsed_again =
        handle_datagram-header aead now c.udp_send_tag c.udp_seq out behind linked.word
          (omega (arith, last)) (opened-long from to c.udp_seq out payload e e' opened) in
      let dropped : handle_datagram aead now (header aead c.udp_send_tag c.udp_seq out) behind ≡ (
        none,
        record behind {
          peers = linked.before_there ++ (from, record next { channel = e' }) ∷ linked.after_there;
        },
      ) =
        parsed_again ∙ simp (replayed, linked.receiver, again) refl in
      (
        header aead c.udp_send_tag c.udp_seq out,
        record ours {
          peers =
              linked.before
              ++ (to, record entry { channel = record c { udp_seq = c.udp_seq + 1 } })
                ∷ linked.after;
          datagrams_sent = (ours.datagrams_sent + 1) % 2 ^ 64;
        },
        behind,
        simp (linked.running, linked.sender, linked.table, put, sent) refl,
        parsed ∙ simp (linked.table_there, got, linked.receiver, opened) refl,
        ap (λ r. r.0) dropped,
      )
