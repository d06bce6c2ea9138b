-- ===== src/Channel/Peer/Datagrams.antt =====
-- Datagrams between two established channels, and those of anybody else.
use eos_reimagined.Base.{
  ℕ, ◌+◌, ◌-◌, ◌^◌, ◌<◌, ◌≡◌, refl, ◌∙◌, true, false, not, ◌||◌, Option, none, some, List, [], ◌∷◌,
  ◌++◌, length, length-append, take-length_append, drop-length_append, ltb, ◌==◌, arith, Bool-cases,
  inl, inr,
}
use eos_reimagined.ByteBuffer.{Text}
use eos_reimagined.Channel.Cipher.{Aead}
use eos_reimagined.Channel.Replay.{accept, fresh}
use eos_reimagined.Channel.Replay.Window.{
  Tracks, Distinct, elem, accept-Tracks, accept-eq-passes, accept_refused, Tracks-fresh,
}
use eos_reimagined.Channel.Peer.{
  PeerChannel, seal_datagram, open_datagram, accepted, datagram_ad, build_datagram_nonce,
}
use eos_reimagined.Channel.Peer.Established.{Crossed}

module _ (aead : Aead) where
  -- The sealed bytes of a channel's next datagram.
  abbrev datagram : Text → Text → List ℕ → PeerChannel → List ℕ
  datagram from to plain c =
      let (body, tag) =
        aead.aead_encrypt c.udp_send (build_datagram_nonce c.udp_seq)
          (datagram_ad from to c.udp_seq) plain in
      body ++ tag

  -- The other end decrypts it.
  open_datagram-decrypts :
      (c d : PeerChannel) (from to : Text) (plain : List ℕ)
      → d.established ≡ true
      → c.udp_send ≡ d.udp_recv
      → open_datagram aead from to c.udp_seq (datagram from to plain c) d
        ≡ accepted aead c.udp_seq d (some plain)
  unfolding open_datagram
  open_datagram-decrypts c d from to plain live same =
      let n = build_datagram_nonce c.udp_seq in
      let ad = datagram_ad from to c.udp_seq in
      let (body, tag) = aead.aead_encrypt c.udp_send n ad plain in
      let size = length-append body tag in
      let tagged = aead.tag_length c.udp_send n ad plain in
      let long : ltb (length (body ++ tag)) 16 ≡ false = ground (arith, size, tagged) in
      let cut : length (body ++ tag) - 16 ≡ length body = omega (arith, size, tagged) in
      simp
        (
          live,
          long,
          cut,
          take-length_append body tag,
          drop-length_append body tag,
          ← same,
          aead.decrypts c.udp_send n ad plain,
        )
        refl

  accepted_refused :
      (seq : ℕ) (c : PeerChannel) (r : Option (List ℕ))
      → (accepted aead seq c r).0 ≡ none
      → (accepted aead seq c r).1 ≡ c
  unfolding accepted
  accepted_refused seq c none e = refl
  accepted_refused seq c (some plain) e = elim (Bool-cases (accept c.udp_replay seq).0) [
    | inl passed ↦ absurd (let f : some plain ≡ none = (rw passed at e) in cc)
    | inr refused ↦ let same = accept_refused c.udp_replay seq refused in rw same refl
  ]

  -- A datagram that is refused, whatever it is, leaves the channel as it was, the window included.
  pub open_datagram_refused :
      (from to : Text) (seq : ℕ) (cipher : List ℕ) (c : PeerChannel)
      → (open_datagram aead from to seq cipher c).0 ≡ none
      → (open_datagram aead from to seq cipher c).1 ≡ c
  unfolding open_datagram
  open_datagram_refused from to seq cipher c h =
      elim (Bool-cases (not c.established || ltb (length cipher) 16)) [
        | inl early ↦ rw early refl
        | inr ready ↦ rw ready (accepted_refused seq c _ (rw ready at h))
      ]

  accepted_tag :
      (seq : ℕ) (c : PeerChannel) (r : Option (List ℕ))
      → (accepted aead seq c r).1.udp_recv_tag ≡ c.udp_recv_tag
  unfolding accepted
  accepted_tag seq c none = refl
  accepted_tag seq c (some plain) = refl

  pub open_datagram_tag :
      (from to : Text) (seq : ℕ) (cipher : List ℕ) (c : PeerChannel)
      → (open_datagram aead from to seq cipher c).1.udp_recv_tag ≡ c.udp_recv_tag
  unfolding open_datagram
  open_datagram_tag from to seq cipher c =
      elim (Bool-cases (not c.established || ltb (length cipher) 16)) [
        | inl early ↦ rw early refl
        | inr ready ↦ rw ready (accepted_tag seq c _)
      ]

  -- The sequences delivered so far, and one more if the datagram opened.
  abbrev delivered : ℕ → Option (List ℕ) → List ℕ → List ℕ
  delivered seq none h = h
  delivered seq (some plain) h = seq ∷ h

  -- The window is in step with what was delivered, each sequence of it once.
  abbrev InStep : PeerChannel → List ℕ → Type 0
  InStep c h = Tracks c.udp_replay h × Distinct h

  accepted-InStep :
      (seq : ℕ) (c : PeerChannel) (r : Option (List ℕ)) (h : List ℕ)
      → InStep c h
      → InStep (accepted aead seq c r).1 (delivered seq (accepted aead seq c r).0 h)
  unfolding accepted
  accepted-InStep seq c none h inv = inv
  accepted-InStep seq c (some plain) h (tracks, distinct) =
      let t = accept-Tracks c.udp_replay h seq tracks in
      elim (Bool-cases (accept c.udp_replay seq).0) [
        | inl passed ↦
            let new : elem seq h ≡ false =
              ground (arith, passed, accept-eq-passes c.udp_replay h seq tracks) in
            rw passed ((rw passed at t), (new, distinct))
        | inr refused ↦ rw refused ((rw refused at t), distinct)
      ]

  open_datagram-InStep :
      (from to : Text) (seq : ℕ) (cipher : List ℕ) (c : PeerChannel) (h : List ℕ)
      → InStep c h
      → let (r, c') = open_datagram aead from to seq cipher c in InStep c' (delivered seq r h)
  unfolding open_datagram
  open_datagram-InStep from to seq cipher c h inv =
      elim (Bool-cases (not c.established || ltb (length cipher) 16)) [
        | inl early ↦ rw early inv
        | inr ready ↦ rw ready (accepted-InStep seq c _ h inv)
      ]

  -- Datagrams as they come in: who they claim to be from and for, their sequence and their bytes. The
  -- result is the channel behind them, and the sequences that were delivered, the last one first.
  unfoldable pub open_all :
      PeerChannel → List ℕ → List (Text × Text × ℕ × List ℕ) → PeerChannel × List ℕ
  open_all c h [] = (c, h)
  open_all c h ((from, to, seq, cipher) ∷ ds) =
      let (r, c') = open_datagram aead from to seq cipher c in open_all c' (delivered seq r h) ds

  open_all-InStep :
      (ds : List (Text × Text × ℕ × List ℕ)) (c : PeerChannel) (h : List ℕ)
      → InStep c h
      → let (c', h') = open_all c h ds in InStep c' h'
  unfolding open_all
  open_all-InStep [] c h inv = inv
  open_all-InStep ((from, to, seq, cipher) ∷ ds) c h inv =
      let (r, c') = open_datagram aead from to seq cipher c in
      open_all-InStep ds c' (delivered seq r h) (open_datagram-InStep from to seq cipher c h inv)

  -- On a channel whose window is new, whatever comes in, forged, played back or out of order: no
  -- sequence is delivered twice.
  pub delivered_once :
      (c : PeerChannel) (ds : List (Text × Text × ℕ × List ℕ))
      → c.udp_replay ≡ fresh
      → Distinct (open_all c [] ds).1
  delivered_once c ds new = (open_all-InStep ds c [] ((rw new Tracks-fresh), tt)).1

  -- The next datagram, for a receiver in step with its history.
  opens_once :
      (c e : PeerChannel) (h : List ℕ) (from to : Text) (plain : List ℕ)
      → InStep e h
      → Crossed c e
      → elem c.udp_seq h ≡ false
      → e.udp_replay.highest < c.udp_seq + 64
      → (e' : PeerChannel) × (open_datagram aead from to c.udp_seq (datagram from to plain c) e
          ≡ (some plain, e'))
        × (open_datagram aead from to c.udp_seq (datagram from to plain c) e' ≡ (none, e'))
  unfolding accepted
  opens_once c e h from to plain (tracks, distinct) crossed new near =
      let seq = c.udp_seq in
      let first = accept-eq-passes e.udp_replay h seq tracks in
      let passed : (accept e.udp_replay seq).0 ≡ true = ground (arith, first, new, near) in
      let w = (accept e.udp_replay seq).1 in
      let e' = record e { udp_replay = w } in
      let after : Tracks w (seq ∷ h) = rw passed at (accept-Tracks e.udp_replay h seq tracks) in
      let second : (accept w seq).0 ≡ false =
        ground (arith, accept-eq-passes w (seq ∷ h) seq after) in
      let again = accept_refused w seq second in
      (
        e',
        open_datagram-decrypts c e from to plain crossed.ready_there crossed.udp_sends
            ∙ rw passed refl,
        open_datagram-decrypts c e' from to plain crossed.ready_there crossed.udp_sends
            ∙ rw again refl,
      )

  -- Two channels with crossed keys, the receiver behind any incoming datagrams from a new window: the
  -- sender's next datagram, if its sequence has not been delivered, is less than 64 behind the
  -- highest that has and is not the last of the 64-bit ones, opens to what was sealed; played back,
  -- it is refused.
  pub datagram_opens_once :
      (c d : PeerChannel) (ds : List (Text × Text × ℕ × List ℕ)) (from to : Text) (plain : List ℕ)
      → d.udp_replay ≡ fresh
      → Crossed c (open_all d [] ds).0
      → c.udp_seq < 2 ^ 64 - 1
      → elem c.udp_seq (open_all d [] ds).1 ≡ false
      → (open_all d [] ds).0.udp_replay.highest < c.udp_seq + 64
      → (out : List ℕ) × (e : PeerChannel) × (seal_datagram aead from to plain c
          ≡ (some (c.udp_seq, out), record c { udp_seq = c.udp_seq + 1 }))
        × (open_datagram aead from to c.udp_seq out (open_all d [] ds).0 ≡ (some plain, e))
        × (open_datagram aead from to c.udp_seq out e ≡ (none, e))
  unfolding seal_datagram
  datagram_opens_once c d ds from to plain start crossed last new near =
      let (d', h) = open_all d [] ds in
      let inv = open_all-InStep ds d [] (rw start Tracks-fresh, tt) in
      let (e, opened, again) = opens_once c d' h from to plain inv crossed new near in
      let unspent : (c.udp_seq == 2 ^ 64 - 1) ≡ false = ground (arith, last) in
      (datagram from to plain c, e, simp (crossed.ready, unspent) refl, opened, again)
