-- ===== src/Channel/Peer/Frames.antt =====
-- The frames of the stream between two established channels.
use eos_reimagined.Base.{
  ℕ, ◌+◌, ◌≤◌, ◌<◌, ◌≡◌, refl, sym, ap, ◌∙◌, true, false, Option, none, some, List, [], ◌∷◌, length,
  ltb, arith,
}
use eos_reimagined.Channel.Cipher.{Aead, reserved_nonce, encrypt, decrypt}
use eos_reimagined.Channel.Cipher.Order.{
  decrypt-encrypt, encrypt-counts, encrypt-has_key, length-encrypt,
}
use eos_reimagined.Channel.Peer.{PeerChannel, seal, unseal, sealed_by, unsealed_by}
use eos_reimagined.Channel.Peer.Established.{Crossed}

module _ (aead : Aead) where
  -- One frame, which leaves both ends ready for the next.
  pub unseal-seal :
      (c d : PeerChannel) (ad plain : List ℕ)
      → Crossed c d
      → c.send.has_key ≡ true
      → c.send.nonce < reserved_nonce
      → (cipher : List ℕ) × (c' : PeerChannel) × (d' : PeerChannel) × (seal aead plain ad c
          ≡ (some cipher, c'))
        × (unseal aead cipher ad d ≡ (some plain, d'))
        × Crossed c' d'
        × (c'.send.has_key ≡ true)
        × (c'.send.nonce ≤ c.send.nonce + 1)
        × (length cipher ≡ length plain + 16)
  unfolding seal unseal sealed_by unsealed_by
  unseal-seal c d ad plain crossed keyed fresh =
      let (cipher, sent, got) = decrypt-encrypt aead c.send ad plain fresh in
      let s = (encrypt aead c.send ad plain).1 in
      let size = length-encrypt aead c.send ad plain cipher fresh sent in
      let long : ltb (length cipher) 16 ≡ false = ground (arith, keyed, size) in
      let there : decrypt aead d.recv ad cipher ≡ (some plain, s) =
        ap (λ x. decrypt aead x ad cipher) (sym crossed.sends) ∙ got in
      (
        cipher,
        record c { send = s },
        record d { recv = s },
        simp (crossed.ready, sent) refl,
        simp (crossed.ready_there, long, there) refl,
        record {
          sends = refl;
          receives = crossed.receives;
          udp_sends = crossed.udp_sends;
          udp_receives = crossed.udp_receives;
          ready = crossed.ready;
          ready_there = crossed.ready_there;
        },
        encrypt-has_key aead c.send ad plain ∙ keyed,
        encrypt-counts aead c.send ad plain fresh,
        size ∙ simp keyed refl,
      )

  -- Frames that are sealed in turn, and the sealed ones opened in turn, each up to the first that
  -- fails.
  sealed_then : List ℕ → Option (List ℕ) → List (List ℕ × List ℕ) → List (List ℕ × List ℕ)
  sealed_then ad none rest = []
  sealed_then ad (some bytes) rest = (ad, bytes) ∷ rest

  unfoldable pub seal_all : PeerChannel → List (List ℕ × List ℕ) → List (List ℕ × List ℕ)
  unfolding sealed_then
  seal_all c [] = []
  seal_all c ((ad, plain) ∷ fs) =
      let (cipher, c') = seal aead plain ad c in sealed_then ad cipher (seal_all c' fs)

  unfoldable pub unseal_all : PeerChannel → List (List ℕ × List ℕ) → List (List ℕ × List ℕ)
  unfolding sealed_then
  unseal_all d [] = []
  unseal_all d ((ad, cipher) ∷ fs) =
      let (plain, d') = unseal aead cipher ad d in sealed_then ad plain (unseal_all d' fs)

  -- Between two channels with crossed keys, the sender's cipher keyed, frames with any associated
  -- data, as many as the nonce has room for, all open in the order they were sealed in, to what was
  -- sealed.
  pub unseal_all-seal_all :
      (c d : PeerChannel) (frames : List (List ℕ × List ℕ))
      → Crossed c d
      → c.send.has_key ≡ true
      → c.send.nonce + length frames ≤ reserved_nonce
      → unseal_all d (seal_all c frames) ≡ frames
  unfolding seal_all unseal_all sealed_then
  unseal_all-seal_all c d [] crossed keyed room = refl
  unseal_all-seal_all c d ((ad, plain) ∷ frames) crossed keyed room =
      let (cipher, c', d', sent, got, crossed', keyed', counted, size) =
        unseal-seal c d ad plain crossed keyed (omega (arith, room)) in
      let rest = unseal_all-seal_all c' d' frames crossed' keyed' (omega (arith, room, counted)) in
      simp (sent, got, rest) refl
