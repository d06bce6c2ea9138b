-- ===== src/Channel/Handshake/Agreement.antt =====
-- An honest exchange of the three messages, each delivered as it was written.
use eos_reimagined.Base.{ℕ, ◌≡◌, refl, true, false, Option, none, some, List, []}
use eos_reimagined.Channel.Cipher.{Aead}
use eos_reimagined.Channel.Handshake.{
  Curve, x25519_shared, Handshake, noise_handshake, write_message, read_message,
}
use eos_reimagined.Channel.Handshake.Messages.{
  write_first, read_first, write_second, read_second, write_third, read_third, i3, r3,
}

module _ (aead : Aead) (curve : Curve) where
  received : Handshake → Option (List ℕ) × Handshake → Option (Handshake × Handshake)
  received writer (none, reader) = none
  received writer (some payload, reader) = some (writer, reader)

  delivered : Handshake → Option (List ℕ) × Handshake → Option (Handshake × Handshake)
  unfolding received
  delivered reader (none, writer) = none
  delivered reader (some message, writer) = received writer (read_message aead curve message reader)

  -- A message with an empty payload from `writer` to `reader`.
  unfoldable pub carry : Option (List ℕ) → Handshake → Handshake → Option (Handshake × Handshake)
  unfolding delivered received
  carry random writer reader = delivered reader (write_message aead curve random [] writer)

  third : Option (Handshake × Handshake) → Option (Handshake × Handshake)
  third none = none
  third (some (responder, initiator)) = carry none initiator responder

  second : Option (List ℕ) → Option (Handshake × Handshake) → Option (Handshake × Handshake)
  unfolding third
  second random none = none
  second random (some (initiator, responder)) = third (carry random responder initiator)

  -- The exchange of an initiator and a responder who draw `e` and `f` as their ephemeral secrets.
  unfoldable pub exchange : List ℕ → List ℕ → Handshake → Handshake → Option (Handshake × Handshake)
  unfolding second third
  exchange e f initiator responder = second (some f) (carry (some e) initiator responder)

  carried :
      (random : Option (List ℕ)) (w w' r r' : Handshake) (message : List ℕ)
      → write_message aead curve random [] w ≡ (some message, w')
      → read_message aead curve message r ≡ (some [], r')
      → carry random w r ≡ some (w', r')
  unfolding carry delivered received
  carried random w w' r r' message h k = rw (h, k) refl

  -- Two ends with the same prologue, whose shared secrets are not refused, complete the handshake:
  -- both are done, in the same symmetric state and with the same handshake hash, each has the
  -- other's static public key, and neither has split.
  pub handshake_agrees :
      (prologue a b e f x1 x2 x3 : List ℕ)
      → x25519_shared curve e (curve.public_key f) ≡ some x1
      → x25519_shared curve e (curve.public_key b) ≡ some x2
      → x25519_shared curve a (curve.public_key f) ≡ some x3
      → (n : Handshake) × (m : Handshake) × (exchange e f
            (noise_handshake true a (curve.public_key a) prologue)
            (noise_handshake false b (curve.public_key b) prologue)
          ≡ some (n, m))
        × (n.done ≡ true)
        × (m.done ≡ true)
        × (n.symmetric ≡ m.symmetric)
        × (n.handshake_hash ≡ m.handshake_hash)
        × (n.remote_static ≡ curve.public_key b)
        × (m.remote_static ≡ curve.public_key a)
        × (n.split_done ≡ false)
        × (m.split_done ≡ false)
  unfolding exchange second third noise_handshake
  handshake_agrees prologue a b e f x1 x2 x3 ee es se =
      let w1 = write_first aead curve prologue a b e f x1 x2 x3 ee es se in
      let g1 = read_first aead curve prologue a b e f x1 x2 x3 ee es se in
      let w2 = write_second aead curve prologue a b e f x1 x2 x3 ee es se in
      let g2 = read_second aead curve prologue a b e f x1 x2 x3 ee es se in
      let w3 = write_third aead curve prologue a b e f x1 x2 x3 ee es se none in
      let g3 = read_third aead curve prologue a b e f x1 x2 x3 ee es se in
      let n = i3 aead curve prologue a b e f x1 x2 x3 ee es se in
      let m = r3 aead curve prologue a b e f x1 x2 x3 ee es se in
      let c1 = carried (some e) _ _ _ _ _ w1 g1 in
      let c2 = carried (some f) _ _ _ _ _ w2 g2 in
      let c3 = carried none _ n _ m _ w3 g3 in
      (n, m, rw (c1, c2) c3, refl, refl, refl, refl, refl, refl, refl, refl)
