-- ===== src/Channel/Cipher/Order.antt =====
-- Two ends that count alike: what one encrypts in order the other decrypts in order.
use eos_reimagined.Base.{
  ◌∙◌, Option, none, ◌||◌, ℕ, ◌+◌, ◌-◌, ◌≤◌, ◌<◌, ◌≡◌, refl, ap, inl, inr, false, some, List, [],
  ◌∷◌, ◌++◌, length, length-append, take-length_append, drop-length_append, arith, ltb, ◌==◌,
  Bool-cases, if◌then◌else◌,
}
use eos_reimagined.Channel.Cipher.{
  Aead, CipherState, reserved_nonce, build_nonce, encrypt, decrypt, opened, sealed, encrypt_all,
  decrypt_all,
}

module _ (aead : Aead) where
  -- What a state encrypts an equal state decrypts, and both have counted the message.
  pub decrypt-encrypt :
      (s : CipherState) (ad plain : List ℕ)
      → s.nonce < reserved_nonce
      → let (cipher, s') = encrypt aead s ad plain in
        (c : List ℕ) × (cipher ≡ some c) × (decrypt aead s ad c ≡ (some plain, s'))
  unfolding encrypt decrypt opened
  decrypt-encrypt s ad plain h = elim (Bool-cases s.has_key) [
    | inr bare ↦ simp bare (plain, refl, refl)
    | inl keyed ↦
        let n = build_nonce s.nonce in
        let (body, tag) = aead.aead_encrypt s.key n ad plain in
        let fresh : (s.nonce == reserved_nonce) ≡ false = ground arith in
        let size = length-append body tag in
        let tagged = aead.tag_length s.key n ad plain in
        let long : ltb (length (body ++ tag)) 16 ≡ false = ground (arith, size, tagged) in
        let cut : length (body ++ tag) - 16 ≡ length body = omega (arith, size, tagged) in
        simp (keyed, fresh)
          (
            body ++ tag,
            refl,
            simp (
              keyed,
              long,
              cut,
              take-length_append body tag,
              drop-length_append body tag,
              aead.decrypts s.key n ad plain,
            ),
          )
  ]

  pub encrypt-counts :
      (s : CipherState) (ad plain : List ℕ)
      → s.nonce < reserved_nonce
      → (encrypt aead s ad plain).1.nonce ≤ s.nonce + 1
  unfolding encrypt
  encrypt-counts s ad plain h = elim (Bool-cases s.has_key) [
    | inr bare ↦ simp bare (omega arith)
    | inl keyed ↦
        let fresh : (s.nonce == reserved_nonce) ≡ false = ground arith in
        simp (keyed, fresh) (omega arith)
  ]

  -- Messages that one end encrypts, as long as their number leaves the nonce below the one that Noise
  -- reserves, are all decrypted by an end in the same state, in the same order; neither end fails.
  pub decrypt_all-encrypt_all :
      (s : CipherState) (messages : List (List ℕ × List ℕ))
      → s.nonce + length messages ≤ reserved_nonce
      → decrypt_all aead s (encrypt_all aead s messages) ≡ messages
  unfolding decrypt_all encrypt_all sealed
  decrypt_all-encrypt_all s [] h = refl
  decrypt_all-encrypt_all s ((ad, plain) ∷ messages) h =
      let (c, sent, got) = decrypt-encrypt s ad plain (omega (arith, h)) in
      let s' = (encrypt aead s ad plain).1 in
      let rest =
        decrypt_all-encrypt_all s' messages
          (omega (arith, h, encrypt-counts s ad plain (omega (arith, h)))) in
      rw sent (rw got (ap (λ ms. (ad, plain) ∷ ms) rest))

module _ (aead : Aead) where
  -- Whether there is a key does not change, and a tag makes a message 16 bytes longer.
  pub encrypt-keeps :
      (s : CipherState) (ad plain : List ℕ)
      → s.nonce < reserved_nonce
      → (encrypt aead s ad plain).1.has_key ≡ s.has_key
  unfolding encrypt
  encrypt-keeps s ad plain h = elim (Bool-cases s.has_key) [
    | inr bare ↦ simp bare refl
    | inl keyed ↦
        let fresh : (s.nonce == reserved_nonce) ≡ false = ground arith in simp (keyed, fresh) refl
  ]

  pub length-encrypt :
      (s : CipherState) (ad plain c : List ℕ)
      → s.nonce < reserved_nonce
      → (encrypt aead s ad plain).0 ≡ some c
      → length c ≡ length plain + (if s.has_key then 16 else 0)
  unfolding encrypt
  length-encrypt s ad plain c h e = elim (Bool-cases s.has_key) [
    | inr bare ↦ let same : plain ≡ c = cc (simp bare at e) in rw (bare, ← same) (omega arith)
    | inl keyed ↦
        let (body, tag) = aead.aead_encrypt s.key (build_nonce s.nonce) ad plain in
        let fresh : (s.nonce == reserved_nonce) ≡ false = ground arith in
        let same : body ++ tag ≡ c = cc (simp (keyed, fresh) at e) in
        rw (keyed, ← same)
          (omega (
            arith,
            length-append body tag,
            aead.body_length s.key (build_nonce s.nonce) ad plain,
            aead.tag_length s.key (build_nonce s.nonce) ad plain,
          ))
  ]

  opened-has_key : (s : CipherState) (r : Option (List ℕ)) → (opened aead s r).1.has_key ≡ s.has_key
  unfolding opened
  opened-has_key s none = refl
  opened-has_key s (some plain) = refl

  -- Neither call takes a key away or brings one.
  pub encrypt-has_key :
      (s : CipherState) (ad plain : List ℕ) → (encrypt aead s ad plain).1.has_key ≡ s.has_key
  unfolding encrypt
  encrypt-has_key s ad plain = elim (Bool-cases s.has_key) [
    | inr bare ↦ simp bare refl
    | inl keyed ↦ elim (Bool-cases (s.nonce == reserved_nonce)) [
      | inl spent ↦ simp (keyed, spent) refl
      | inr fresh ↦ simp (keyed, fresh) refl
    ]
  ]

  pub decrypt-has_key :
      (s : CipherState) (ad cipher : List ℕ) → (decrypt aead s ad cipher).1.has_key ≡ s.has_key
  unfolding decrypt
  decrypt-has_key s ad cipher = elim (Bool-cases s.has_key) [
    | inr bare ↦ simp bare refl
    | inl keyed ↦ elim (Bool-cases (s.nonce == reserved_nonce || ltb (length cipher) 16)) [
      | inl refused ↦ simp (keyed, refused) refl
      | inr fresh ↦ simp (keyed, fresh) (opened-has_key s _ ∙ keyed)
    ]
  ]
