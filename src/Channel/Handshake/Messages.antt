-- ===== src/Channel/Handshake/Messages.antt =====
-- The three messages between two honest ends.
use eos_reimagined.Base.{
  ℕ, ◌≡◌, refl, ◌∙◌, true, false, Option, some, List, [], ◌∷◌, ◌++◌, append-nil, append_assoc,
  length, length-append, arith, ltb, le→ltb_false,
}
use eos_reimagined.Base.Attempt.{◌>>=◌, pure, proceed}
use eos_reimagined.Channel.Cipher.{Aead, encrypt, decrypt}
use eos_reimagined.Channel.Handshake.{
  Curve, x25519_shared, Symmetric, Handshake, Token, tok_e, tok_s, tok_ee, tok_es, tok_se, mix_hash,
  encrypt_and_hash, decrypt_and_hash, hashed, hashed_cipher, on_symmetric, in_symmetric, hash_in,
  write_token, write_tokens, read_token, read_tokens, write_body, read_body, write_message,
  read_message, advance, advanced, noise_handshake, we_write, message_size, token_size, xx_message,
}
use eos_reimagined.Channel.Handshake.Tokens.{
  x25519_shared_agrees, rekeyed, rekeyed_nonce, rekeyed_keyed, write-token_step, read-token_step,
  write-payload, read-payload, Passed, pass, write-tok_e, read-tok_e, write-tok_s, read-tok_s,
  on-tok_ee, on-tok_es, on-tok_se,
}

-- The static secrets `a` of the initiator and `b` of the responder, their ephemeral ones `e` and `f`,
-- and the three secrets that they share.
module _ (aead : Aead) (curve : Curve) (prologue a b e f x1 x2 x3 : List ℕ)
    (ee : x25519_shared curve e (curve.public_key f) ≡ some x1)
    (es : x25519_shared curve e (curve.public_key b) ≡ some x2)
    (se : x25519_shared curve a (curve.public_key f) ≡ some x3) where
  abbrev pub pub_a : List ℕ
  pub_a = curve.public_key a

  abbrev pub pub_b : List ℕ
  pub_b = curve.public_key b

  abbrev pub pub_e : List ℕ
  pub_e = curve.public_key e

  abbrev pub pub_f : List ℕ
  pub_f = curve.public_key f

  abbrev pub i0 : Handshake
  i0 = noise_handshake true a pub_a prologue

  abbrev pub r0 : Handshake
  r0 = noise_handshake false b pub_b prologue

  -- The transcript behind the first message.
  abbrev y2 : Symmetric
  y2 = mix_hash [] (mix_hash pub_e i0.symmetric)

  abbrev pub i1 : Handshake
  i1 = record i0 { e_priv = e; e_pub = pub_e; have_e = true; symmetric = y2; message_index = 1 }

  abbrev pub r1 : Handshake
  r1 = record r0 { re = pub_e; have_re = true; symmetric = y2; message_index = 1 }

  pub write_first : write_message aead curve (some e) [] i0 ≡ (some pub_e, i1)
  unfolding write_message write_body write_tokens advanced advance message_size token_size
      xx_message we_write noise_handshake on_symmetric in_symmetric encrypt_and_hash hashed encrypt
      pure ◌>>=◌ proceed hash_in mix_hash
  write_first =
      let first =
        write-tok_e aead curve i0 e [] (unfold noise_handshake in refl)
          (unfold noise_handshake in refl) in
      rw first (rw append-nil refl)

  pub read_first : read_message aead curve pub_e r0 ≡ (some [], r1)
  unfolding read_message read_body read_tokens advanced advance xx_message we_write noise_handshake
      on_symmetric in_symmetric decrypt_and_hash hashed_cipher decrypt pure ◌>>=◌ proceed hash_in
      mix_hash
  read_first =
      let size = curve.public_length e in
      let small : ltb 65535 (length pub_e) ≡ false = le→ltb_false _ 65535 (omega (arith, size)) in
      let first = read-tok_e aead curve r0 pub_e [] size in rw (small, rw append-nil at first) refl

  -- The transcript of the second message, token by token.
  abbrev y4 : Symmetric
  y4 = rekeyed x1 (mix_hash pub_f y2)

  pub p5 : Passed aead y4 pub_b
  p5 = pass aead y4 pub_b (omega (arith, rekeyed_nonce x1 (mix_hash pub_f y2)))

  abbrev y6 : Symmetric
  y6 = rekeyed x2 p5.next

  pub p7 : Passed aead y6 []
  p7 = pass aead y6 [] (omega (arith, rekeyed_nonce x2 p5.next))

  -- And of the third.
  pub p8 : Passed aead p7.next pub_a
  p8 = pass aead p7.next pub_a (omega (arith, p7.counted, rekeyed_nonce x2 p5.next))

  abbrev y9 : Symmetric
  y9 = rekeyed x3 p8.next

  pub p10 : Passed aead y9 []
  p10 = pass aead y9 [] (omega (arith, rekeyed_nonce x3 p8.next))

  abbrev pub message2 : List ℕ
  message2 = pub_f ++ p5.cipher ++ p7.cipher

  abbrev pub r2 : Handshake
  r2 = record r1 {
    e_priv = f;
    e_pub = pub_f;
    have_e = true;
    symmetric = p7.next;
    message_index = 2;
  }

  abbrev pub i2 : Handshake
  i2 = record i1 {
    re = pub_f;
    have_re = true;
    remote_static = pub_b;
    have_rs = true;
    symmetric = p7.next;
    message_index = 2;
  }

  abbrev second_tokens : List Token
  second_tokens = tok_e ∷ tok_ee ∷ tok_s ∷ tok_es ∷ []

  write_second_body : write_body aead curve (some f) [] second_tokens r1 ≡ (some message2, r2)
  unfolding advance write_token write_tokens noise_handshake hash_in mix_hash pure ◌>>=◌ proceed
  write_second_body =
      let random : Option (List ℕ) = some f in
      let na = hash_in pub_f (record r1 { e_priv = f; e_pub = pub_f; have_e = true }) in
      let nb = record na { symmetric = y4 } in
      let nc = record nb { symmetric = p5.next } in
      let nd = record nc { symmetric = y6 } in
      let tok_a = write-tok_e aead curve r1 f [] refl refl in
      let tok_b = on-tok_ee aead curve na x1 (x25519_shared_agrees curve f e ∙ ee) in
      let tok_c = write-tok_s aead curve nb random pub_f p5.cipher p5.next p5.writes in
      let tok_d = on-tok_es aead curve nc x2 (x25519_shared_agrees curve b e ∙ es) in
      let tokens : write_tokens aead curve random [] second_tokens r1
          ≡ (some (pub_f ++ p5.cipher), nd) =
        write-token_step aead curve random [] pub_f tok_e (tok_ee ∷ tok_s ∷ tok_es ∷ []) r1 na tok_a
        ∙ write-token_step aead curve random pub_f pub_f tok_ee (tok_s ∷ tok_es ∷ []) na nb
            (rw tok_b refl)
        ∙ write-token_step aead curve random pub_f (pub_f ++ p5.cipher) tok_s (tok_es ∷ []) nb nc
            tok_c
        ∙ write-token_step aead curve random (pub_f ++ p5.cipher) (pub_f ++ p5.cipher) tok_es [] nc
            nd (rw tok_d refl) in
      write-payload aead curve random [] (pub_f ++ p5.cipher) p7.cipher second_tokens r1 nd p7.next
        tokens p7.writes

  pub write_second : write_message aead curve (some f) [] r1 ≡ (some message2, r2)
  unfolding write_message message_size token_size xx_message we_write noise_handshake mix_hash
  write_second = write_second_body

  p5_size : length p5.cipher ≡ 48
  p5_size = rw (p5.size, rekeyed_keyed x1 (mix_hash pub_f y2), curve.public_length b) refl

  p7_size : length p7.cipher ≡ 16
  p7_size = rw (p7.size, rekeyed_keyed x2 p5.next) refl

  read_second_body : read_body aead curve message2 second_tokens i1 ≡ (some [], i2)
  unfolding advance read_token read_tokens noise_handshake hash_in mix_hash pure ◌>>=◌ proceed
  read_second_body =
      let na = hash_in pub_f (record i1 { re = pub_f; have_re = true }) in
      let nb = record na { symmetric = y4 } in
      let nc = record nb { symmetric = p5.next; remote_static = pub_b; have_rs = true } in
      let nd = record nc { symmetric = y6 } in
      let rest_a = p5.cipher ++ p7.cipher in
      let tok_a : read_token aead curve message2 tok_e i1 ≡ (some rest_a, na) =
        rw append_assoc (read-tok_e aead curve i1 pub_f rest_a (curve.public_length f)) in
      let tok_b = on-tok_ee aead curve na x1 ee in
      let tok_c =
        read-tok_s aead curve nb p5.cipher p7.cipher pub_b p5.next
          (rekeyed_keyed x1 (mix_hash pub_f y2)) p5_size (curve.public_length b) p5.reads in
      let tok_d = on-tok_es aead curve nc x2 es in
      let tokens : read_tokens aead curve message2 second_tokens i1 ≡ (some p7.cipher, nd) =
        read-token_step aead curve message2 rest_a tok_e (tok_ee ∷ tok_s ∷ tok_es ∷ []) i1 na tok_a
        ∙ read-token_step aead curve rest_a rest_a tok_ee (tok_s ∷ tok_es ∷ []) na nb
            (rw tok_b refl)
        ∙ read-token_step aead curve rest_a p7.cipher tok_s (tok_es ∷ []) nb nc tok_c
        ∙ read-token_step aead curve p7.cipher p7.cipher tok_es [] nc nd (rw tok_d refl) in
      read-payload aead curve message2 p7.cipher [] second_tokens i1 nd p7.next tokens p7.reads

  pub message2_size : length message2 ≡ 96
  message2_size =
      rw
        (
          length-append (pub_f ++ p5.cipher) p7.cipher,
          length-append pub_f p5.cipher,
          curve.public_length f,
          p5_size,
          p7_size,
        )
        refl

  pub read_second : read_message aead curve message2 i1 ≡ (some [], i2)
  unfolding read_message xx_message we_write noise_handshake
  read_second =
      let small : ltb 65535 (length message2) ≡ false =
        le→ltb_false _ 65535 (omega (arith, message2_size)) in
      rw small read_second_body

  abbrev pub message3 : List ℕ
  message3 = p8.cipher ++ p10.cipher

  abbrev pub i3 : Handshake
  i3 = record i2 {
    symmetric = p10.next;
    done = true;
    handshake_hash = p10.next.h;
    message_index = 3;
  }

  abbrev pub r3 : Handshake
  r3 = record r2 {
    remote_static = pub_a;
    have_rs = true;
    symmetric = p10.next;
    done = true;
    handshake_hash = p10.next.h;
    message_index = 3;
  }

  abbrev third_tokens : List Token
  third_tokens = tok_s ∷ tok_se ∷ []

  keyed_7 : p7.next.cs.has_key ≡ true
  keyed_7 = p7.key_kept ∙ rekeyed_keyed x2 p5.next

  write_third_body :
      (random : Option (List ℕ))
      → write_body aead curve random [] third_tokens i2 ≡ (some message3, i3)
  unfolding advance write_token write_tokens noise_handshake pure ◌>>=◌ proceed
  write_third_body random =
      let na = record i2 { symmetric = p8.next } in
      let nb = record na { symmetric = y9 } in
      let tok_a = write-tok_s aead curve i2 random [] p8.cipher p8.next p8.writes in
      let tok_b = on-tok_se aead curve na x3 se in
      let tokens : write_tokens aead curve random [] third_tokens i2 ≡ (some p8.cipher, nb) =
        write-token_step aead curve random [] p8.cipher tok_s (tok_se ∷ []) i2 na tok_a
        ∙ write-token_step aead curve random p8.cipher p8.cipher tok_se [] na nb (rw tok_b refl) in
      write-payload aead curve random [] p8.cipher p10.cipher third_tokens i2 nb p10.next tokens
        p10.writes

  pub write_third :
      (random : Option (List ℕ)) → write_message aead curve random [] i2 ≡ (some message3, i3)
  unfolding write_message message_size token_size xx_message we_write noise_handshake
  write_third random = rw keyed_7 (write_third_body random)

  p8_size : length p8.cipher ≡ 48
  p8_size = rw (p8.size, keyed_7, curve.public_length a) refl

  p10_size : length p10.cipher ≡ 16
  p10_size = rw (p10.size, rekeyed_keyed x3 p8.next) refl

  read_third_body : read_body aead curve message3 third_tokens r2 ≡ (some [], r3)
  unfolding advance read_token read_tokens noise_handshake pure ◌>>=◌ proceed
  read_third_body =
      let na = record r2 { symmetric = p8.next; remote_static = pub_a; have_rs = true } in
      let nb = record na { symmetric = y9 } in
      let tok_a =
        read-tok_s aead curve r2 p8.cipher p10.cipher pub_a p8.next keyed_7 p8_size
          (curve.public_length a) p8.reads in
      let tok_b = on-tok_se aead curve na x3 (x25519_shared_agrees curve f a ∙ se) in
      let tokens : read_tokens aead curve message3 third_tokens r2 ≡ (some p10.cipher, nb) =
        read-token_step aead curve message3 p10.cipher tok_s (tok_se ∷ []) r2 na tok_a
        ∙ read-token_step aead curve p10.cipher p10.cipher tok_se [] na nb (rw tok_b refl) in
      read-payload aead curve message3 p10.cipher [] third_tokens r2 nb p10.next tokens p10.reads

  pub message3_size : length message3 ≡ 64
  message3_size = rw (length-append p8.cipher p10.cipher, p8_size, p10_size) refl

  pub read_third : read_message aead curve message3 r2 ≡ (some [], r3)
  unfolding read_message xx_message we_write noise_handshake
  read_third =
      let small : ltb 65535 (length message3) ≡ false =
        le→ltb_false _ 65535 (omega (arith, message3_size)) in
      rw small read_third_body
