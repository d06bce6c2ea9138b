-- ===== src/Channel/Handshake/Tokens.antt =====
-- What a token does at the end that writes it and at the end that reads it.
use eos_reimagined.Base.{
  ℕ, ◌+◌, ◌≤◌, ◌<◌, ◌≡◌, refl, ap, true, false, Option, none, some, List, [], ◌∷◌, ◌++◌, length,
  length-append, take, drop, take-length_append, drop-length_append, arith, ltb, le→ltb_false, ◌==◌,
  if◌then◌else◌,
}
use eos_reimagined.Base.Attempt.{◌>>=◌, pure, proceed, run_some}
use eos_reimagined.Crypto.Keys.Outputs.{hkdf_two}
use eos_reimagined.Channel.Cipher.{Aead, reserved_nonce, init_key, encrypt}
use eos_reimagined.Channel.Cipher.Order.{
  decrypt-encrypt, encrypt-counts, encrypt-keeps, length-encrypt,
}
use eos_reimagined.Channel.Handshake.{
  all_zero, Curve, x25519_shared, Symmetric, Handshake, Token, tok_e, tok_s, tok_ee, tok_es, tok_se,
  mix_hash, mix_key, encrypt_and_hash, decrypt_and_hash, hashed, hashed_cipher, on_symmetric,
  in_symmetric, hash_in, ensure_ephemeral, mix_token, mixed, keyed, write_token, read_token,
  write_tokens, read_tokens, write_body, read_body, advance, advanced, read_e, read_s, keep_static,
  with_ephemeral, from_random, appended_e,
}

-- The symmetric state behind a secret.
unfoldable pub rekeyed : List ℕ → Symmetric → Symmetric
rekeyed secret y = record y {
  ck = (hkdf_two y.ck secret).0;
  cs = init_key (hkdf_two y.ck secret).1;
}

pub rekeyed_nonce : (secret : List ℕ) (y : Symmetric) → (rekeyed secret y).cs.nonce ≡ 0
unfolding rekeyed init_key
rekeyed_nonce secret y = refl

pub rekeyed_keyed : (secret : List ℕ) (y : Symmetric) → (rekeyed secret y).cs.has_key ≡ true
unfolding rekeyed init_key
rekeyed_keyed secret y = refl

pub mix_key-rekeyed : (secret : List ℕ) (y : Symmetric) → mix_key secret y ≡ some (rekeyed secret y)
unfolding mix_key rekeyed
mix_key-rekeyed secret y = let (k1, k2, e) = hkdf_two y.ck secret in rw e

-- Two ends share their secret.
pub x25519_shared_agrees :
    (curve : Curve) (a b : List ℕ)
    → x25519_shared curve a (curve.public_key b) ≡ x25519_shared curve b (curve.public_key a)
unfolding x25519_shared
x25519_shared_agrees curve a b = ap (λ s. if all_zero s then none else some s) (curve.agrees a b)

-- What one end encrypts into the transcript the other decrypts from it, and both are left alike.
pub record Passed (aead : Aead) (y : Symmetric) (plain : List ℕ) : Type 0 where
  pub cipher : List ℕ
  pub next : Symmetric
  pub writes : encrypt_and_hash aead plain y ≡ (some cipher, next)
  pub reads : decrypt_and_hash aead cipher y ≡ (some plain, next)
  pub size : length cipher ≡ length plain + (if y.cs.has_key then 16 else 0)
  pub key_kept : next.cs.has_key ≡ y.cs.has_key
  pub counted : next.cs.nonce ≤ y.cs.nonce + 1

pub pass :
    (aead : Aead) (y : Symmetric) (plain : List ℕ)
    → y.cs.nonce < reserved_nonce
    → Passed aead y plain
unfolding encrypt_and_hash decrypt_and_hash hashed hashed_cipher mix_hash
pass aead y plain h =
    let (c, sent, got) = decrypt-encrypt aead y.cs y.h plain h in
    let cs = (encrypt aead y.cs y.h plain).1 in
    let next = mix_hash c (record y { cs = cs }) in
    let size = length-encrypt aead y.cs y.h plain c h sent in
    let long : ltb (length c) (if y.cs.has_key then 16 else 0) ≡ false =
      le→ltb_false (if y.cs.has_key then 16 else 0) (length c) (omega (arith, size)) in
    record {
      cipher = c;
      next = next;
      writes = ap (hashed aead y) (λ i. (sent i, cs));
      reads = rw (long, got) refl;
      size = size;
      key_kept = encrypt-keeps aead y.cs y.h plain h;
      counted = encrypt-counts aead y.cs y.h plain h;
    }

module _ (aead : Aead) (curve : Curve) where
  pub write-tok_e :
      (n : Handshake) (secret out : List ℕ)
      → n.have_e ≡ false
      → n.fixed_ephemeral ≡ false
      → write_token aead curve (some secret) out tok_e n ≡ (
        some (out ++ curve.public_key secret),
        hash_in
            (curve.public_key secret)
            (record n { e_priv = secret; e_pub = curve.public_key secret; have_e = true }),
      )
  unfolding write_token ensure_ephemeral appended_e with_ephemeral from_random ◌>>=◌ proceed hash_in
  write-tok_e n secret out h k = simp (h, k) refl

  pub read-tok_e :
      (n : Handshake) (key rest : List ℕ)
      → length key ≡ 32
      → read_token aead curve (key ++ rest) tok_e n
        ≡ (some rest, hash_in key (record n { re = key; have_re = true }))
  unfolding read_token read_e hash_in
  read-tok_e n key rest h =
      let long : ltb (length (key ++ rest)) 32 ≡ false =
        le→ltb_false 32 _ (omega (arith, h, length-append key rest)) in
      let front : take 32 (key ++ rest) ≡ key = rw (← h) (take-length_append key rest) in
      let back : drop 32 (key ++ rest) ≡ rest = rw (← h) (drop-length_append key rest) in
      rw (long, front, back) refl

  pub write-tok_s :
      (n : Handshake) (random : Option (List ℕ)) (out c : List ℕ) (y : Symmetric)
      → encrypt_and_hash aead n.s_pub n.symmetric ≡ (some c, y)
      → write_token aead curve random out tok_s n ≡ (some (out ++ c), record n { symmetric = y })
  unfolding write_token on_symmetric in_symmetric ◌>>=◌ proceed pure
  write-tok_s n random out c y e = rw e refl

  pub read-tok_s :
      (n : Handshake) (c rest key : List ℕ) (y : Symmetric)
      → n.symmetric.cs.has_key ≡ true
      → length c ≡ 48
      → length key ≡ 32
      → decrypt_and_hash aead c n.symmetric ≡ (some key, y)
      → read_token aead curve (c ++ rest) tok_s n
        ≡ (some rest, record n { symmetric = y; remote_static = key; have_rs = true })
  unfolding read_token read_s keep_static on_symmetric in_symmetric ◌>>=◌ proceed
  read-tok_s n c rest key y keyed size plain e =
      let long : ltb (length (c ++ rest)) 48 ≡ false =
        le→ltb_false 48 _ (omega (arith, size, length-append c rest)) in
      let front : take 48 (c ++ rest) ≡ c = rw (← size) (take-length_append c rest) in
      let back : drop 48 (c ++ rest) ≡ rest = rw (← size) (drop-length_append c rest) in
      let whole : (length key == 32) ≡ true = ground (arith, plain) in
      simp (keyed, long, front, back, e, whole) refl

  pub on-tok_ee :
      (n : Handshake) (secret : List ℕ)
      → x25519_shared curve n.e_priv n.re ≡ some secret
      → mix_token aead curve tok_ee n
        ≡ (some tt, record n { symmetric = rekeyed secret n.symmetric })
  unfolding mix_token mixed keyed
  on-tok_ee n secret e = rw (e, mix_key-rekeyed secret n.symmetric) refl

  pub on-tok_es :
      (n : Handshake) (secret : List ℕ)
      → x25519_shared curve
          (if n.initiator then n.e_priv else n.s_priv)
          (if n.initiator then n.remote_static else n.re)
        ≡ some secret
      → mix_token aead curve tok_es n
        ≡ (some tt, record n { symmetric = rekeyed secret n.symmetric })
  unfolding mix_token mixed keyed
  on-tok_es n secret e = rw (e, mix_key-rekeyed secret n.symmetric) refl

  pub on-tok_se :
      (n : Handshake) (secret : List ℕ)
      → x25519_shared curve
          (if n.initiator then n.s_priv else n.e_priv)
          (if n.initiator then n.re else n.remote_static)
        ≡ some secret
      → mix_token aead curve tok_se n
        ≡ (some tt, record n { symmetric = rekeyed secret n.symmetric })
  unfolding mix_token mixed keyed
  on-tok_se n secret e = rw (e, mix_key-rekeyed secret n.symmetric) refl

  -- A step of a message, and the payload behind its tokens.
  pub write-token_step :
      (random : Option (List ℕ)) (out out' : List ℕ) (t : Token) (ts : List Token)
      (n n' : Handshake)
      → write_token aead curve random out t n ≡ (some out', n')
      → write_tokens aead curve random out (t ∷ ts) n ≡ write_tokens aead curve random out' ts n'
  unfolding write_tokens
  write-token_step random out out' t ts n n' e =
      run_some (write_token aead curve random out t)
        (λ next. write_tokens aead curve random next ts) n n' out' e

  pub read-token_step :
      (rest rest' : List ℕ) (t : Token) (ts : List Token) (n n' : Handshake)
      → read_token aead curve rest t n ≡ (some rest', n')
      → read_tokens aead curve rest (t ∷ ts) n ≡ read_tokens aead curve rest' ts n'
  unfolding read_tokens
  read-token_step rest rest' t ts n n' e =
      run_some (read_token aead curve rest t) (λ next. read_tokens aead curve next ts) n n' rest' e

  pub write-payload :
      (random : Option (List ℕ)) (payload out c : List ℕ) (ts : List Token) (n n' : Handshake)
      (y : Symmetric)
      → write_tokens aead curve random [] ts n ≡ (some out, n')
      → encrypt_and_hash aead payload n'.symmetric ≡ (some c, y)
      → write_body aead curve random payload ts n
        ≡ (some (out ++ c), advance aead curve (record n' { symmetric = y }))
  unfolding write_body on_symmetric in_symmetric advanced ◌>>=◌ proceed
  write-payload random payload out c ts n n' y e g = rw (e, g) refl

  pub read-payload :
      (message rest payload : List ℕ) (ts : List Token) (n n' : Handshake) (y : Symmetric)
      → read_tokens aead curve message ts n ≡ (some rest, n')
      → decrypt_and_hash aead rest n'.symmetric ≡ (some payload, y)
      → read_body aead curve message ts n
        ≡ (some payload, advance aead curve (record n' { symmetric = y }))
  unfolding read_body on_symmetric in_symmetric advanced ◌>>=◌ proceed
  read-payload message rest payload ts n n' y e g = rw (e, g) refl
