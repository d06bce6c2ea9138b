-- ===== src/Channel/Peer/Ready.antt =====
-- A channel that is established has let its handshake go, and both its ciphers have keys.
use eos_reimagined.Base.{
  ◌-◌, ◌^◌, ◌∷◌, arith, ℕ, ◌≡◌, refl, ◌∙◌, Bool, true, false, not, ◌||◌, Option, none, some, List,
  [], length, ltb, ◌==◌, Bool-cases, inl, inr,
}
use eos_reimagined.Base.Attempt.{
  Attempt, ◌>>=◌, proceed, Ensures, run-Ensures, Ensures_state, weaker_failure,
}
use eos_reimagined.ByteBuffer.{Text}
use eos_reimagined.Channel.Cipher.{Aead}
use eos_reimagined.Channel.Cipher.Order.{encrypt-has_key, decrypt-has_key}
use eos_reimagined.Channel.Handshake.{
  Curve, Handshake, SplitKeys, split, write_message, read_message,
}
use eos_reimagined.Channel.Handshake.Split.{split_keyed}
use eos_reimagined.Channel.Peer.{
  PeerChannel, peer_channel, peer_open, read_handshake, written, answer, consumed, finish, finished,
  establish, counted, on_handshake, call_handshake, in_handshake, we_write, handshake_message_size,
  seal, unseal, seal_datagram, open_datagram, accepted, sealed_by, unsealed_by,
}

pub record IsReady (c : PeerChannel) : Type 0 where
  pub let_go : c.established ≡ true → c.handshake ≡ none
  pub sends : c.established ≡ true → c.send.has_key ≡ true
  pub receives : c.established ≡ true → c.recv.has_key ≡ true

-- Before it is established, a channel is ready, whatever it holds.
early-IsReady : (c : PeerChannel) → c.established ≡ false → IsReady c
early-IsReady c h = record {
  let_go = λ e. absurd cc;
  sends = λ e. absurd cc;
  receives = λ e. absurd cc;
}

pub peer_channel-IsReady :
    (initiator : Bool) (static_priv static_pub prologue : List ℕ)
    → IsReady (peer_channel initiator static_priv static_pub prologue)
unfolding peer_channel
peer_channel-IsReady initiator static_priv static_pub prologue = early-IsReady _ refl

-- A channel that is not established.
abbrev Early : PeerChannel → Type 0
Early c = c.established ≡ false

call-Early :
    {A : Type 0}
    → (p : Attempt Handshake A) (c : PeerChannel) (h : Option Handshake) → Early c
    → Ensures (λ a. Early) Early (call_handshake p c h)
unfolding call_handshake in_handshake
call-Early p c none e = e
call-Early {A} p c (some n) e = over (p n)
  where
    over :
        (r : Option A × Handshake) → Ensures {S = PeerChannel} (λ a. Early) Early (in_handshake c r)
    over (none, m) = e
    over (some a, m) = e

on_handshake-Early :
    {A : Type 0}
    → (p : Attempt Handshake A) (c : PeerChannel) → Early c
    → Ensures (λ a. Early) Early (on_handshake p c)
unfolding on_handshake
on_handshake-Early p c e = call-Early p c c.handshake e

module _ (aead : Aead) (curve : Curve) where
  written-Early :
      (random : Option (List ℕ)) (c : PeerChannel)
      → Early c
      → Ensures (λ a. Early) Early (written aead curve random c)
  unfolding written counted
  written-Early random c e =
      run-Ensures (on_handshake (write_message aead curve random [])) counted (λ a. Early)
        (λ a. Early) Early c (on_handshake-Early _ c e) (λ a t h. h)

  answer-Early :
      (random : Option (List ℕ)) (c : PeerChannel)
      → Early c
      → Ensures (λ a. Early) Early (answer aead curve random c)
  unfolding answer
  answer-Early random c e = elim (Bool-cases (ltb c.message_index 3)) [
    | inl ours ↦ rw ours (written-Early random c e)
    | inr over ↦ rw over e
  ]

-- The keys of a split are set.
abbrev Keyed : SplitKeys → Type 0
Keyed keys = (keys.send.has_key ≡ true) × (keys.recv.has_key ≡ true)

split-Keyed :
    (c : PeerChannel) (h : Option Handshake)
    → Early c
    → Ensures (λ keys t. Keyed keys) IsReady (call_handshake split c h)
unfolding call_handshake in_handshake
split-Keyed c none e = early-IsReady c e
split-Keyed c (some n) e = elim (split_keyed n) [
  | inl refused ↦ rw refused (early-IsReady _ e)
  | inr (keys, split, sends, receives) ↦ rw split (sends, receives)
]

establish-IsReady :
    (reply : List ℕ) (keys : SplitKeys) (c : PeerChannel)
    → Keyed keys
    → IsReady (establish reply keys c).1
unfolding establish
establish-IsReady reply keys c (sends, receives) = record {
  let_go = λ e. refl;
  sends = λ e. sends;
  receives = λ e. receives;
}

finished-IsReady :
    (reply : List ℕ) (c : PeerChannel) (h : Option Handshake)
    → Early c
    → Ensures (λ a. IsReady) IsReady (finished reply c h)
unfolding finished on_handshake establish
finished-IsReady reply c none e = early-IsReady c e
finished-IsReady reply c (some n) e =
    let c' = record c { remote_static = n.remote_static } in
    elim (Bool-cases n.done) [
      | inr more ↦ rw more (early-IsReady c e)
      | inl over ↦ elim (Bool-cases n.have_rs) [
        | inr unknown ↦ rw (over, unknown) (early-IsReady c e)
        | inl known ↦
            rw (over, known)
              (run-Ensures (on_handshake split) (establish reply) (λ keys t. Keyed keys)
                (λ a. IsReady) IsReady c' (split-Keyed c' c.handshake e)
                (λ keys t k. establish-IsReady reply keys t k))
      ]
    ]

-- The whole of the messages of `read_handshake`, and the other operations.
module _ (aead : Aead) (curve : Curve) where
  consumed-IsReady :
      (random : Option (List ℕ)) (message : List ℕ) (c : PeerChannel)
      → Early c
      → Ensures (λ a. IsReady) IsReady (consumed aead curve random message c)
  unfolding consumed counted finish
  consumed-IsReady random message c e =
      run-Ensures (on_handshake (read_message aead curve message)) _ (λ m. Early) (λ a. IsReady)
        IsReady c
        (weaker_failure (λ m. Early) Early IsReady early-IsReady _ (on_handshake-Early _ c e))
        (λ m t h.
          run-Ensures (counted m) _ (λ n. Early) (λ a. IsReady) IsReady t h
            (λ n u k.
              run-Ensures (answer aead curve random) _ (λ reply. Early) (λ a. IsReady) IsReady u
                (weaker_failure (λ reply. Early) Early IsReady early-IsReady _
                  (answer-Early aead curve random u k))
                (λ reply v l. finished-IsReady reply v v.handshake l)))

  read_handshake-IsReady :
      (random : Option (List ℕ)) (message : List ℕ) (c : PeerChannel)
      → IsReady c
      → IsReady (read_handshake aead curve random message c).1
  unfolding read_handshake
  read_handshake-IsReady random message c ready =
      elim (Bool-cases (c.established || not (ltb c.message_index 3))) [
        | inl refused ↦ rw refused ready
        | inr awaits ↦ elim (Bool-cases (we_write c.initiator c.message_index)) [
          | inl ours ↦ rw (awaits, ours) ready
          | inr theirs ↦
              elim (Bool-cases (length message == handshake_message_size c.message_index)) [
                | inr wrong ↦ simp (awaits, theirs, wrong) ready
                | inl right ↦
                    let early : Early c = ground (arith, awaits) in
                    simp (awaits, theirs, right)
                      (Ensures_state IsReady _ (consumed-IsReady random message c early))
              ]
        ]
      ]

  -- Of an established channel there is no handshake left to write with.
  peer_open-IsReady :
      (random : Option (List ℕ)) (c : PeerChannel)
      → IsReady c
      → IsReady (peer_open aead curve random c).1
  unfolding peer_open written on_handshake call_handshake ◌>>=◌ proceed
  peer_open-IsReady random c ready =
      elim (Bool-cases (not c.initiator || not (c.message_index == 0))) [
        | inl refused ↦ rw refused ready
        | inr ours ↦ elim (Bool-cases c.established) [
          | inl over ↦ simp (ours, ready.let_go over) ready
          | inr early ↦
              rw ours
                (early-IsReady _ (Ensures_state Early _ (written-Early aead curve random c early)))
        ]
      ]

module _ (aead : Aead) where
  seal-IsReady :
      (plain ad : List ℕ) (c : PeerChannel) → IsReady c → IsReady (seal aead plain ad c).1
  unfolding seal sealed_by
  seal-IsReady plain ad c ready = elim (Bool-cases (not c.established)) [
    | inl early ↦ rw early ready
    | inr over ↦ rw over (record {
      let_go = ready.let_go;
      sends = λ e. encrypt-has_key aead c.send ad plain ∙ ready.sends e;
      receives = ready.receives;
    })
  ]

  unseal-IsReady :
      (cipher ad : List ℕ) (c : PeerChannel) → IsReady c → IsReady (unseal aead cipher ad c).1
  unfolding unseal unsealed_by
  unseal-IsReady cipher ad c ready =
      elim (Bool-cases (not c.established || ltb (length cipher) 16)) [
        | inl refused ↦ rw refused ready
        | inr passed ↦ rw passed (record {
          let_go = ready.let_go;
          sends = ready.sends;
          receives = λ e. decrypt-has_key aead c.recv ad cipher ∙ ready.receives e;
        })
      ]

  seal_datagram-IsReady :
      (sender_id dest_id : Text) (plain : List ℕ) (c : PeerChannel)
      → IsReady c
      → IsReady (seal_datagram aead sender_id dest_id plain c).1
  unfolding seal_datagram
  seal_datagram-IsReady sender_id dest_id plain c ready =
      elim (Bool-cases (not c.established || c.udp_seq == 2 ^ 64 - 1)) [
        | inl refused ↦ rw refused ready
        | inr passed ↦
            rw passed
              (record { let_go = ready.let_go; sends = ready.sends; receives = ready.receives })
      ]

  accepted-IsReady :
      (seq : ℕ) (c : PeerChannel) (r : Option (List ℕ))
      → IsReady c
      → IsReady (accepted aead seq c r).1
  unfolding accepted
  accepted-IsReady seq c none ready = ready
  accepted-IsReady seq c (some plain) ready = record {
    let_go = ready.let_go;
    sends = ready.sends;
    receives = ready.receives;
  }

  open_datagram-IsReady :
      (sender_id dest_id : Text) (seq : ℕ) (cipher : List ℕ) (c : PeerChannel)
      → IsReady c
      → IsReady (open_datagram aead sender_id dest_id seq cipher c).1
  unfolding open_datagram
  open_datagram-IsReady sender_id dest_id seq cipher c ready =
      elim (Bool-cases (not c.established || ltb (length cipher) 16)) [
        | inl refused ↦ rw refused ready
        | inr passed ↦ rw passed (accepted-IsReady seq c _ ready)
      ]

-- The calls that the owner of a channel makes.
pub data Call : Type 0 where
  call_open : Option (List ℕ) → Call
  call_read : Option (List ℕ) → List ℕ → Call
  call_seal : List ℕ → List ℕ → Call
  call_unseal : List ℕ → List ℕ → Call
  call_seal_datagram : Text → Text → List ℕ → Call
  call_open_datagram : Text → Text → ℕ → List ℕ → Call

module _ (aead : Aead) (curve : Curve) where
  -- The channel after a call.
  unfoldable pub called : Call → PeerChannel → PeerChannel
  called (call_open random) c = (peer_open aead curve random c).1
  called (call_read random message) c = (read_handshake aead curve random message c).1
  called (call_seal plain ad) c = (seal aead plain ad c).1
  called (call_unseal cipher ad) c = (unseal aead cipher ad c).1
  called (call_seal_datagram from to plain) c = (seal_datagram aead from to plain c).1
  called (call_open_datagram from to seq cipher) c = (open_datagram aead from to seq cipher c).1

  unfoldable pub called_all : List Call → PeerChannel → PeerChannel
  unfolding called
  called_all [] c = c
  called_all (k ∷ ks) c = called_all ks (called k c)

  -- Every operation keeps it.
  called-IsReady : (k : Call) (c : PeerChannel) → IsReady c → IsReady (called k c)
  unfolding called
  called-IsReady (call_open random) c h = peer_open-IsReady aead curve random c h
  called-IsReady (call_read random message) c h =
      read_handshake-IsReady aead curve random message c h
  called-IsReady (call_seal plain ad) c h = seal-IsReady aead plain ad c h
  called-IsReady (call_unseal cipher ad) c h = unseal-IsReady aead cipher ad c h
  called-IsReady (call_seal_datagram from to plain) c h =
      seal_datagram-IsReady aead from to plain c h
  called-IsReady (call_open_datagram from to seq cipher) c h =
      open_datagram-IsReady aead from to seq cipher c h

  called_all-IsReady : (ks : List Call) (c : PeerChannel) → IsReady c → IsReady (called_all ks c)
  unfolding called_all
  called_all-IsReady [] c h = h
  called_all-IsReady (k ∷ ks) c h = called_all-IsReady ks (called k c) (called-IsReady k c h)

  -- After any calls on a new channel, with any arguments: if it is established, the handshake is let
  -- go, and the ciphers of both directions have keys.
  pub established_ready :
      (initiator : Bool) (static_priv static_pub prologue : List ℕ) (ks : List Call)
      → let c = called_all ks (peer_channel initiator static_priv static_pub prologue) in
        (c.established ≡ true → c.handshake ≡ none)
        × (c.established ≡ true → c.send.has_key ≡ true)
        × (c.established ≡ true → c.recv.has_key ≡ true)
  established_ready initiator static_priv static_pub prologue ks =
      let ready =
        called_all-IsReady ks _ (peer_channel-IsReady initiator static_priv static_pub prologue) in
      (ready.let_go, ready.sends, ready.receives)
