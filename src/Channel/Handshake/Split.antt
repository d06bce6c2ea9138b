-- ===== src/Channel/Handshake/Split.antt =====
-- The keys that the two ends take from a finished handshake.
use eos_reimagined.Base.{
  ◌≡◌, refl, inl, inr, true, false, not, ◌||◌, none, some, [], ◌⊎◌, Bool-cases,
}
use eos_reimagined.Crypto.Keys.Outputs.{hkdf_two}
use eos_reimagined.Crypto.Encoder.{canonical_encoder, field}
use eos_reimagined.Channel.Cipher.{init_key}
use eos_reimagined.Channel.Handshake.{
  Handshake, SplitKeys, split, split_keys, split_over, orient, udp_subkey_domain,
}

-- An end that is not done, or that has split before, is refused and left as it was; any other end
-- gets its keys, and a second call of it is refused.
pub split_once :
    (n : Handshake)
    → ((split n ≡ (none, n)) × ((n.done ≡ false) ⊎ (n.split_done ≡ true)))
      ⊎ ((keys : SplitKeys) × (n.done ≡ true)
          × (split n ≡ (some keys, record n { split_done = true }))
          × (split (split n).1 ≡ (none, (split n).1)))
unfolding split split_keys split_over orient
split_once n =
    let (k1, k2, tcp) = hkdf_two n.symmetric.ck [] in
    let (u1, u2, udp) = hkdf_two n.symmetric.ck (field udp_subkey_domain canonical_encoder) in
    elim (Bool-cases n.done) [
      | inr early ↦ inl (simp early refl, inl early)
      | inl over ↦ elim (Bool-cases n.split_done) [
        | inl again ↦ inl (simp (over, again) refl, inr again)
        | inr first ↦ inr (
          orient n.initiator k1 k2 u1 u2,
          over,
          simp (over, first, tcp, udp) refl,
          simp (over, first, tcp, udp) refl,
        )
      ]
    ]

-- An initiator and a responder that are done with the same chaining key, and have not split, get
-- crossed keys: what either sends with, the other receives with, on both transports.
pub split_crossed :
    (n m : Handshake)
    → n.initiator ≡ true
    → m.initiator ≡ false
    → n.done ≡ true
    → m.done ≡ true
    → n.split_done ≡ false
    → m.split_done ≡ false
    → n.symmetric.ck ≡ m.symmetric.ck
    → (k : SplitKeys) × (l : SplitKeys) × (split n ≡ (some k, record n { split_done = true }))
      × (split m ≡ (some l, record m { split_done = true }))
      × (k.send ≡ l.recv)
      × (k.recv ≡ l.send)
      × (k.udp_send ≡ l.udp_recv)
      × (k.udp_recv ≡ l.udp_send)
unfolding split split_keys split_over orient
split_crossed n m hi hr dn dm sn sm same =
    let (k1, k2, tcp) = hkdf_two m.symmetric.ck [] in
    let (u1, u2, udp) = hkdf_two m.symmetric.ck (field udp_subkey_domain canonical_encoder) in
    (
      orient true k1 k2 u1 u2,
      orient false k1 k2 u1 u2,
      simp (hi, dn, sn, same, tcp, udp) refl,
      simp (hr, dm, sm, tcp, udp) refl,
      refl,
      refl,
      refl,
      refl,
    )

-- The keys that a split hands out are set, and nothing but `split_done` changes.
pub split_keyed :
    (n : Handshake)
    → (split n ≡ (none, n))
      ⊎ ((keys : SplitKeys) × (split n ≡ (some keys, record n { split_done = true }))
          × (keys.send.has_key ≡ true)
          × (keys.recv.has_key ≡ true))
unfolding split split_keys split_over orient init_key
split_keyed n =
    let (k1, k2, tcp) = hkdf_two n.symmetric.ck [] in
    let (u1, u2, udp) = hkdf_two n.symmetric.ck (field udp_subkey_domain canonical_encoder) in
    elim (Bool-cases (not n.done || n.split_done)) [
      | inl refused ↦ inl (simp refused refl)
      | inr passed ↦ elim (Bool-cases n.initiator) [
        | inl ours ↦ inr (orient true k1 k2 u1 u2, simp (passed, tcp, udp, ours) refl, refl, refl)
        | inr theirs ↦
            inr (orient false k1 k2 u1 u2, simp (passed, tcp, udp, theirs) refl, refl, refl)
      ]
    ]
