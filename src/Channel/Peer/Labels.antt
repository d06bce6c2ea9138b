-- ===== src/Channel/Peer/Labels.antt =====
-- What the handshake and a datagram are bound to can be told apart.
use eos_reimagined.Base.{
  ℕ, ◌^◌, ◌<◌, ◌≡◌, refl, sym, ◌∙◌, List, [], ◌++◌, append-nil, append_assoc, length, arith,
}
use eos_reimagined.ByteBuffer.{Text}
use eos_reimagined.Crypto.Encoder.{canonical_encoder, field, field_u64, raw_u8, u64_bytes}
use eos_reimagined.Crypto.Encoder.Injective.{
  append_cancel, field_cancel, field-append, length-u64_bytes, u64_bytes_injective,
}
use eos_reimagined.Channel.Peer.{mesh_prologue, datagram_ad, prologue_domain, wire_protocol_version}

-- Three fields, one behind another.
abbrev three : List ℕ → List ℕ → List ℕ → List ℕ
three x y z = field x [] ++ (field y [] ++ (field z [] ++ []))

three_buffer : (x y z buf : List ℕ) → field z (field y (field x buf)) ≡ buf ++ three x y z
three_buffer x y z buf =
    rw
      (
        field-append z (field y (field x buf)),
        field-append y (field x buf),
        field-append x buf,
        append_assoc buf (field x []) (field y []),
        append_assoc buf (field x [] ++ field y []) (field z []),
        append_assoc (field x []) (field y []) (field z []),
        append-nil (field z []),
      )
      refl

three_injective :
    (x y z x' y' z' : List ℕ)
    → length x < 2 ^ 32
    → length y < 2 ^ 32
    → length z < 2 ^ 32
    → length x' < 2 ^ 32
    → length y' < 2 ^ 32
    → length z' < 2 ^ 32
    → three x y z ≡ three x' y' z'
    → (x ≡ x') × (y ≡ y') × (z ≡ z')
three_injective x y z x' y' z' hx hy hz hx' hy' hz' e =
    let (ex, e1) = field_cancel x x' _ _ hx hx' e in
    let (ey, e2) = field_cancel y y' _ _ hy hy' e1 in
    let (ez, e3) = field_cancel z z' _ _ hz hz' e2 in (ex, ey, ez)

-- Titles whose prologues agree have the same product, sandbox and deployment, if no id has 2^32 bytes.
pub mesh_prologue_injective :
    (p s d p' s' d' : Text)
    → length p < 2 ^ 32
    → length s < 2 ^ 32
    → length d < 2 ^ 32
    → length p' < 2 ^ 32
    → length s' < 2 ^ 32
    → length d' < 2 ^ 32
    → mesh_prologue p s d ≡ mesh_prologue p' s' d'
    → (p ≡ p') × (s ≡ s') × (d ≡ d')
unfolding mesh_prologue
mesh_prologue_injective p s d p' s' d' hp hs hd hp' hs' hd' e =
    let buf = raw_u8 wire_protocol_version (field prologue_domain canonical_encoder) in
    let shown : buf ++ three p s d ≡ buf ++ three p' s' d' =
      sym (three_buffer p s d buf) ∙ (e ∙ three_buffer p' s' d' buf) in
    three_injective p s d p' s' d' hp hs hd hp' hs' hd' (append_cancel buf buf _ _ refl shown).1

-- Two datagrams with the same associated data are from the same sender, for the same destination and
-- at the same sequence, if no id has 2^32 bytes and the sequences are 64-bit.
pub datagram_ad_injective :
    (from to from' to' : Text) (seq seq' : ℕ)
    → length from < 2 ^ 32
    → length to < 2 ^ 32
    → length from' < 2 ^ 32
    → length to' < 2 ^ 32
    → seq < 2 ^ 64
    → seq' < 2 ^ 64
    → datagram_ad from to seq ≡ datagram_ad from' to' seq'
    → (from ≡ from') × (to ≡ to') × (seq ≡ seq')
unfolding datagram_ad field_u64
datagram_ad_injective from to from' to' seq seq' hf ht hf' ht' hs hs' e =
    let shown : three from to (u64_bytes seq) ≡ three from' to' (u64_bytes seq') =
      sym (three_buffer from to (u64_bytes seq) [])
      ∙ (e ∙ three_buffer from' to' (u64_bytes seq') []) in
    let (ef, et, es) =
      three_injective from to (u64_bytes seq) from' to' (u64_bytes seq') hf ht
        (omega (arith, length-u64_bytes seq)) hf' ht' (omega (arith, length-u64_bytes seq'))
        shown in
    (ef, et, u64_bytes_injective seq seq' hs hs' es)
