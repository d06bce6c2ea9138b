-- ===== src/P2p/Keys.antt =====
-- `connection_key` of src/interfaces/p2p.h: two keys are one if the peer and the socket are.
use eos_reimagined.Base.{Bool, true, ◌&&◌, ◌≡◌, arith, List, ℕ}
use eos_reimagined.Base.Texts.{same_text, same_text_refl, same_text_sound}

abbrev pub same_key : List ℕ × List ℕ → List ℕ × List ℕ → Bool
same_key a b = same_text a.0 b.0 && same_text a.1 b.1

pub same_key_refl : (a : List ℕ × List ℕ) → same_key a a ≡ true
same_key_refl a = ground (arith, same_text_refl a.0, same_text_refl a.1)

pub same_key_sound : (a b : List ℕ × List ℕ) → same_key a b ≡ true → a ≡ b
same_key_sound a b h =
    let peers : a.0 ≡ b.0 = same_text_sound a.0 b.0 (ground (arith, h)) in
    let sockets : a.1 ≡ b.1 = same_text_sound a.1 b.1 (ground (arith, h)) in
    λ i. (peers i, sockets i)
