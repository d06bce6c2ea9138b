-- ===== src/Channel/Replay/Window.antt =====
-- The window against the history of what it passed.
use native.Mathlib.Nat.{one-le-pow, mul-le-mul_right}
use native.Mathlib.Decide.{dec_lt}
use eos_reimagined.Base.{
  true, ℕ, ◌+◌, ◌-◌, ◌*◌, ◌%◌, ◌^◌, ◌≤◌, ◌<◌, ◌≡◌, refl, ◌∙◌, bit_and, bit_or, Bool, false, not,
  ◌&&◌, ◌||◌, List, [], ◌∷◌, ltb, lt→ltb, le→ltb_false, leb, ◌==◌, arith, Bool-cases, inl, inr,
  if◌then◌else◌,
}
use eos_reimagined.Base.Bits.{
  bit_at, bit_at-lt, bit_at-bit_or, bit_and_single, bit_at-zero, bit_at-shift_low,
  bit_at-shift_high, bit_at-mod, bit_at-single,
}
use eos_reimagined.Channel.Replay.{ReplayWindow, replay_width, fresh, accept, accept_older, passed}

abbrev pub elem : ℕ → List ℕ → Bool
elem s [] = false
elem s (x ∷ xs) = x == s || elem s xs

-- The window says exactly which of the 64 latest sequences stand in the history `h`, and no later one
-- does.
pub record Tracks (w : ReplayWindow) (h : List ℕ) : Type 0 where
  pub bits :
      (a : ℕ) → a < 64 → a ≤ w.highest → bit_at w.seen a ≡ (if elem (w.highest - a) h then 1 else 0)
  pub above : (s : ℕ) → w.highest < s → elem s h ≡ false

pub Tracks-fresh : Tracks fresh []
Tracks-fresh = record { bits = λ a h k. bit_at-zero a; above = λ s h. refl }

-- The specification: a sequence passes exactly when it is new and not 64 or more behind the highest.
abbrev pub passes : ReplayWindow → List ℕ → ℕ → Bool
passes w h seq = ltb w.highest (seq + 64) && not (elem seq h)

bit_and-test : (seen age : ℕ) → (bit_and seen (2 ^ age) == 0) ≡ (bit_at seen age == 0)
bit_and-test seen age =
    let b = bit_at seen age in
    elim (dec_lt 0 b) [
      | yes set ↦
          let kept : 1 * 2 ^ age ≤ b * 2 ^ age = mul-le-mul_right (2 ^ age) set in
          ground (arith, bit_and_single age seen, one-le-pow age 2)
      | no clear ↦
          let e : b ≡ 0 = omega arith in
          let z : bit_and seen (2 ^ age) ≡ 0 = bit_and_single age seen ∙ rw e (omega arith) in
          rw (e, z)
    ]

pub accept-eq-passes :
    (w : ReplayWindow) (h : List ℕ) (seq : ℕ) → Tracks w h → (accept w seq).0 ≡ passes w h seq
unfolding accept
accept-eq-passes w h seq t = elim (dec_lt w.highest seq) [
  | yes later ↦ ground (arith, t.above seq)
  | no older ↦
      let e : w.highest - (w.highest - seq) ≡ seq = omega arith in
      ground (arith, e, bit_and-test w.seen (w.highest - seq), t.bits (w.highest - seq))
]

abbrev indicator : Bool → ℕ
indicator b = if b then 1 else 0

abbrev moved : ReplayWindow → ℕ → ℕ
moved w shift = if leb replay_width shift then 0 else w.seen * 2 ^ shift % 2 ^ 64

module _ (w : ReplayWindow) (h : List ℕ) (seq : ℕ) (t : Tracks w h) where
  -- The bits after the window has moved up: those of the sequences at or below the old highest.
  moved_bits :
      (a : ℕ)
      → w.highest < seq
      → a < 64
      → 0 < a
      → a ≤ seq
      → bit_at (moved w (seq - w.highest)) a ≡ indicator (elem (seq - a) h)
  moved_bits a later small pos le =
      let shift = seq - w.highest in
      elim (dec_lt shift 64) [
        | no far ↦ ground (arith, bit_at-zero a, t.above (seq - a))
        | yes near ↦ elim (dec_lt a shift) [
          | yes low ↦
              let e =
                bit_at-mod 64 a (w.seen * 2 ^ shift) small ∙ bit_at-shift_low shift a w.seen low in
              ground (arith, e, t.above (seq - a))
          | no high ↦
              let e =
                bit_at-mod 64 a (w.seen * 2 ^ shift) small
                ∙ bit_at-shift_high shift a w.seen (omega arith) in
              let d : w.highest - (a - shift) ≡ seq - a = omega arith in
              let b = t.bits (a - shift) (omega arith) (omega arith) in ground (arith, e, rw d at b)
        ]
      ]

  later-Tracks :
      w.highest < seq
      → Tracks (record { highest = seq; seen = bit_or (moved w (seq - w.highest)) 1 }) (seq ∷ h)
  later-Tracks later = record {
    bits = λ a small le.
        let m = moved w (seq - w.highest) in
        ground
          (arith, bit_at-bit_or a m 1, bit_at-lt a m, bit_at-single 0 a, moved_bits a later small);
    above = λ s hs. ground (arith, t.above s);
  }

  older-Tracks :
      seq ≤ w.highest → Tracks (record w { seen = bit_or w.seen (2 ^ (w.highest - seq)) }) (seq ∷ h)
  older-Tracks older = record {
    bits = λ a small le.
        let age = w.highest - seq in
        ground (
          arith,
          bit_at-bit_or a w.seen (2 ^ age),
          bit_at-lt a w.seen,
          bit_at-single age a,
          t.bits a,
        );
    above = λ s hs. ground (arith, t.above s);
  }

  accept_older-Tracks :
      seq ≤ w.highest → let (ok, w') = accept_older w seq in Tracks w' (if ok then seq ∷ h else h)
  unfolding accept_older
  accept_older-Tracks older =
      let age = w.highest - seq in
      elim (Bool-cases (leb replay_width age)) [
        | inl old ↦ rw old t
        | inr recent ↦ elim (Bool-cases (bit_and w.seen (2 ^ age) == 0)) [
          | inl clear ↦ rw (recent, clear) (older-Tracks older)
          | inr set ↦ rw (recent, set) t
        ]
      ]

  -- A call keeps the window in step with the history.
  pub accept-Tracks : let (ok, w') = accept w seq in Tracks w' (if ok then seq ∷ h else h)
  accept-Tracks = elim (dec_lt w.highest seq) [
    | yes later ↦ unfold accept in rw (lt→ltb w.highest seq later) (later-Tracks later)
    | no older ↦
        unfold accept in
        rw (le→ltb_false seq w.highest (omega arith)) (accept_older-Tracks (omega arith))
  ]

-- What stands in the history, each once.
abbrev pub Distinct : List ℕ → Type 0
Distinct [] = Unit {0}
Distinct (x ∷ xs) = (elem x xs ≡ false) × Distinct xs

passed-Distinct :
    (w : ReplayWindow) (h seqs : List ℕ)
    → Tracks w h
    → Distinct h
    → Tracks (passed w h seqs).0 (passed w h seqs).1 × Distinct (passed w h seqs).1
unfolding passed
passed-Distinct w h [] t d = (t, d)
passed-Distinct w h (seq ∷ seqs) t d =
    let (ok, w') = accept w seq in
    passed-Distinct w' (if ok then seq ∷ h else h) seqs (accept-Tracks w h seq t)
      (ground (arith, accept-eq-passes w h seq t))

-- From a new window, over any datagrams in any order, no sequence passes twice, and the window says
-- exactly which of the 64 latest have passed.
pub passed_once : (seqs : List ℕ) → let (w, h) = passed fresh [] seqs in Tracks w h × Distinct h
passed_once seqs = passed-Distinct fresh [] seqs Tracks-fresh tt

-- After any datagrams from a new window, a sequence is accepted exactly when it has not passed before
-- and is less than 64 behind the highest that passed.
pub accept_iff_new :
    (seqs : List ℕ) (seq : ℕ)
    → let (w, h) = passed fresh [] seqs in
      (accept w seq).0 ≡ (ltb w.highest (seq + 64) && not (elem seq h))
accept_iff_new seqs seq =
    let (w, h) = passed fresh [] seqs in accept-eq-passes w h seq (passed_once seqs).0

-- A sequence that is refused leaves the window as it was.
pub accept_refused :
    (w : ReplayWindow) (seq : ℕ) → (accept w seq).0 ≡ false → accept w seq ≡ (false, w)
unfolding accept accept_older
accept_refused w seq h = elim (Bool-cases (ltb w.highest seq)) [
  | inl later ↦ absurd (let f : true ≡ false = (rw later at h) in cc)
  | inr older ↦ elim (Bool-cases (leb replay_width (w.highest - seq))) [
    | inl old ↦ rw (older, old) refl
    | inr recent ↦ elim (Bool-cases (bit_and w.seen (2 ^ (w.highest - seq)) == 0)) [
      | inr set ↦ rw (older, recent, set) refl
      | inl clear ↦ absurd (let f : true ≡ false = (rw (older, recent, clear) at h) in cc)
    ]
  ]
]
