-- ===== src/Frame/Stream.antt =====
-- Frames on a stream: what was framed is taken out again, in order and once, however it is chunked.
use native.Mathlib.Nat.{mod-eq_of_lt}
use native.Mathlib.Decide.{dec_lt}
use eos_reimagined.Base.{
  All, List, [], ap, append-nil, append_assoc, arith, drop, drop-append, drop-length_append, length,
  length-append, length-drop, le→ltb_false, refl, suc, sym, take, take-append, take-length_append,
  zero, ℕ, ◌%◌, ◌*◌, ◌++◌, ◌+◌, ◌/◌, ◌<◌, ◌^◌, ◌∙◌, ◌∷◌, ◌≡◌, ◌≤◌,
}
use eos_reimagined.Base.Bits.{bit_or_above}
use eos_reimagined.Frame.{
  frame_message, body_length, max_message_size, take_frame, FrameState, frame_none, frame_refused,
  frame_ready, drain, drain_round, drain_frames,
}

-- The big-endian length as a sum, for bytes.
body_length_sum :
    (a b c d : ℕ)
    → a < 256
    → b < 256
    → c < 256
    → d < 256
    → body_length a b c d ≡ ((a * 256 + b) * 256 + c) * 256 + d
unfolding body_length
body_length_sum a b c d ha hb hc hd = ground (
  arith,
  bit_or_above 8 24 a (b * 2 ^ 16),
  bit_or_above 16 16 (a * 256 + b) (c * 2 ^ 8),
  bit_or_above 24 8 ((a * 256 + b) * 256 + c) d,
)

-- The four bytes of a length give it back.
pub body_length_lem :
    (n : ℕ)
    → n < 2 ^ 32
    → body_length (n / 2 ^ 24 % 2 ^ 8) (n / 2 ^ 16 % 2 ^ 8) (n / 2 ^ 8 % 2 ^ 8) (n % 2 ^ 8) ≡ n
body_length_lem n h = omega (
  arith,
  body_length_sum (n / 2 ^ 24 % 2 ^ 8) (n / 2 ^ 16 % 2 ^ 8) (n / 2 ^ 8 % 2 ^ 8) (n % 2 ^ 8)
      (omega arith) (omega arith) (omega arith) (omega arith),
)

-- `take_frame` on a buffer with a whole prefix, by the length that it declares.
module _ (a b c d : ℕ) (rest : List ℕ) (n : ℕ) (declared : body_length a b c d ≡ n) where
  take_frame_refused :
      max_message_size < n → take_frame (a ∷ b ∷ c ∷ d ∷ rest) ≡ (frame_refused, [])
  unfolding take_frame
  take_frame_refused h = rw declared (ground arith)

  take_frame_waits :
      n ≤ max_message_size
      → length rest < n
      → take_frame (a ∷ b ∷ c ∷ d ∷ rest) ≡ (frame_none, a ∷ b ∷ c ∷ d ∷ rest)
  unfolding take_frame
  take_frame_waits h short = rw declared (ground arith)

  take_frame_takes :
      n ≤ max_message_size
      → n ≤ length rest
      → take_frame (a ∷ b ∷ c ∷ d ∷ rest) ≡ (frame_ready (take n rest), drop n rest)
  unfolding take_frame
  take_frame_takes h enough =
      let e : 4 + n ≡ suc (suc (suc (suc n))) = omega arith in
      rw declared (rw (le→ltb_false n max_message_size h, le→ltb_false n (length rest) enough, e))

-- A framed body at the front of the buffer is taken out whole.
pub take_frame-frame :
    (body rest : List ℕ)
    → length body ≤ max_message_size
    → take_frame (frame_message body ++ rest) ≡ (frame_ready body, rest)
unfolding frame_message
take_frame-frame body rest h =
    let n = length body in
    let small : n % 2 ^ 32 ≡ n = mod-eq_of_lt (omega arith) in
    rw small (
      rw
        (take_frame_takes _ _ _ _ (body ++ rest) n (body_length_lem n (omega arith)) h
          (omega (arith, length-append body rest)))
        (rw (take-length_append body rest, drop-length_append body rest)))

-- The bytes of several framed bodies.
abbrev pub stream : List (List ℕ) → List ℕ
stream [] = []
stream (b ∷ bs) = frame_message b ++ stream bs

-- What `take_frame` does on any buffer: it waits, it refuses, or it takes a body and at least four
-- bytes; and more bytes behind the buffer change neither a body nor a refusal.
data Takes (buffer : List ℕ) : FrameState × List ℕ → Type 0 where
  waits : Takes buffer (frame_none, buffer)
  refuses :
      ((more : List ℕ) → take_frame (buffer ++ more) ≡ (frame_refused, []))
      → Takes buffer (frame_refused, [])
  takes :
      (body rest : List ℕ)
      → length rest + 4 ≤ length buffer
      → ((more : List ℕ) → take_frame (buffer ++ more) ≡ (frame_ready body, rest ++ more))
      → Takes buffer (frame_ready body, rest)

whole_prefix :
    (a b c d : ℕ) (rest : List ℕ)
    → body_length a b c d ≤ max_message_size
    → Takes (a ∷ b ∷ c ∷ d ∷ rest) (take_frame (a ∷ b ∷ c ∷ d ∷ rest))
whole_prefix a b c d rest small =
    let n = body_length a b c d in
    elim (dec_lt (length rest) n) [
      | yes short ↦ rw (take_frame_waits a b c d rest _ refl small short) waits
      | no enough ↦ rw (take_frame_takes a b c d rest _ refl small (omega arith)) (
          takes (take n rest) (drop n rest) (omega (arith, length-drop n rest)) λ more.
            take_frame_takes a b c d (rest ++ more) n refl small
              (omega (arith, length-append rest more))
            ∙ rw (take-append n rest more (omega arith), drop-append n rest more (omega arith)))
    ]

take_frame-Takes : (buffer : List ℕ) → Takes buffer (take_frame buffer)
take_frame-Takes (a ∷ b ∷ c ∷ d ∷ rest) = elim (dec_lt max_message_size (body_length a b c d)) [
  | yes big ↦
      rw (take_frame_refused a b c d rest _ refl big)
        (refuses (λ more. take_frame_refused a b c d (rest ++ more) _ refl big))
  | no small ↦ whole_prefix a b c d rest (omega arith)
]
take_frame-Takes [] = unfold take_frame in waits
take_frame-Takes (a ∷ []) = unfold take_frame in waits
take_frame-Takes (a ∷ b ∷ []) = unfold take_frame in waits
take_frame-Takes (a ∷ b ∷ c ∷ []) = unfold take_frame in waits

-- One round of the loop.
drain_ready :
    (fuel : ℕ) (buffer body rest : List ℕ)
    → take_frame buffer ≡ (frame_ready body, rest)
    → drain (suc fuel) buffer
      ≡ (body ∷ (drain fuel rest).0, (drain fuel rest).1, (drain fuel rest).2)
unfolding drain drain_round
drain_ready fuel buffer body rest e = ap (drain_round (drain fuel)) e

drain_none :
    (fuel : ℕ) (buffer : List ℕ)
    → take_frame buffer ≡ (frame_none, buffer)
    → drain (suc fuel) buffer ≡ ([], frame_none, buffer)
unfolding drain drain_round
drain_none fuel buffer e = ap (drain_round (drain fuel)) e

drain_refused :
    (fuel : ℕ) (buffer : List ℕ)
    → take_frame buffer ≡ (frame_refused, [])
    → drain (suc fuel) buffer ≡ ([], frame_refused, [])
unfolding drain drain_round
drain_refused fuel buffer e = ap (drain_round (drain fuel)) e

-- The rounds beyond the length of the buffer are not used.
drain_fuel :
    (f g : ℕ) (buffer : List ℕ)
    → length buffer < f
    → length buffer < g
    → drain f buffer ≡ drain g buffer
drain_fuel zero g buffer hf hg = absurd (omega arith)
drain_fuel (suc f) zero buffer hf hg = absurd (omega arith)
drain_fuel (suc f) (suc g) buffer hf hg =
    go (take_frame buffer) refl (take_frame-Takes buffer) (λ rest. drain_fuel f g rest)
  where
    go :
        (r : FrameState × List ℕ)
        → take_frame buffer ≡ r
        → Takes buffer r
        → ((rest : List ℕ) → length rest < f → length rest < g → drain f rest ≡ drain g rest)
        → drain (suc f) buffer ≡ drain (suc g) buffer
    go r e waits ih = drain_none f buffer e ∙ sym (drain_none g buffer e)
    go r e (refuses k) ih = drain_refused f buffer e ∙ sym (drain_refused g buffer e)
    go r e (takes body rest less k) ih =
        let same = ih rest (omega arith) (omega arith) in
        drain_ready f buffer body rest e
        ∙ ((λ i. (body ∷ (same i).0, (same i).1, (same i).2))
            ∙ sym (drain_ready g buffer body rest e))

drain_frames_ready :
    (buffer body rest : List ℕ)
    → length rest + 4 ≤ length buffer
    → take_frame buffer ≡ (frame_ready body, rest)
    → drain_frames buffer
      ≡ (body ∷ (drain_frames rest).0, (drain_frames rest).1, (drain_frames rest).2)
unfolding drain_frames
drain_frames_ready buffer body rest less e =
    let n : length buffer + 1 ≡ suc (length buffer) = omega arith in
    let same = drain_fuel (length buffer) (length rest + 1) rest (omega arith) (omega arith) in
    rw n (
      drain_ready (length buffer) buffer body rest e
      ∙ (λ i. (body ∷ (same i).0, (same i).1, (same i).2)))

shorter :
    (body bytes rest : List ℕ)
    → length (bytes ++ rest) + 4 ≤ length ((frame_message body ++ bytes) ++ rest)
unfolding frame_message
shorter body bytes rest =
    omega (
      arith,
      length-append bytes rest,
      length-append (body ++ bytes) rest,
      length-append body bytes,
    )

-- Framed bodies, each within the limit, at the front of a buffer come out whole, in order and once,
-- and the buffer goes on behind them.
pub drain_frames-frames :
    (bodies : List (List ℕ)) (rest : List ℕ)
    → All (λ body. length body ≤ max_message_size) bodies
    → drain_frames (stream bodies ++ rest)
      ≡ (bodies ++ (drain_frames rest).0, (drain_frames rest).1, (drain_frames rest).2)
drain_frames-frames [] rest h = refl
drain_frames-frames (b ∷ bs) rest h =
    let taken : take_frame (stream (b ∷ bs) ++ rest) ≡ (frame_ready b, stream bs ++ rest) =
      rw (append_assoc (frame_message b) (stream bs) rest) (take_frame-frame b _ h.0) in
    let same = drain_frames-frames bs rest h.1 in
    drain_frames_ready (stream (b ∷ bs) ++ rest) b (stream bs ++ rest) (shorter b (stream bs) rest)
      taken
    ∙ (λ i. (b ∷ (same i).0, (same i).1, (same i).2))

-- Framed bodies, each within the limit, that stand before a prefix which declares more than the limit
-- come out whole and in order; then the connection is refused and the buffer is empty.
pub drain_frames_refused :
    (bodies : List (List ℕ)) (a b c d : ℕ) (rest : List ℕ)
    → All (λ body. length body ≤ max_message_size) bodies
    → max_message_size < body_length a b c d
    → drain_frames (stream bodies ++ a ∷ b ∷ c ∷ d ∷ rest) ≡ (bodies, frame_refused, [])
drain_frames_refused bodies a b c d rest h big =
    let refused : drain_frames (a ∷ b ∷ c ∷ d ∷ rest) ≡ ([], frame_refused, []) =
      unfold drain_frames in
      let n : length (a ∷ b ∷ c ∷ d ∷ rest) + 1 ≡ suc (length rest + 4) = omega arith in
      rw n (
        drain_refused (length rest + 4) (a ∷ b ∷ c ∷ d ∷ rest)
          (take_frame_refused a b c d rest (body_length a b c d) refl big)) in
    drain_frames-frames bodies (a ∷ b ∷ c ∷ d ∷ rest) h ∙ rw (refused, append-nil) refl

drain-append :
    (fuel : ℕ) (buffer more : List ℕ)
    → length buffer < fuel
    → (drain fuel buffer).1 ≡ frame_none
    → let (bodies, last, kept) = drain fuel buffer in
      let (next, last', kept') = drain_frames (kept ++ more) in
      drain_frames (buffer ++ more) ≡ (bodies ++ next, last', kept')
drain-append zero buffer more h e = absurd (omega arith)
drain-append (suc fuel) buffer more h e =
    go (take_frame buffer) refl (take_frame-Takes buffer) (λ rest. drain-append fuel rest more)
  where
    go :
        (r : FrameState × List ℕ)
        → take_frame buffer ≡ r
        → Takes buffer r
        → ((rest : List ℕ)
            → length rest < fuel
            → (drain fuel rest).1 ≡ frame_none
            → drain_frames (rest ++ more) ≡ (
              (drain fuel rest).0 ++ (drain_frames ((drain fuel rest).2 ++ more)).0,
              (drain_frames ((drain fuel rest).2 ++ more)).1,
              (drain_frames ((drain fuel rest).2 ++ more)).2,
            ))
        → drain_frames (buffer ++ more) ≡ (
          (drain (suc fuel) buffer).0 ++ (drain_frames ((drain (suc fuel) buffer).2 ++ more)).0,
          (drain_frames ((drain (suc fuel) buffer).2 ++ more)).1,
          (drain_frames ((drain (suc fuel) buffer).2 ++ more)).2,
        )
    go r t waits ih = rw (drain_none fuel buffer t)
    go r t (refuses k) ih = absurd (cc (drain_refused fuel buffer t))
    go r t (takes body rest less k) ih =
        let step = drain_ready fuel buffer body rest t in
        let same = ih rest (omega arith) (ap (λ x. x.1) (sym step) ∙ e) in
        rw step (
          drain_frames_ready (buffer ++ more) body (rest ++ more)
            (omega (arith, length-append buffer more, length-append rest more)) (k more)
          ∙ (λ i. (body ∷ (same i).0, (same i).1, (same i).2)))

-- How the bytes are cut into reads does not matter: draining what has come, as long as no frame is
-- refused, and then draining what was kept with the next bytes gives the same bodies in the same
-- order, the same last state and the same buffer as draining all of it at once.
pub drain_frames-append :
    (buffer more : List ℕ)
    → (drain_frames buffer).1 ≡ frame_none
    → let (bodies, last, kept) = drain_frames buffer in
      let (next, last', kept') = drain_frames (kept ++ more) in
      drain_frames (buffer ++ more) ≡ (bodies ++ next, last', kept')
unfolding drain_frames
drain_frames-append buffer more e = drain-append (length buffer + 1) buffer more (omega arith) e
