-- ===== src/Frame.antt =====
-- `frame_message` and `try_deframe` of src/net/wire.cpp: one message of a TCP stream is a big-endian
-- u32 length and the body. `try_deframe` returns the body and the bytes consumed, or `none` where the
-- code returns false with `consumed == 0`.
pub mod Stream
use eos_reimagined.Base.{
  ℕ, zero, suc, ◌+◌, ◌-◌, ◌*◌, ◌/◌, ◌%◌, ◌^◌, bit_or, Option, none, some, List, [], ◌∷◌, ◌++◌,
  length, take, drop, ltb, if◌then◌else◌,
}

-- `max_message_size` of src/net/messages.h.
abbrev pub max_message_size : ℕ
max_message_size = 4 * 1024 * 1024

abbrev frame_prefix_len : ℕ
frame_prefix_len = 4

unfoldable pub frame_message : List ℕ → List ℕ
frame_message body =
    let body_len = length body % 2 ^ 32 in
    (body_len / 2 ^ 24 % 2 ^ 8)
    ∷ (body_len / 2 ^ 16 % 2 ^ 8)
    ∷ (body_len / 2 ^ 8 % 2 ^ 8)
    ∷ (body_len % 2 ^ 8)
    ∷ body

-- The big-endian u32 at the front.
unfoldable pub body_length : ℕ → ℕ → ℕ → ℕ → ℕ
body_length a b c d =
    bit_or (bit_or (bit_or (a * 2 ^ 24 % 2 ^ 32) (b * 2 ^ 16 % 2 ^ 32)) (c * 2 ^ 8 % 2 ^ 32)) d

unfoldable pub try_deframe : List ℕ → Option (List ℕ × ℕ)
unfolding body_length
try_deframe (a ∷ b ∷ c ∷ d ∷ rest) =
    let body_len = body_length a b c d in
    if ltb max_message_size body_len
    then none
    else if ltb (length rest) body_len
    then none
    else some (take body_len rest, frame_prefix_len + body_len)
try_deframe short = none

-- `take_frame` of src/net/message_router.cpp; `frame_ready` carries the body that it writes.
pub data FrameState : Type 0 where
  frame_none : FrameState
  frame_refused : FrameState
  frame_ready : List ℕ → FrameState

deframe_step : List ℕ → Option (List ℕ × ℕ) → FrameState × List ℕ
deframe_step buffer none = (frame_none, buffer)
deframe_step buffer (some (body, consumed)) = (frame_ready body, drop consumed buffer)

unfoldable pub take_frame : List ℕ → FrameState × List ℕ
unfolding body_length deframe_step try_deframe
take_frame (a ∷ b ∷ c ∷ d ∷ rest) =
    if ltb max_message_size (body_length a b c d)
    then (frame_refused, [])
    else deframe_step (a ∷ b ∷ c ∷ d ∷ rest) (try_deframe (a ∷ b ∷ c ∷ d ∷ rest))
take_frame short = deframe_step short (try_deframe short)

-- The loop of `drain_peers` over a read buffer: the bodies in order, the state that ended the loop and
-- what stays buffered. Each frame takes four bytes at least, so `length buffer` rounds and one are
-- enough.
abbrev pub Drained : Type 0
Drained = List (List ℕ) × FrameState × List ℕ

drain_round : (List ℕ → Drained) → FrameState × List ℕ → Drained
drain_round again (frame_none, rest) = ([], frame_none, rest)
drain_round again (frame_refused, rest) = ([], frame_refused, rest)
drain_round again (frame_ready body, rest) =
    let (bodies, last, kept) = again rest in (body ∷ bodies, last, kept)

unfoldable pub drain : ℕ → List ℕ → Drained
unfolding drain_round take_frame
drain zero buffer = ([], frame_none, buffer)
drain (suc fuel) buffer = drain_round (drain fuel) (take_frame buffer)

unfoldable pub drain_frames : List ℕ → Drained
unfolding drain
drain_frames buffer = drain (length buffer + 1) buffer
