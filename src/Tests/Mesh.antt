-- ===== src/Tests/Mesh.antt =====
-- The replay window and the framing at concrete datagrams and buffers.
use eos_reimagined.Base.{ℕ, ◌+◌, ◌≡◌, refl, ◌&&◌, not, List, [], ◌∷◌, ◌++◌, ltb, arith}
use eos_reimagined.Frame.{body_length, frame_none, frame_refused, drain_frames}
use eos_reimagined.Frame.Stream.{
  stream, drain_frames_refused, drain_frames-frames, drain_frames-append,
}
use eos_reimagined.Channel.Replay.{fresh, accept, passed}
use eos_reimagined.Channel.Replay.Window.{elem, Tracks, Distinct, passed_once, accept_iff_new}

-- Datagrams out of order, one of them twice, and a jump beyond the window.
abbrev sequences : List ℕ
sequences = 5 ∷ 3 ∷ 5 ∷ 70 ∷ 69 ∷ []

accept_iff_new_example :
    let (w, h) = passed fresh [] sequences in
    (accept w 6).0 ≡ (ltb w.highest (6 + 64) && not (elem 6 h))
accept_iff_new_example = accept_iff_new sequences 6

passed_once_example : let (w, h) = passed fresh [] sequences in Tracks w h × Distinct h
passed_once_example = passed_once sequences

sequences-passed : (passed fresh [] sequences).1 ≡ 69 ∷ 70 ∷ 3 ∷ 5 ∷ []
unfolding passed
sequences-passed = refl

-- A frame, and the first bytes of the next one.
abbrev first_part : List ℕ
first_part = 0 ∷ 0 ∷ 0 ∷ 2 ∷ 7 ∷ 8 ∷ 0 ∷ 0 ∷ []

drain_frames-append_example :
    let (bodies, last, kept) = drain_frames first_part in
    let (next, last', kept') = drain_frames (kept ++ 0 ∷ 1 ∷ 9 ∷ []) in
    drain_frames (first_part ++ 0 ∷ 1 ∷ 9 ∷ []) ≡ (bodies ++ next, last', kept')
drain_frames-append_example = drain_frames-append first_part (0 ∷ 1 ∷ 9 ∷ []) first_part_waits
  where
    first_part_waits : (drain_frames first_part).1 ≡ frame_none
    first_part_waits = unfold drain_frames in refl

drain_frames-frames_example : drain_frames (stream ((7 ∷ 8 ∷ []) ∷ [] ∷ []) ++ 0 ∷ []) ≡ (
  ((7 ∷ 8 ∷ []) ∷ [] ∷ []) ++ (drain_frames (0 ∷ [])).0,
  (drain_frames (0 ∷ [])).1,
  (drain_frames (0 ∷ [])).2,
)
drain_frames-frames_example =
    drain_frames-frames ((7 ∷ 8 ∷ []) ∷ [] ∷ []) (0 ∷ []) (omega arith, (omega arith, tt))

drain_frames_refused_example :
    drain_frames (stream ((7 ∷ 8 ∷ []) ∷ []) ++ 255 ∷ 255 ∷ 255 ∷ 255 ∷ 1 ∷ [])
    ≡ ((7 ∷ 8 ∷ []) ∷ [], frame_refused, [])
drain_frames_refused_example =
    drain_frames_refused ((7 ∷ 8 ∷ []) ∷ []) 255 255 255 255 (1 ∷ []) (omega arith, tt)
      (unfold body_length in omega arith)
