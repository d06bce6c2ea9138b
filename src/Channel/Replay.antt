-- ===== src/Channel/Replay.antt =====
-- `replay_window` of src/net/peer_channel.cpp: which datagram sequences were opened, over the 64
-- most recent. `seen` is a u64, a bit for each sequence at or below `highest`.
pub mod Window
use eos_reimagined.Base.{
  ℕ, ◌+◌, ◌-◌, ◌*◌, ◌%◌, ◌^◌, bit_and, bit_or, Bool, true, false, not, List, [], ◌∷◌, ltb, leb,
  ◌==◌, if◌then◌else◌,
}

abbrev pub replay_width : ℕ
replay_width = 64

pub record ReplayWindow : Type 0 where
  pub highest : ℕ
  pub seen : ℕ

abbrev pub fresh : ReplayWindow
fresh = record { highest = 0; seen = 0 }

-- `accept` on a sequence at or below the highest.
accept_older : ReplayWindow → ℕ → Bool × ReplayWindow
accept_older w seq =
    let age = w.highest - seq in
    let bit = 2 ^ age in
    if leb replay_width age
    then (false, w)
    else if not (bit_and w.seen bit == 0)
    then (false, w)
    else (true, record w { seen = bit_or w.seen bit })

-- The result and the window after `accept(seq)`.
unfoldable pub accept : ReplayWindow → ℕ → Bool × ReplayWindow
unfolding accept_older
accept w seq =
    if ltb w.highest seq
    then (let shift = seq - w.highest in
        let moved = if leb replay_width shift then 0 else w.seen * 2 ^ shift % 2 ^ 64 in
        (true, record { highest = seq; seen = bit_or moved 1 }))
    else accept_older w seq

-- The sequences that a run of `accept` passes, the last one first.
unfoldable pub passed : ReplayWindow → List ℕ → List ℕ → ReplayWindow × List ℕ
unfolding accept
passed w h [] = (w, h)
passed w h (seq ∷ seqs) = let (ok, w') = accept w seq in passed w' (if ok then seq ∷ h else h) seqs
