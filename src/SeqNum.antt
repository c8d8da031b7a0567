-- ===== src/SeqNum.antt =====
-- livemedia/utils.go: the order of 16-bit sequence numbers that wrap.
use dorsvr.Common.{ℕ, ◌-◌, Bool, false, ltb, if◌then◌else◌}

-- The arguments are Go's `int`, and never negative where it is called.
unfoldable pub seq_num_lt : ℕ → ℕ → Bool
seq_num_lt s1 s2 =
    if ltb s1 s2 then ltb (s2 - s1) 0x8000 else if ltb s2 s1 then ltb 0x8000 (s1 - s2) else false
