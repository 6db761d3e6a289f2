-- ===== src/Scheduler/Times.antt =====
-- uint64 and time.Duration, an int64 of nanoseconds, kept as the bit pattern of 64 bits.
use eth2_validator.Base.{ℕ, ◌+◌, ◌-◌, ◌*◌, ◌/◌, ◌%◌, ◌^◌, ltb, if◌then◌else◌}
use eth2_validator.DelayHeap.Nodes.{Time}

abbrev pub u64 : ℕ → ℕ
u64 x = x % 2 ^ 64

-- `time.Duration(s) * time.Second`
unfoldable pub seconds : ℕ → ℕ
seconds s = u64 (s * 10 ^ 9)

-- The division of a Duration by a positive constant, which rounds towards 0.
unfoldable pub divide : ℕ → ℕ → ℕ
divide d k = if ltb d (2 ^ 63) then d / k else u64 (2 ^ 64 - (2 ^ 64 - d) / k)

-- `t.Add(d)`. There is no time before the year 1 here; the program adds to the genesis.
unfoldable pub later : Time → ℕ → Time
later t d = if ltb d (2 ^ 63) then t + d else t - (2 ^ 64 - d)
