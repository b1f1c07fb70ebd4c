-- ===== src/Common/Clock.antt =====
-- Go's clock and durations. An instant is the number of nanoseconds since the Unix epoch: the gate
-- runs after 1970, and no instant comes near the end of the range of time.Time.
use Prim.Native.Nat.{ℕ, ◌*◌, ◌/◌}

abbrev pub Time : Type 0
Time = ℕ

abbrev pub Duration : Type 0
Duration = ℕ

abbrev pub second : Duration
second = 1_000_000_000

-- t.Unix()
abbrev pub unix : Time → ℕ
unix t = t / second

-- time.Unix(s, 0)
abbrev pub from_unix : ℕ → Time
from_unix s = s * second
