-- ===== src/Timer/Tests.antt =====
-- Two sleepers and one tick.
use bit_shell_os.Base.{[], ◌∷◌}
use bit_shell_os.Timer.{TimerNode, Timer}

abbrev short : TimerNode
short = record { process = 3; seconds = 1; initial_ticks = 0 }

abbrev long : TimerNode
long = record { process = 4; seconds = 9; initial_ticks = 0 }

-- The newest sleeps longer than the other.
abbrev long_first : Timer
long_first = record { ticks = 17; start = long ∷ short ∷ [] }
