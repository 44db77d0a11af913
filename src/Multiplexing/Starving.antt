-- ===== src/Multiplexing/Starving.antt =====
-- About a read with an empty buffer (pkg/multiplexing/stream.go).
use mutagen.Base.{ℕ, nat_eq, ◌<◌}
use mutagen.Multiplexing.Flow.{Flow}

abbrev pub IsSome : ℕ → Type 0
IsSome n = 0 < n

abbrev pub IsAny : ℕ → Type 0
IsAny n = Unit
