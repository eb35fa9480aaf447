-- ===== src/Commands/Ended.antt =====
-- cmd: how a program ends.
use go_notes_api.Base.{String}

-- With what it has printed, by log.Fatal with a message, or by a panic.
pub data Ended : Type 0 where
  finished fatal panicked : String → Ended
