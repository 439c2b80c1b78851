-- ===== src/Cmd.antt =====
-- The programs of cmd: the RCD, the owner, the start of the contract manager, the chat and the
-- test client of the contract manager. Flags and environment variables are read already.
pub mod Text
pub mod Chat
pub mod RunRcd
pub mod RunOwner
pub mod RunCm
pub mod CmTest
pub mod Tests
use broadauth.Base.{ℕ}

-- How a program ends: by its usage and `os.Exit(1)`, by `log.Fatalf`, which runs no deferred call,
-- or by the return of `main`.
pub data Exit : Type 0 where
  usage fatal returned : Exit
