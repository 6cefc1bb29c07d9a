-- ===== src/Provisioning/Machine/Monad.antt =====
-- The machine's methods: state and exceptions.
use backend_client.Base.State.{State}
use backend_client.Provisioning.Machine.Defs.{Machine}
pub use backend_client.Base.State.{◌>>=◌, ◌>>◌, done, gets, lift, modify, >>=-ok, >>=-err}

abbrev pub M : Type 0 → Type 0
M = State Machine
