-- ===== src/Vm/Outcome.antt =====
-- The codes with which plain instructions leave `dispatch_loop` of vm/rust/lana-vm/src/vm.rs.
use lana.Bytecode.Error.{LanaError}

pub data Outcome : LanaError → Type 0 where
  ok : Outcome LanaError.ok
  type : Outcome LanaError.type
  limit : Outcome LanaError.limit
  oom : Outcome LanaError.oom
  jump : Outcome LanaError.jump
  cancelled : Outcome LanaError.cancelled
