-- ===== src/Fsm/Invariant/Atomic.antt =====
-- An entry that returns an error changes nothing.
use distributed_fs.Common.{◌≡◌, refl, Option, some, arith}
use distributed_fs.Fsm.Commands.{Command, register_node}
use distributed_fs.Fsm.State.{MetadataFsm, FsmError}
use distributed_fs.Fsm.Apply.{apply_command, Json, apply}
use distributed_fs.Fsm.Invariant.Log.{Effect, handled, refused, apply-Effect}

apply_command_error :
    (c : Command) (s : MetadataFsm) (e : FsmError)
    → (apply_command c s).1 ≡ some e
    → (apply_command c s).0 ≡ s
unfolding apply_command
apply_command_error (register_node r) s e h = ground arith
apply_command_error _ s e h = ground arith

-- A log entry whose `Apply` returns an error leaves every registry as it was: no handler writes
-- before its last check, and an entry that cannot be decoded has no effect.
pub apply_error_unchanged :
    {Bytes : Type 0} (j : Json Bytes) (entry : Bytes) (s : MetadataFsm) (e : FsmError)
    → (apply j entry s).1 ≡ some e
    → (apply j entry s).0 ≡ s
apply_error_unchanged j entry s e = go (apply-Effect j entry s)
  where
    go : {r : MetadataFsm × Option FsmError} → Effect s r → r.1 ≡ some e → r.0 ≡ s
    go (handled c) h = apply_command_error c s e h
    go (refused x) h = refl
