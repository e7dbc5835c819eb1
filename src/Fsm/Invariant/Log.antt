-- ===== src/Fsm/Invariant/Log.antt =====
-- The invariants along the Raft log: for one entry, decoded or not, and for a whole log.
use distributed_fs.Common.{◌≡◌, List, [], ◌∷◌, Option, some, arith}
use distributed_fs.Common.Registry.{lookup}
use distributed_fs.Fsm.Commands.{
  Command, MetadataCmdType, MetadataCommand, cmd_register_node, other,
}
use distributed_fs.Fsm.State.{MetadataFsm, FsmError, Result, ok, err, new_empty_metadata_fsm}
use distributed_fs.Fsm.Apply.{
  apply_command, Json, RoundTrips, with_request, dispatch, apply, cmd_type, encode, replay,
}
use distributed_fs.Fsm.Invariant.Keys.{KeysMatch, apply_command-KeysMatch}
use distributed_fs.Fsm.Invariant.Links.{Links, apply_command-Links}

pub record IsWellFormed (s : MetadataFsm) : Type 0 where
  pub keys : KeysMatch s
  pub links : Links s

pub apply_command-IsWellFormed :
    (c : Command) (s : MetadataFsm) → IsWellFormed s → IsWellFormed (apply_command c s).0
apply_command-IsWellFormed c s h = record {
  keys = apply_command-KeysMatch c s h.keys;
  links = apply_command-Links c s h.links;
}

-- What one entry does: a command's handler, or nothing but an error.
pub data Effect (s : MetadataFsm) : MetadataFsm × Option FsmError → Type 0 where
  handled : (c : Command) → Effect s (apply_command c s)
  refused : (e : FsmError) → Effect s (s, some e)

with_request-Effect :
    {A : Type 0} (r : Result A) (f : A → Command) (s : MetadataFsm) → Effect s (with_request r f s)
with_request-Effect (ok a) f s = handled (f a)
with_request-Effect (err e) f s = refused e

module _ {Bytes : Type 0} (j : Json Bytes) where
  dispatch-Effect :
      (t : MetadataCmdType) (p : Bytes) (s : MetadataFsm) → Effect s (dispatch j t p s)
  unfolding dispatch
  dispatch-Effect cmd_register_node p s = with_request-Effect _ _ s
  dispatch-Effect (other n) p s = refused _
  dispatch-Effect _ p s = with_request-Effect _ _ s

  pub apply-Effect : (entry : Bytes) (s : MetadataFsm) → Effect s (apply j entry s)
  unfolding apply
  apply-Effect entry s = go (j.unmarshal entry)
    where
      go :
          (r : Result (MetadataCommand Bytes))
          → Effect s (elim r [ err e ↦ (s, some e) | ok cmd ↦ dispatch j cmd.type cmd.payload s ])
      go (ok cmd) = dispatch-Effect cmd.type cmd.payload s
      go (err e) = refused e

  -- A property that every handler keeps is kept by every entry, whatever its bytes.
  pub apply-keeps :
      (P : MetadataFsm → Type 0)
      → ((c : Command) (s : MetadataFsm) → P s → P (apply_command c s).0)
      → (entry : Bytes) (s : MetadataFsm) → P s
      → P (apply j entry s).0
  apply-keeps P keep entry s h = go (apply-Effect entry s)
    where
      go : {r : MetadataFsm × Option FsmError} → Effect s r → P r.0
      go (handled c) = keep c s h
      go (refused e) = h

  pub replay-keeps :
      (P : MetadataFsm → Type 0)
      → ((c : Command) (s : MetadataFsm) → P s → P (apply_command c s).0)
      → (log : List Bytes) (s : MetadataFsm) → P s
      → P (replay j log s)
  unfolding replay
  replay-keeps P keep [] s h = h
  replay-keeps P keep (e ∷ log) s h =
      replay-keeps P keep log (apply j e s).0 (apply-keeps P keep e s h)

new_empty_metadata_fsm-IsWellFormed : IsWellFormed new_empty_metadata_fsm
unfolding lookup
new_empty_metadata_fsm-IsWellFormed = record {
  keys = record {
    files = record { keyed = λ k v e. cc; unique = tt };
    chunks = record { keyed = λ k v e. cc; unique = tt };
    nodes = record { keyed = λ k v e. cc; unique = tt };
    jobs = record { keyed = λ k v e. cc; unique = tt };
    md_nodes = record { keyed = λ k v e. cc; unique = tt };
  };
  links = record {
    file_chunks = λ k f c e m. cc;
    chunk_files = λ c ck e. cc;
    committed = λ k f c e st m. cc;
    distinct = λ c ck e. absurd (ground arith);
  };
}

-- After any Raft log, of well-formed entries or not, on a replica that starts empty, the five
-- registries have unique keys that are the identifiers of their records, every chunk of a file is
-- registered, every chunk belongs to a registered file, no chunk of a complete file is still
-- allocated (it is complete, or was marked as lost), and no chunk lists a replica node twice.
pub replay-IsWellFormed :
    {Bytes : Type 0} (j : Json Bytes) (log : List Bytes)
    → IsWellFormed (replay j log new_empty_metadata_fsm)
replay-IsWellFormed j log =
    replay-keeps j IsWellFormed apply_command-IsWellFormed log new_empty_metadata_fsm
      new_empty_metadata_fsm-IsWellFormed

dispatch-payload :
    {Bytes : Type 0} (j : Json Bytes)
    → RoundTrips j
    → (c : Command) (s : MetadataFsm)
    → dispatch j (cmd_type c) (j.marshal_payload c) s ≡ apply_command c s
unfolding dispatch
dispatch-payload j h (Command.register_node r) s = rw h.register_node_lem
dispatch-payload j h (Command.deregister_node r) s = rw h.deregister_node_lem
dispatch-payload j h (Command.mark_node_dead r) s = rw h.mark_node_dead_lem
dispatch-payload j h (Command.mark_node_alive r) s = rw h.mark_node_alive_lem
dispatch-payload j h (Command.update_node_space r) s = rw h.update_node_space_lem
dispatch-payload j h (Command.create_file r) s = rw h.create_file_lem
dispatch-payload j h (Command.commit_file r) s = rw h.commit_file_lem
dispatch-payload j h (Command.delete_file r) s = rw h.delete_file_lem
dispatch-payload j h (Command.commit_chunk r) s = rw h.commit_chunk_lem
dispatch-payload j h (Command.evict_chunk_from_node r) s = rw h.evict_chunk_from_node_lem
dispatch-payload j h (Command.mark_chunk_lost r) s = rw h.mark_chunk_lost_lem
dispatch-payload j h (Command.create_repair_job r) s = rw h.create_repair_job_lem
dispatch-payload j h (Command.update_repair_job r) s = rw h.update_repair_job_lem
dispatch-payload j h (Command.add_chunk_replica r) s = rw h.add_chunk_replica_lem
dispatch-payload j h (Command.register_metadata_node r) s = rw h.register_metadata_node_lem
dispatch-payload j h (Command.deregister_metadata_node r) s = rw h.deregister_metadata_node_lem

-- A command that is proposed in the encoding that `Apply` expects reaches its own handler, for
-- each of the sixteen command types.
pub apply-encode :
    {Bytes : Type 0} (j : Json Bytes)
    → RoundTrips j
    → (c : Command) (s : MetadataFsm) → apply j (encode j c) s ≡ apply_command c s
unfolding apply encode
apply-encode j h c s = ground (
  arith,
  h.envelope (record { type = cmd_type c; payload = j.marshal_payload c }),
  dispatch-payload j h c s,
)
