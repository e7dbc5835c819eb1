-- ===== src/Fsm/Apply.antt =====
-- `Apply` of metadata/fsm/fsm.go: a log entry is decoded and handed to the handler of its type.
-- encoding/json is a parameter: its decoders, and the encoders that the proposers use.
use distributed_fs.Common.{◌≡◌, List, [], ◌∷◌, Option, some}
use distributed_fs.Fsm.Commands.{
  MetadataCmdType, cmd_register_node, cmd_deregister_node, cmd_mark_node_dead, cmd_mark_node_alive,
  cmd_update_node_space, cmd_create_file, cmd_commit_file, cmd_delete_file, cmd_commit_chunk,
  cmd_evict_chunk_from_node, cmd_mark_chunk_lost, cmd_create_repair_job, cmd_update_repair_job,
  cmd_add_chunk_replica, cmd_register_metadata_node, cmd_deregister_metadata_node, other,
  MetadataCommand, Command, register_node, deregister_node, mark_node_dead, mark_node_alive,
  update_node_space, create_file, commit_file, delete_file, commit_chunk, evict_chunk_from_node,
  mark_chunk_lost, create_repair_job, update_repair_job, add_chunk_replica, register_metadata_node,
  deregister_metadata_node, CommandRegisterNode, CommandDeregisterNode, CommandMarkNodeDead,
  CommandMarkNodeAlive, CommandUpdateNodeSpace, CommandCreateFile, CommandCommitFile,
  CommandDeleteFile, CommandCommitChunk, CommandEvictChunkFromNode, CommandMarkChunkLost,
  CommandCreateRepairJob, CommandUpdateRepairJob, CommandAddChunkReplica,
  CommandRegisterMetadataNode, CommandDeregisterMetadataNode,
}
use distributed_fs.Fsm.State.{MetadataFsm, FsmError, new_error, Result, ok, err}
use distributed_fs.Fsm.Handlers.Nodes.{
  handle_register_node, handle_deregister_node, handle_mark_node_dead, handle_mark_node_alive,
  handle_update_node_space, handle_register_metadata_node, handle_deregister_metadata_node,
}
use distributed_fs.Fsm.Handlers.Files.{handle_create_file, handle_commit_file, handle_delete_file}
use distributed_fs.Fsm.Handlers.Chunks.{
  handle_commit_chunk, handle_evict_chunk_from_node, handle_mark_chunk_lost,
  handle_add_chunk_replica,
}
use distributed_fs.Fsm.Handlers.Jobs.{handle_create_repair_job, handle_update_repair_job}

-- The handler of a decoded command.
unfoldable pub apply_command : Command → MetadataFsm → MetadataFsm × Option FsmError
unfolding handle_register_node handle_deregister_node handle_mark_node_dead handle_mark_node_alive
    handle_update_node_space handle_register_metadata_node handle_deregister_metadata_node
    handle_create_file handle_commit_file handle_delete_file handle_commit_chunk
    handle_evict_chunk_from_node handle_mark_chunk_lost handle_add_chunk_replica
    handle_create_repair_job handle_update_repair_job
apply_command (register_node r) s = handle_register_node r s
apply_command (deregister_node r) s = handle_deregister_node r s
apply_command (mark_node_dead r) s = handle_mark_node_dead r s
apply_command (mark_node_alive r) s = handle_mark_node_alive r s
apply_command (update_node_space r) s = handle_update_node_space r s
apply_command (create_file r) s = handle_create_file r s
apply_command (commit_file r) s = handle_commit_file r s
apply_command (delete_file r) s = handle_delete_file r s
apply_command (commit_chunk r) s = handle_commit_chunk r s
apply_command (evict_chunk_from_node r) s = handle_evict_chunk_from_node r s
apply_command (mark_chunk_lost r) s = handle_mark_chunk_lost r s
apply_command (create_repair_job r) s = handle_create_repair_job r s
apply_command (update_repair_job r) s = handle_update_repair_job r s
apply_command (add_chunk_replica r) s = handle_add_chunk_replica r s
apply_command (register_metadata_node r) s = handle_register_metadata_node r s
apply_command (deregister_metadata_node r) s = handle_deregister_metadata_node r s

pub record Json (Bytes : Type 0) : Type 0 where
  pub marshal : MetadataCommand Bytes → Bytes
  pub marshal_payload : Command → Bytes
  pub unmarshal : Bytes → Result (MetadataCommand Bytes)
  pub register_node : Bytes → Result CommandRegisterNode
  pub deregister_node : Bytes → Result CommandDeregisterNode
  pub mark_node_dead : Bytes → Result CommandMarkNodeDead
  pub mark_node_alive : Bytes → Result CommandMarkNodeAlive
  pub update_node_space : Bytes → Result CommandUpdateNodeSpace
  pub create_file : Bytes → Result CommandCreateFile
  pub commit_file : Bytes → Result CommandCommitFile
  pub delete_file : Bytes → Result CommandDeleteFile
  pub commit_chunk : Bytes → Result CommandCommitChunk
  pub evict_chunk_from_node : Bytes → Result CommandEvictChunkFromNode
  pub mark_chunk_lost : Bytes → Result CommandMarkChunkLost
  pub create_repair_job : Bytes → Result CommandCreateRepairJob
  pub update_repair_job : Bytes → Result CommandUpdateRepairJob
  pub add_chunk_replica : Bytes → Result CommandAddChunkReplica
  pub register_metadata_node : Bytes → Result CommandRegisterMetadataNode
  pub deregister_metadata_node : Bytes → Result CommandDeregisterMetadataNode

-- What a decoder reads back is what the encoder was given.
pub record RoundTrips {Bytes : Type 0} (j : Json Bytes) : Type 0 where
  pub envelope : (c : MetadataCommand Bytes) → j.unmarshal (j.marshal c) ≡ ok c
  pub register_node_lem :
      (r : CommandRegisterNode)
      → j.register_node (j.marshal_payload (Command.register_node r)) ≡ ok r
  pub deregister_node_lem :
      (r : CommandDeregisterNode)
      → j.deregister_node (j.marshal_payload (Command.deregister_node r)) ≡ ok r
  pub mark_node_dead_lem :
      (r : CommandMarkNodeDead)
      → j.mark_node_dead (j.marshal_payload (Command.mark_node_dead r)) ≡ ok r
  pub mark_node_alive_lem :
      (r : CommandMarkNodeAlive)
      → j.mark_node_alive (j.marshal_payload (Command.mark_node_alive r)) ≡ ok r
  pub update_node_space_lem :
      (r : CommandUpdateNodeSpace)
      → j.update_node_space (j.marshal_payload (Command.update_node_space r)) ≡ ok r
  pub create_file_lem :
      (r : CommandCreateFile) → j.create_file (j.marshal_payload (Command.create_file r)) ≡ ok r
  pub commit_file_lem :
      (r : CommandCommitFile) → j.commit_file (j.marshal_payload (Command.commit_file r)) ≡ ok r
  pub delete_file_lem :
      (r : CommandDeleteFile) → j.delete_file (j.marshal_payload (Command.delete_file r)) ≡ ok r
  pub commit_chunk_lem :
      (r : CommandCommitChunk) → j.commit_chunk (j.marshal_payload (Command.commit_chunk r)) ≡ ok r
  pub evict_chunk_from_node_lem :
      (r : CommandEvictChunkFromNode)
      → j.evict_chunk_from_node (j.marshal_payload (Command.evict_chunk_from_node r)) ≡ ok r
  pub mark_chunk_lost_lem :
      (r : CommandMarkChunkLost)
      → j.mark_chunk_lost (j.marshal_payload (Command.mark_chunk_lost r)) ≡ ok r
  pub create_repair_job_lem :
      (r : CommandCreateRepairJob)
      → j.create_repair_job (j.marshal_payload (Command.create_repair_job r)) ≡ ok r
  pub update_repair_job_lem :
      (r : CommandUpdateRepairJob)
      → j.update_repair_job (j.marshal_payload (Command.update_repair_job r)) ≡ ok r
  pub add_chunk_replica_lem :
      (r : CommandAddChunkReplica)
      → j.add_chunk_replica (j.marshal_payload (Command.add_chunk_replica r)) ≡ ok r
  pub register_metadata_node_lem :
      (r : CommandRegisterMetadataNode)
      → j.register_metadata_node (j.marshal_payload (Command.register_metadata_node r)) ≡ ok r
  pub deregister_metadata_node_lem :
      (r : CommandDeregisterMetadataNode)
      → j.deregister_metadata_node (j.marshal_payload (Command.deregister_metadata_node r)) ≡ ok r

-- `if err := json.Unmarshal(...); err != nil { return err }`, and then the handler.
abbrev pub with_request :
    {A : Type 0} → Result A → (A → Command) → MetadataFsm → MetadataFsm × Option FsmError
with_request (err e) f s = (s, some e)
with_request (ok req) f s = apply_command (f req) s

unfoldable pub dispatch :
    {Bytes : Type 0}
    → Json Bytes
    → MetadataCmdType
    → Bytes
    → MetadataFsm
    → MetadataFsm × Option FsmError
dispatch j cmd_register_node p s = with_request (j.register_node p) register_node s
dispatch j cmd_deregister_node p s = with_request (j.deregister_node p) deregister_node s
dispatch j cmd_mark_node_dead p s = with_request (j.mark_node_dead p) mark_node_dead s
dispatch j cmd_mark_node_alive p s = with_request (j.mark_node_alive p) mark_node_alive s
dispatch j cmd_update_node_space p s = with_request (j.update_node_space p) update_node_space s
dispatch j cmd_create_file p s = with_request (j.create_file p) create_file s
dispatch j cmd_commit_file p s = with_request (j.commit_file p) commit_file s
dispatch j cmd_delete_file p s = with_request (j.delete_file p) delete_file s
dispatch j cmd_commit_chunk p s = with_request (j.commit_chunk p) commit_chunk s
dispatch j cmd_evict_chunk_from_node p s =
    with_request (j.evict_chunk_from_node p) evict_chunk_from_node s
dispatch j cmd_mark_chunk_lost p s = with_request (j.mark_chunk_lost p) mark_chunk_lost s
dispatch j cmd_create_repair_job p s = with_request (j.create_repair_job p) create_repair_job s
dispatch j cmd_update_repair_job p s = with_request (j.update_repair_job p) update_repair_job s
dispatch j cmd_add_chunk_replica p s = with_request (j.add_chunk_replica p) add_chunk_replica s
dispatch j cmd_register_metadata_node p s =
    with_request (j.register_metadata_node p) register_metadata_node s
dispatch j cmd_deregister_metadata_node p s =
    with_request (j.deregister_metadata_node p) deregister_metadata_node s
dispatch j (other n) p s = (s, some (new_error "unknown command type"))

unfoldable pub apply :
    {Bytes : Type 0} → Json Bytes → Bytes → MetadataFsm → MetadataFsm × Option FsmError
apply j data' s = elim (j.unmarshal data') [
  | err e ↦ (s, some e)
  | ok cmd ↦ dispatch j cmd.type cmd.payload s
]

-- The constant under which each command travels.
abbrev pub cmd_type : Command → MetadataCmdType
cmd_type (register_node _) = cmd_register_node
cmd_type (deregister_node _) = cmd_deregister_node
cmd_type (mark_node_dead _) = cmd_mark_node_dead
cmd_type (mark_node_alive _) = cmd_mark_node_alive
cmd_type (update_node_space _) = cmd_update_node_space
cmd_type (create_file _) = cmd_create_file
cmd_type (commit_file _) = cmd_commit_file
cmd_type (delete_file _) = cmd_delete_file
cmd_type (commit_chunk _) = cmd_commit_chunk
cmd_type (evict_chunk_from_node _) = cmd_evict_chunk_from_node
cmd_type (mark_chunk_lost _) = cmd_mark_chunk_lost
cmd_type (create_repair_job _) = cmd_create_repair_job
cmd_type (update_repair_job _) = cmd_update_repair_job
cmd_type (add_chunk_replica _) = cmd_add_chunk_replica
cmd_type (register_metadata_node _) = cmd_register_metadata_node
cmd_type (deregister_metadata_node _) = cmd_deregister_metadata_node

-- A command as a proposer encodes it.
unfoldable pub encode : {Bytes : Type 0} → Json Bytes → Command → Bytes
encode j c = j.marshal (record { type = cmd_type c; payload = j.marshal_payload c })

-- The log, entry after entry; the errors are dropped, as a follower drops them.
unfoldable pub replay : {Bytes : Type 0} → Json Bytes → List Bytes → MetadataFsm → MetadataFsm
replay j [] s = s
replay j (entry ∷ log) s = replay j log (apply j entry s).0
