-- ===== src/Tests/Wire.antt =====
-- An encoding whose decoders read back what was encoded.
use distributed_fs.Common.{refl}
use distributed_fs.Fsm.Commands.{
  MetadataCmdType, MetadataCommand, Command, CommandRegisterNode, CommandDeregisterNode,
  CommandMarkNodeDead, CommandMarkNodeAlive, CommandUpdateNodeSpace, CommandCreateFile,
  CommandCommitFile, CommandDeleteFile, CommandCommitChunk, CommandEvictChunkFromNode,
  CommandMarkChunkLost, CommandCreateRepairJob, CommandUpdateRepairJob, CommandAddChunkReplica,
  CommandRegisterMetadataNode, CommandDeregisterMetadataNode,
}
use distributed_fs.Fsm.State.{Result, ok, err, new_error}
use distributed_fs.Fsm.Apply.{Json, RoundTrips}

pub data Wire : Type 0 where
  body : Command → Wire
  envelope : MetadataCmdType → Wire → Wire
  junk : Wire

abbrev unmarshal : Wire → Result (MetadataCommand Wire)
unmarshal (envelope t p) = ok (record { type = t; payload = p })
unmarshal _ = err (new_error "json")

abbrev read_register_node : Wire → Result CommandRegisterNode
read_register_node (body (Command.register_node r)) = ok r
read_register_node _ = err (new_error "json")

abbrev read_deregister_node : Wire → Result CommandDeregisterNode
read_deregister_node (body (Command.deregister_node r)) = ok r
read_deregister_node _ = err (new_error "json")

abbrev read_mark_node_dead : Wire → Result CommandMarkNodeDead
read_mark_node_dead (body (Command.mark_node_dead r)) = ok r
read_mark_node_dead _ = err (new_error "json")

abbrev read_mark_node_alive : Wire → Result CommandMarkNodeAlive
read_mark_node_alive (body (Command.mark_node_alive r)) = ok r
read_mark_node_alive _ = err (new_error "json")

abbrev read_update_node_space : Wire → Result CommandUpdateNodeSpace
read_update_node_space (body (Command.update_node_space r)) = ok r
read_update_node_space _ = err (new_error "json")

abbrev read_create_file : Wire → Result CommandCreateFile
read_create_file (body (Command.create_file r)) = ok r
read_create_file _ = err (new_error "json")

abbrev read_commit_file : Wire → Result CommandCommitFile
read_commit_file (body (Command.commit_file r)) = ok r
read_commit_file _ = err (new_error "json")

abbrev read_delete_file : Wire → Result CommandDeleteFile
read_delete_file (body (Command.delete_file r)) = ok r
read_delete_file _ = err (new_error "json")

abbrev read_commit_chunk : Wire → Result CommandCommitChunk
read_commit_chunk (body (Command.commit_chunk r)) = ok r
read_commit_chunk _ = err (new_error "json")

abbrev read_evict_chunk_from_node : Wire → Result CommandEvictChunkFromNode
read_evict_chunk_from_node (body (Command.evict_chunk_from_node r)) = ok r
read_evict_chunk_from_node _ = err (new_error "json")

abbrev read_mark_chunk_lost : Wire → Result CommandMarkChunkLost
read_mark_chunk_lost (body (Command.mark_chunk_lost r)) = ok r
read_mark_chunk_lost _ = err (new_error "json")

abbrev read_create_repair_job : Wire → Result CommandCreateRepairJob
read_create_repair_job (body (Command.create_repair_job r)) = ok r
read_create_repair_job _ = err (new_error "json")

abbrev read_update_repair_job : Wire → Result CommandUpdateRepairJob
read_update_repair_job (body (Command.update_repair_job r)) = ok r
read_update_repair_job _ = err (new_error "json")

abbrev read_add_chunk_replica : Wire → Result CommandAddChunkReplica
read_add_chunk_replica (body (Command.add_chunk_replica r)) = ok r
read_add_chunk_replica _ = err (new_error "json")

abbrev read_register_metadata_node : Wire → Result CommandRegisterMetadataNode
read_register_metadata_node (body (Command.register_metadata_node r)) = ok r
read_register_metadata_node _ = err (new_error "json")

abbrev read_deregister_metadata_node : Wire → Result CommandDeregisterMetadataNode
read_deregister_metadata_node (body (Command.deregister_metadata_node r)) = ok r
read_deregister_metadata_node _ = err (new_error "json")

abbrev pub wire_json : Json Wire
wire_json = record {
  marshal = λ c. envelope c.type c.payload;
  marshal_payload = body;
  unmarshal = unmarshal;
  register_node = read_register_node;
  deregister_node = read_deregister_node;
  mark_node_dead = read_mark_node_dead;
  mark_node_alive = read_mark_node_alive;
  update_node_space = read_update_node_space;
  create_file = read_create_file;
  commit_file = read_commit_file;
  delete_file = read_delete_file;
  commit_chunk = read_commit_chunk;
  evict_chunk_from_node = read_evict_chunk_from_node;
  mark_chunk_lost = read_mark_chunk_lost;
  create_repair_job = read_create_repair_job;
  update_repair_job = read_update_repair_job;
  add_chunk_replica = read_add_chunk_replica;
  register_metadata_node = read_register_metadata_node;
  deregister_metadata_node = read_deregister_metadata_node;
}

pub wire_json-RoundTrips : RoundTrips wire_json
wire_json-RoundTrips = record {
  envelope = λ c. refl;
  register_node_lem = λ r. refl;
  deregister_node_lem = λ r. refl;
  mark_node_dead_lem = λ r. refl;
  mark_node_alive_lem = λ r. refl;
  update_node_space_lem = λ r. refl;
  create_file_lem = λ r. refl;
  commit_file_lem = λ r. refl;
  delete_file_lem = λ r. refl;
  commit_chunk_lem = λ r. refl;
  evict_chunk_from_node_lem = λ r. refl;
  mark_chunk_lost_lem = λ r. refl;
  create_repair_job_lem = λ r. refl;
  update_repair_job_lem = λ r. refl;
  add_chunk_replica_lem = λ r. refl;
  register_metadata_node_lem = λ r. refl;
  deregister_metadata_node_lem = λ r. refl;
}
