-- ===== src/Fsm/Commands.antt =====
-- metadata/fsm/commands.go: the commands of the Raft log.
use distributed_fs.Common.{ℕ, String, Bool, List}
use distributed_fs.Fsm.Types.{RepairStatus}

-- The values of `iota`, in order; `other` stands for an integer with no constant.
pub data MetadataCmdType : Type 0 where
  cmd_register_node cmd_deregister_node cmd_mark_node_dead cmd_mark_node_alive : MetadataCmdType
  cmd_update_node_space cmd_create_file cmd_commit_file cmd_delete_file : MetadataCmdType
  cmd_commit_chunk cmd_evict_chunk_from_node cmd_mark_chunk_lost : MetadataCmdType
  cmd_create_repair_job cmd_update_repair_job cmd_add_chunk_replica : MetadataCmdType
  cmd_register_metadata_node cmd_deregister_metadata_node : MetadataCmdType
  other : ℕ → MetadataCmdType

-- The envelope of a log entry. `Bytes` is what encoding/json makes and reads.
pub record MetadataCommand (Bytes : Type 0) : Type 0 where
  pub type : MetadataCmdType
  pub payload : Bytes

pub record CommandRegisterNode : Type 0 where
  pub node_id : String
  pub address : String
  pub free_space : ℕ
  pub chunk_count : ℕ
  pub created_at : ℕ

pub record CommandDeregisterNode : Type 0 where
  pub node_id : String
  pub updated_at : ℕ

pub record CommandMarkNodeDead : Type 0 where
  pub node_id : String
  pub updated_at : ℕ

pub record CommandMarkNodeAlive : Type 0 where
  pub node_id : String
  pub updated_at : ℕ

pub record CommandUpdateNodeSpace : Type 0 where
  pub node_id : String
  pub free_space : ℕ
  pub chunk_count : ℕ
  pub updated_at : ℕ

pub record CommandCreateFile : Type 0 where
  pub file_id : String
  pub file_name : String
  pub chunk_ids : List String
  pub file_size : ℕ
  pub chunk_size : ℕ
  pub checksum : List ℕ
  pub created_at : ℕ

pub record CommandCommitFile : Type 0 where
  pub file_id : String
  pub file_size : ℕ
  pub checksum : List ℕ

pub record CommandDeleteFile : Type 0 where
  pub file_id : String

pub record CommandCommitChunk : Type 0 where
  pub chunk_id : String
  pub node_ids : List String
  pub checksum : List ℕ

pub record CommandEvictChunkFromNode : Type 0 where
  pub chunk_id : String
  pub node_id : String
  pub evicted_at : ℕ
  pub reason : String

pub record CommandMarkChunkLost : Type 0 where
  pub chunk_id : String

pub record CommandCreateRepairJob : Type 0 where
  pub job_id : String
  pub created_at : ℕ
  pub chunk_id : String
  pub delete_source : Bool
  pub source_node : String
  pub target_node : String

pub record CommandUpdateRepairJob : Type 0 where
  pub job_id : String
  pub status : RepairStatus
  pub source_node : String
  pub updated_at : ℕ
  pub attempts : ℕ
  pub error : String

pub record CommandAddChunkReplica : Type 0 where
  pub chunk_id : String
  pub node_id : String

pub record CommandRegisterMetadataNode : Type 0 where
  pub node_id : String
  pub raft_addr : String
  pub grpc_addr : String

pub record CommandDeregisterMetadataNode : Type 0 where
  pub node_id : String
  pub raft_addr : String

-- A command with its payload decoded.
pub data Command : Type 0 where
  register_node : CommandRegisterNode → Command
  deregister_node : CommandDeregisterNode → Command
  mark_node_dead : CommandMarkNodeDead → Command
  mark_node_alive : CommandMarkNodeAlive → Command
  update_node_space : CommandUpdateNodeSpace → Command
  create_file : CommandCreateFile → Command
  commit_file : CommandCommitFile → Command
  delete_file : CommandDeleteFile → Command
  commit_chunk : CommandCommitChunk → Command
  evict_chunk_from_node : CommandEvictChunkFromNode → Command
  mark_chunk_lost : CommandMarkChunkLost → Command
  create_repair_job : CommandCreateRepairJob → Command
  update_repair_job : CommandUpdateRepairJob → Command
  add_chunk_replica : CommandAddChunkReplica → Command
  register_metadata_node : CommandRegisterMetadataNode → Command
  deregister_metadata_node : CommandDeregisterMetadataNode → Command
