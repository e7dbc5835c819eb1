-- ===== src/Fsm/Types.antt =====
-- metadata/fsm/types.go: the records that the registries hold. A `time.Time` is a number, whose
-- zero is the zero time; `[]byte` is a list of numbers.
use distributed_fs.Common.{ℕ, String, Bool, List}

pub data FileStatus : Type 0 where
  creating complete deleted : FileStatus

pub data ChunkStatus : Type 0 where
  allocated complete lost : ChunkStatus

pub data NodeStatus : Type 0 where
  alive suspect dead draining : NodeStatus
  -- the zero value of the type, the empty string
  unset : NodeStatus

pub data RepairStatus : Type 0 where
  pending in_progress done failed : RepairStatus

pub record FileRecord : Type 0 where
  pub file_id : String
  pub filename : String
  pub file_size : ℕ
  pub chunk_size : ℕ
  pub checksum : List ℕ
  pub chunk_ids : List String
  pub status : FileStatus
  pub created_at : ℕ
  pub updated_at : ℕ

pub record ChunkRecord : Type 0 where
  pub chunk_id : String
  pub file_id : String
  pub chunk_index : ℕ
  pub size : ℕ
  pub checksum : List ℕ
  pub replicas : List String
  pub status : ChunkStatus
  pub version : ℕ

pub record NodeEntry : Type 0 where
  pub node_id : String
  pub address : String
  pub status : NodeStatus
  pub free_space : ℕ
  pub chunk_count : ℕ
  pub last_seen : ℕ
  pub registered_at : ℕ
  pub updated_at : ℕ

pub record RepairJob : Type 0 where
  pub job_id : String
  pub chunk_id : String
  pub error : String
  pub delete_source : Bool
  pub source_node_id : String
  pub target_node_id : String
  pub status : RepairStatus
  pub attempts : ℕ
  pub created_at : ℕ
  pub updated_at : ℕ

pub record MetadataNodeEntry : Type 0 where
  pub node_id : String
  pub raft_addr : String
  pub grpc_addr : String
