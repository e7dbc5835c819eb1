-- ===== src/Fsm/State.antt =====
-- metadata/fsm/fsm.go: the five registries, the errors, and the lookups by key. A pointer that a
-- lookup returns is the entry at its key; a handler that writes through it inserts at that key.
-- The mutexes are left out: a handler runs alone.
use distributed_fs.Common.{String, Option, none, some, []}
use distributed_fs.Common.Registry.{Registry, lookup}
use distributed_fs.Fsm.Types.{FileRecord, ChunkRecord, NodeEntry, RepairJob, MetadataNodeEntry}

pub record MetadataFsm : Type 0 where
  pub file_index : Registry FileRecord
  pub chunk_registry : Registry ChunkRecord
  pub node_registry : Registry NodeEntry
  pub repair_job_registry : Registry RepairJob
  pub md_node_registry : Registry MetadataNodeEntry

-- The sentinels, `errors.New` and `errors.Join`.
pub data FsmError : Type 0 where
  err_node_not_found err_file_not_found err_chunk_not_found : FsmError
  err_job_not_found err_metadata_node_not_found : FsmError
  new_error : String → FsmError
  join : String → FsmError → FsmError

pub data Result {ℓ} (A : Type ℓ) : Type ℓ where
  ok : A → Result A
  err : FsmError → Result A

abbrev pub ok_or {ℓ} : {A : Type ℓ} → FsmError → Option A → Result A
ok_or e none = err e
ok_or e (some a) = ok a

abbrev pub new_empty_metadata_fsm : MetadataFsm
new_empty_metadata_fsm = record {
  file_index = [];
  chunk_registry = [];
  node_registry = [];
  repair_job_registry = [];
  md_node_registry = [];
}

abbrev pub get_file : MetadataFsm → String → Result FileRecord
get_file s id = ok_or err_file_not_found (lookup id s.file_index)

abbrev pub get_chunk : MetadataFsm → String → Result ChunkRecord
get_chunk s id = ok_or err_chunk_not_found (lookup id s.chunk_registry)

abbrev pub get_node : MetadataFsm → String → Result NodeEntry
get_node s id = ok_or err_node_not_found (lookup id s.node_registry)

abbrev pub get_metadata_node_by_raft_addr : MetadataFsm → String → Result MetadataNodeEntry
get_metadata_node_by_raft_addr s addr =
    ok_or err_metadata_node_not_found (lookup addr s.md_node_registry)

abbrev pub get_repair_job : MetadataFsm → String → Result RepairJob
get_repair_job s id = ok_or err_job_not_found (lookup id s.repair_job_registry)
