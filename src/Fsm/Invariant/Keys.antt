-- ===== src/Fsm/Invariant/Keys.antt =====
-- Every record stands in its registry once, under the identifier that it carries.
use distributed_fs.Common.{String, List, [], ◌∷◌, ◌≡◌, refl, some, arith}
use distributed_fs.Common.Registry.{
  Registry, lookup, insert, delete, lookup-insert, lookup-delete, HasUniqueKeys,
  insert-HasUniqueKeys, delete-HasUniqueKeys,
}
use distributed_fs.Fsm.Types.{FileRecord, ChunkRecord, NodeEntry, RepairJob, MetadataNodeEntry}
use distributed_fs.Fsm.Commands.{
  Command, register_node, create_file, create_repair_job, register_metadata_node,
}
use distributed_fs.Fsm.State.{MetadataFsm}
use distributed_fs.Fsm.Handlers.Files.{insert_all}
use distributed_fs.Fsm.Apply.{apply_command}

module _ {V : Type 0} (key : V → String) where
  pub record IsTable (m : Registry V) : Type 0 where
    pub keyed : (k : String) (v : V) → lookup k m ≡ some v → key v ≡ k
    pub unique : HasUniqueKeys m

  pub insert-IsTable :
      (k : String) (v : V) (m : Registry V) → key v ≡ k → IsTable m → IsTable (insert k v m)
  insert-IsTable k v m e h = record {
    keyed = λ j w. ground (arith, lookup-insert k v m j, h.keyed j w);
    unique = insert-HasUniqueKeys k v m h.unique;
  }

  delete-IsTable : (k : String) (m : Registry V) → IsTable m → IsTable (delete k m)
  delete-IsTable k m h = record {
    keyed = λ j w. ground (arith, lookup-delete k m j, h.keyed j w);
    unique = delete-HasUniqueKeys k m h.unique;
  }

abbrev pub file_key : FileRecord → String
file_key f = f.file_id

abbrev pub chunk_key : ChunkRecord → String
chunk_key c = c.chunk_id

abbrev pub node_key : NodeEntry → String
node_key n = n.node_id

abbrev pub job_key : RepairJob → String
job_key j = j.job_id

abbrev pub md_node_key : MetadataNodeEntry → String
md_node_key n = n.raft_addr

insert_all-IsTable :
    (vals : List ChunkRecord) (m : Registry ChunkRecord)
    → IsTable chunk_key m
    → IsTable chunk_key (insert_all vals m)
unfolding insert_all
insert_all-IsTable [] m h = h
insert_all-IsTable (v ∷ vals) m h =
    insert_all-IsTable vals (insert v.chunk_id v m) (insert-IsTable chunk_key v.chunk_id v m refl h)

pub record KeysMatch (s : MetadataFsm) : Type 0 where
  pub files : IsTable file_key s.file_index
  pub chunks : IsTable chunk_key s.chunk_registry
  pub nodes : IsTable node_key s.node_registry
  pub jobs : IsTable job_key s.repair_job_registry
  pub md_nodes : IsTable md_node_key s.md_node_registry

module _ (s : MetadataFsm) where
  keyed_files :
      (c : Command)
      → IsTable file_key s.file_index
      → IsTable file_key (apply_command c s).0.file_index
  unfolding apply_command
  keyed_files (create_file r) h = grind (arith, insert-IsTable file_key, h.keyed)
  keyed_files _ h = grind (arith, insert-IsTable file_key, h.keyed)

  keyed_nodes :
      (c : Command)
      → IsTable node_key s.node_registry
      → IsTable node_key (apply_command c s).0.node_registry
  unfolding apply_command
  keyed_nodes (register_node r) h = grind (arith, insert-IsTable node_key, h.keyed)
  keyed_nodes _ h = grind (arith, insert-IsTable node_key, h.keyed)

  keyed_chunks :
      (c : Command)
      → IsTable chunk_key s.chunk_registry
      → IsTable chunk_key (apply_command c s).0.chunk_registry
  unfolding apply_command
  keyed_chunks (create_file r) h = grind (arith, insert_all-IsTable)
  keyed_chunks _ h = grind (arith, insert-IsTable chunk_key, h.keyed)

  keyed_jobs :
      (c : Command)
      → IsTable job_key s.repair_job_registry
      → IsTable job_key (apply_command c s).0.repair_job_registry
  unfolding apply_command
  keyed_jobs (create_repair_job r) h = grind (arith, insert-IsTable job_key, h.keyed)
  keyed_jobs _ h = grind (arith, insert-IsTable job_key, h.keyed)

  keyed_md_nodes :
      (c : Command)
      → IsTable md_node_key s.md_node_registry
      → IsTable md_node_key (apply_command c s).0.md_node_registry
  unfolding apply_command
  keyed_md_nodes (register_metadata_node r) h = insert-IsTable md_node_key _ _ _ refl h
  keyed_md_nodes _ h = grind (arith, delete-IsTable md_node_key)

pub apply_command-KeysMatch :
    (c : Command) (s : MetadataFsm) → KeysMatch s → KeysMatch (apply_command c s).0
apply_command-KeysMatch c s h = record {
  files = keyed_files s c h.files;
  chunks = keyed_chunks s c h.chunks;
  nodes = keyed_nodes s c h.nodes;
  jobs = keyed_jobs s c h.jobs;
  md_nodes = keyed_md_nodes s c h.md_nodes;
}
