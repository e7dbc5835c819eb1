-- ===== src/Fsm/Reads.antt =====
-- The scans of metadata/fsm/fsm.go. `range` over a map is the order of the registry.
use Prim.Native.Nat.{Ordering}
use Prim.Native.String.{compare}
use text.Mathlib.Text.{starts_with}
use distributed_fs.Common.{
  ℕ, String, List, [], ◌∷◌, Bool, true, false, ◌&&◌, ◌||◌, none, some, ◌==◌, contains, length,
  if◌then◌else◌,
}
use distributed_fs.Common.Registry.{Registry, lookup, values}
use distributed_fs.Fsm.Types.{
  FileRecord, ChunkRecord, NodeEntry, NodeStatus, RepairJob, RepairStatus,
}
use distributed_fs.Fsm.State.{
  MetadataFsm, Result, ok, err, err_file_not_found, err_chunk_not_found, get_file, get_chunk,
}

unfoldable pub find_by_name : String → List FileRecord → Result FileRecord
find_by_name filename [] = err err_file_not_found
find_by_name filename (file ∷ files) =
    let rest = find_by_name filename files in if file.filename == filename then ok file else rest

unfoldable pub get_file_by_name : MetadataFsm → String → Result FileRecord
unfolding find_by_name
get_file_by_name s filename = find_by_name filename (values s.file_index)

-- `a < b` on Go strings, byte by byte.
abbrev pub string_lt : String → String → Bool
string_lt a b = elim (compare a b) [ Ordering.lt ↦ true | _ ↦ false ]

-- `sort.Slice` by file name. Files of one name may stand in another order than in Go.
unfoldable pub insert_by_name : FileRecord → List FileRecord → List FileRecord
insert_by_name f [] = f ∷ []
insert_by_name f (g ∷ gs) =
    let rest = insert_by_name f gs in
    if string_lt g.filename f.filename then g ∷ rest else f ∷ g ∷ gs

unfoldable pub sort_by_name : List FileRecord → List FileRecord
sort_by_name [] = []
sort_by_name (f ∷ fs) = insert_by_name f (sort_by_name fs)

unfoldable pub with_prefix : String → List FileRecord → List FileRecord
with_prefix prefix [] = []
with_prefix prefix (f ∷ fs) =
    let rest = with_prefix prefix fs in if starts_with f.filename prefix then f ∷ rest else rest

unfoldable pub list_files : MetadataFsm → String → List FileRecord
list_files s prefix = sort_by_name (with_prefix prefix (values s.file_index))

unfoldable pub collect_chunks : Registry ChunkRecord → List String → Result (List ChunkRecord)
collect_chunks reg [] = ok []
collect_chunks reg (cid ∷ cids) =
    let rest = collect_chunks reg cids in
    elim (lookup cid reg) [
      | none ↦ err err_chunk_not_found
      | some ck ↦ elim rest [ ok cks ↦ ok (ck ∷ cks) | err e ↦ err e ]
    ]

unfoldable pub get_file_chunks : MetadataFsm → String → Result (List ChunkRecord)
get_file_chunks s file_id = elim (get_file s file_id) [
  | err e ↦ err e
  | ok file ↦ collect_chunks s.chunk_registry file.chunk_ids
]

abbrev pub is_dead : NodeStatus → Bool
is_dead NodeStatus.dead = true
is_dead _ = false

abbrev pub is_alive : NodeStatus → Bool
is_alive NodeStatus.alive = true
is_alive _ = false

unfoldable pub locate : Registry NodeEntry → List String → List NodeEntry
locate reg [] = []
locate reg (id ∷ ids) =
    let rest = locate reg ids in
    elim (lookup id reg) [
      | none ↦ rest
      | some node ↦ if is_dead node.status then rest else node ∷ rest
    ]

unfoldable pub get_chunk_locations : MetadataFsm → String → Result (List NodeEntry)
get_chunk_locations s chunk_id = elim (get_chunk s chunk_id) [
  | err e ↦ err e
  | ok chunk ↦ ok (locate s.node_registry chunk.replicas)
]

unfoldable pub chunks_on : String → List ChunkRecord → List String
chunks_on node_id [] = []
chunks_on node_id (ck ∷ cks) =
    let rest = chunks_on node_id cks in
    if contains ck.replicas node_id then ck.chunk_id ∷ rest else rest

unfoldable pub get_chunks_by_node : MetadataFsm → String → List String
get_chunks_by_node s node_id = chunks_on node_id (values s.chunk_registry)

unfoldable pub live : List NodeEntry → List NodeEntry
live [] = []
live (n ∷ ns) = let rest = live ns in if is_alive n.status then n ∷ rest else rest

unfoldable pub get_live_nodes : MetadataFsm → List NodeEntry
get_live_nodes s = live (values s.node_registry)

unfoldable pub get_node_count : MetadataFsm → ℕ
get_node_count s = length s.node_registry

unfoldable pub get_all_nodes : MetadataFsm → List NodeEntry
get_all_nodes s = values s.node_registry

abbrev pub same_status : RepairStatus → RepairStatus → Bool
same_status RepairStatus.pending RepairStatus.pending = true
same_status RepairStatus.in_progress RepairStatus.in_progress = true
same_status RepairStatus.done RepairStatus.done = true
same_status RepairStatus.failed RepairStatus.failed = true
same_status _ _ = false

unfoldable pub jobs_of_status : RepairStatus → List RepairJob → List RepairJob
jobs_of_status st [] = []
jobs_of_status st (j ∷ js) =
    let rest = jobs_of_status st js in if same_status j.status st then j ∷ rest else rest

unfoldable pub get_jobs_by_status : MetadataFsm → RepairStatus → List RepairJob
get_jobs_by_status s st = jobs_of_status st (values s.repair_job_registry)

unfoldable pub pending_jobs_of : String → List RepairJob → List RepairJob
pending_jobs_of node_id [] = []
pending_jobs_of node_id (j ∷ js) =
    let rest = pending_jobs_of node_id js in
    if same_status j.status RepairStatus.pending && j.source_node_id == node_id
    then j ∷ rest
    else rest

unfoldable pub get_pending_jobs_for_node : MetadataFsm → String → List RepairJob
get_pending_jobs_for_node s node_id = pending_jobs_of node_id (values s.repair_job_registry)

-- The test of `HasActiveRepairForChunkTarget`.
abbrev pub is_active_for : String → String → RepairJob → Bool
is_active_for chunk_id target j =
    j.chunk_id == chunk_id
    && j.target_node_id == target
    && (same_status j.status RepairStatus.pending || same_status j.status RepairStatus.in_progress)

unfoldable pub any_active : String → String → List RepairJob → Bool
any_active chunk_id target [] = false
any_active chunk_id target (j ∷ js) =
    is_active_for chunk_id target j || any_active chunk_id target js

unfoldable pub has_active_repair_for_chunk_target : MetadataFsm → String → String → Bool
has_active_repair_for_chunk_target s chunk_id target =
    any_active chunk_id target (values s.repair_job_registry)
