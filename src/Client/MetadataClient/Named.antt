-- ===== src/Client/MetadataClient/Named.antt =====
-- Which file a name stands for.
use Prim.Native.String.append
use text.Mathlib.Text.{starts_with}
use text.Mathlib.TextEquality.{starts_with_iff}
use text.Mathlib.TextPositions.{compare_refl}
use distributed_fs.Common.{
  String, true, List, [], ◌∷◌, ◌≡◌, Option, none, some, ◌==◌, if◌then◌else◌, arith,
}
use distributed_fs.Common.Registry.{values}
use distributed_fs.Fsm.Types.{FileRecord, FileStatus}
use distributed_fs.Fsm.Reads.{list_files, with_prefix, sort_by_name, insert_by_name}
use distributed_fs.Server.{HandlerDeps, Service, on_leader, reply}
use distributed_fs.Server.Files.{
  serve_create_file, serve_get_file, serve_delete_file, serve_list_files, serve_commit_file,
  available,
}
use distributed_fs.Server.Chunks.{serve_commit_chunk, serve_get_chunk_locations}
use distributed_fs.Client.MetadataClient.{
  Stub, proto_to_file_info, filtered, find_named, client_list_files, client_get_file,
  client_get_file_by_name,
}

-- The calls, answered by the handlers of one node.
abbrev pub at_node : HandlerDeps → Stub Service
at_node d = record {
  create_file = serve_create_file d;
  get_file = serve_get_file d;
  list_files = serve_list_files d;
  delete_file = serve_delete_file d;
  commit_file = serve_commit_file d;
  commit_chunk = serve_commit_chunk d;
  get_chunk_locations = serve_get_chunk_locations d;
}

-- The first file of a list with a name.
abbrev pub first_named : String → List FileRecord → Option FileRecord
first_named name [] = none
first_named name (f ∷ fs) = if f.filename == name then some f else first_named name fs

find_named-first :
    (name : String) (fs : List FileRecord) (f : FileRecord)
    → first_named name fs ≡ some f
    → find_named name (filtered "" fs) ≡ some (proto_to_file_info f)
unfolding find_named filtered proto_to_file_info
find_named-first name [] f h = cc
find_named-first name (g ∷ fs) f h = ground (arith, h, find_named-first name fs f)

starts_with_empty : (s : String) → starts_with s "" ≡ true
starts_with_empty s = (starts_with_iff s "").1 (s, append.nil s)

-- Two complete files of one name.
abbrev pub IsAmbiguous : String → FileRecord → FileRecord → Type 0
IsAmbiguous name a b =
    (a.filename ≡ name)
    × (b.filename ≡ name)
    × (a.status ≡ FileStatus.complete)
    × (b.status ≡ FileStatus.complete)

-- The files that a leader lists, when its map holds these two.
listed_two :
    (d : HandlerDeps) (v : Service) (name : String) (a b : FileRecord)
    → d.is_leader ≡ true
    → IsAmbiguous name a b
    → v.world.fsm.file_index ≡ (a.file_id, a) ∷ (b.file_id, b) ∷ []
    → serve_list_files d v ≡ (v, reply (a ∷ b ∷ []))
unfolding serve_list_files on_leader list_files available values with_prefix sort_by_name
    insert_by_name
listed_two d v name a b l (na, nb, ca, cb) e = ground (
  arith,
  l,
  na,
  nb,
  ca,
  cb,
  e,
  starts_with_empty a.filename,
  starts_with_empty b.filename,
  compare_refl name,
)

-- When the map of a leader holds exactly two files, both complete and of one name, `GetFileByName` gives
-- the one that the map gives first: which one depends on the order of `range`, given that the sort by
-- name leaves two files of one name as they were.
pub client_get_file_by_name-order :
    (d : HandlerDeps) (v v' : Service) (name : String) (a b : FileRecord)
    → d.is_leader ≡ true
    → IsAmbiguous name a b
    → v.world.fsm.file_index ≡ (a.file_id, a) ∷ (b.file_id, b) ∷ []
    → v'.world.fsm.file_index ≡ (b.file_id, b) ∷ (a.file_id, a) ∷ []
    → (client_get_file_by_name (at_node d) name v ≡ client_get_file (at_node d) a.file_id v)
      × (client_get_file_by_name (at_node d) name v' ≡ client_get_file (at_node d) b.file_id v')
unfolding client_get_file_by_name client_list_files proto_to_file_info
client_get_file_by_name-order d v v' name a b l (na, nb, ca, cb) e e' =
    let first = listed_two d v name a b l (na, nb, ca, cb) e in
    let second = listed_two d v' name b a l (nb, na, cb, ca) e' in
    (
      ground (arith, first, find_named-first name (a ∷ b ∷ []) a (ground (arith, na))),
      ground (arith, second, find_named-first name (b ∷ a ∷ []) b (ground (arith, nb))),
    )
