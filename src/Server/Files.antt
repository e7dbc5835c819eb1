-- ===== src/Server/Files.antt =====
-- metadata/server/file_handler.go.
use distributed_fs.Common.{
  ℕ, ◌*◌, String, Bool, true, false, List, [], ◌∷◌, Option, none, some, ◌==◌, ltb, if◌then◌else◌,
}
use distributed_fs.Fsm.Types.{
  FileRecord, FileStatus, ChunkRecord, ChunkStatus, NodeEntry, NodeStatus,
}
use distributed_fs.Fsm.Commands.{create_file, commit_file, delete_file, CommandCommitFile}
use distributed_fs.Fsm.State.{MetadataFsm, ok, err, get_file, get_node}
use distributed_fs.Fsm.Reads.{get_file_chunks, get_live_nodes, list_files}
use distributed_fs.Placement.Strategy.{PlacementStrategy}
use distributed_fs.Server.{
  HandlerDeps, Handler, reply, status, internal, not_found, already_exists, invalid_argument,
  on_leader, proposing,
}

pub record CreateFileRequest : Type 0 where
  pub file_id : String
  pub file_name : String
  pub file_size : ℕ
  pub chunk_size : ℕ
  pub chunk_ids : List String

pub record NodeInfo : Type 0 where
  pub node_id : String
  pub address : String
  pub free_space : ℕ

pub record ChunkPlacement : Type 0 where
  pub chunk_id : String
  pub primary : NodeInfo
  pub replicas : List NodeInfo

pub record CreateFileResponse : Type 0 where
  pub file_id : String
  pub placements : List ChunkPlacement

pub record ChunkInfo : Type 0 where
  pub chunk_id : String
  pub file_id : String
  pub chunk_index : ℕ
  pub size : ℕ
  pub checksum : List ℕ
  pub replicas : List String
  pub status : ChunkStatus

pub record GetFileResponse : Type 0 where
  pub file : FileRecord
  pub chunks : List ChunkInfo

abbrev pub min_chunk_size : ℕ
min_chunk_size = 64 * 1024

abbrev pub max_chunk_size : ℕ
max_chunk_size = 64 * 1024 * 1024

abbrev pub info_of : NodeEntry → NodeInfo
info_of v = record { node_id = v.node_id; address = v.address; free_space = v.free_space }

unfoldable pub transform : List NodeEntry → List NodeInfo
transform [] = []
transform (v ∷ vs) = info_of v ∷ transform vs

-- One round of the placement loop; `none` is its internal error.
abbrev pub place : PlacementStrategy → List NodeEntry → ℕ → ℕ → String → Option ChunkPlacement
place strategy alive chunk_size rf v =
    let out = strategy.select_nodes alive chunk_size rf [] in
    elim (out.1) [
      | some _ ↦ none
      | none ↦ elim (out.0) [
        | [] ↦ none
        | p ∷ ps ↦ some (record { chunk_id = v; primary = info_of p; replicas = transform ps })
      ]
    ]

unfoldable pub place_all :
    PlacementStrategy → List NodeEntry → ℕ → ℕ → List String → Option (List ChunkPlacement)
place_all strategy alive chunk_size rf [] = some []
place_all strategy alive chunk_size rf (v ∷ vs) =
    let rest = place_all strategy alive chunk_size rf vs in
    elim (place strategy alive chunk_size rf v) [
      | none ↦ none
      | some p ↦ elim rest [ none ↦ none | some ps ↦ some (p ∷ ps) ]
    ]

-- The addresses of the replicas of a chunk that a client may read from.
unfoldable pub resolved_addrs : MetadataFsm → List String → List String
resolved_addrs s [] = []
resolved_addrs s (rep ∷ reps) =
    let rest = resolved_addrs s reps in
    elim (get_node s rep) [
      | err _ ↦ rest
      | ok node ↦ elim (node.status) [
        | NodeStatus.dead ↦ rest
        | NodeStatus.draining ↦ rest
        | _ ↦ if node.address == "" then rest else node.address ∷ rest
      ]
    ]

unfoldable pub chunk_infos : MetadataFsm → List ChunkRecord → List ChunkInfo
chunk_infos s [] = []
chunk_infos s (ck ∷ cks) =
    let info : ChunkInfo = record {
      chunk_id = ck.chunk_id;
      file_id = ck.file_id;
      chunk_index = ck.chunk_index;
      size = ck.size;
      checksum = ck.checksum;
      replicas = resolved_addrs s ck.replicas;
      status = ck.status;
    } in
    info ∷ chunk_infos s cks

abbrev pub is_available : FileStatus → Bool
is_available FileStatus.complete = true
is_available _ = false

unfoldable pub available : List FileRecord → List FileRecord
available [] = []
available (f ∷ fs) = let rest = available fs in if is_available f.status then f ∷ rest else rest

module _ (d : HandlerDeps) where
  unfoldable pub serve_create_file : CreateFileRequest → Handler CreateFileResponse
  serve_create_file req = on_leader d (λ v.
      let file_id = if req.file_id == "" then d.new_file_id else req.file_id in
      elim (get_file v.world.fsm file_id) [
        | ok _ ↦ (v, status already_exists none)
        | err _ ↦
            if ltb req.chunk_size min_chunk_size
            then (v, status invalid_argument none)
            else if ltb max_chunk_size req.chunk_size
            then (v, status invalid_argument none)
            else elim (place_all d.target_placement (get_live_nodes v.world.fsm) req.chunk_size
                d.replication_factor req.chunk_ids) [
                  | none ↦ (v, status internal none)
                  | some placements ↦
                      proposing d
                        (create_file (record {
                          file_id = file_id;
                          file_name = req.file_name;
                          chunk_ids = req.chunk_ids;
                          file_size = req.file_size;
                          chunk_size = req.chunk_size;
                          checksum = [];
                          created_at = d.env.now;
                        }))
                        (λ v'. (v', reply (record { file_id = file_id; placements = placements })))
                        v
                ]
      ])

  unfoldable pub serve_get_file : String → Handler GetFileResponse
  serve_get_file file_id = on_leader d (λ v. elim (get_file v.world.fsm file_id) [
    | err _ ↦ (v, status not_found none)
    | ok file ↦
        if is_available file.status
        then elim (get_file_chunks v.world.fsm file_id) [
          | err _ ↦ (v, status internal none)
          | ok chunks ↦ (v, reply (record { file = file; chunks = chunk_infos v.world.fsm chunks }))
        ]
        else (v, status not_found none)
  ])

  unfoldable pub serve_delete_file : String → Handler Unit
  serve_delete_file file_id = on_leader d (λ v. elim (get_file v.world.fsm file_id) [
    | err _ ↦ (v, status not_found none)
    | ok _ ↦ proposing d (delete_file (record { file_id = file_id })) (λ v'. (v', reply tt)) v
  ])

  unfoldable pub serve_list_files : Handler (List FileRecord)
  serve_list_files = on_leader d (λ v. (v, reply (available (list_files v.world.fsm ""))))

  unfoldable pub serve_commit_file : CommandCommitFile → Handler Unit
  serve_commit_file req = on_leader d (proposing d (commit_file req) (λ v. (v, reply tt)))
