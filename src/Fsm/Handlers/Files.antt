-- ===== src/Fsm/Handlers/Files.antt =====
-- The handlers of the file commands.
use distributed_fs.Common.{
  ℕ, suc, String, Bool, true, false, List, [], ◌∷◌, Option, none, some, nat_eq, if◌then◌else◌,
}
use distributed_fs.Common.Registry.{Registry, lookup, insert}
use distributed_fs.Fsm.Types.{FileRecord, FileStatus, ChunkRecord, ChunkStatus}
use distributed_fs.Fsm.Commands.{CommandCreateFile, CommandCommitFile, CommandDeleteFile}
use distributed_fs.Fsm.State.{MetadataFsm, FsmError, new_error, join, ok, err, get_file}

abbrev pub chunk_stub : String → ℕ → String → ChunkRecord
chunk_stub file_id i cid = record {
  chunk_id = cid;
  file_id = file_id;
  chunk_index = i;
  size = 0;
  checksum = [];
  replicas = [];
  status = ChunkStatus.allocated;
  version = 0;
}

-- The loop that builds the stubs, from index `i`.
unfoldable pub build_chunk_records : String → ℕ → List String → List ChunkRecord
build_chunk_records file_id i [] = []
build_chunk_records file_id i (cid ∷ cids) =
    chunk_stub file_id i cid ∷ build_chunk_records file_id (suc i) cids

-- Pass 1: is there a stub whose ID is in the registry?
unfoldable pub has_collision : Registry ChunkRecord → List ChunkRecord → Option FsmError
has_collision reg [] = none
has_collision reg (val ∷ vals) = elim (lookup val.chunk_id reg) [
  | some _ ↦ some (new_error "CmdCreateFile: chunkID already exists in our systems, unsupported")
  | none ↦ has_collision reg vals
]

-- Pass 2.
unfoldable pub insert_all : List ChunkRecord → Registry ChunkRecord → Registry ChunkRecord
insert_all [] reg = reg
insert_all (val ∷ vals) reg = insert_all vals (insert val.chunk_id val reg)

abbrev pub new_file : CommandCreateFile → FileRecord
new_file req = record {
  file_id = req.file_id;
  filename = req.file_name;
  file_size = req.file_size;
  chunk_size = req.chunk_size;
  checksum = [];
  chunk_ids = req.chunk_ids;
  status = FileStatus.creating;
  created_at = req.created_at;
  updated_at = 0;
}

unfoldable pub handle_create_file : CommandCreateFile → MetadataFsm → MetadataFsm × Option FsmError
handle_create_file req s = elim (get_file s req.file_id) [
  | ok _ ↦
      (s, some (new_error "CmdCreateFile: fileID already exists in our systems, cannot override"))
  | err _ ↦
      let chunk_records = build_chunk_records req.file_id 0 req.chunk_ids in
      elim (has_collision s.chunk_registry chunk_records) [
        | some e ↦ (s, some e)
        | none ↦ (
          record s {
            file_index = insert req.file_id (new_file req) s.file_index;
            chunk_registry = insert_all chunk_records s.chunk_registry;
          },
          none,
        )
      ]
]

abbrev pub is_complete : ChunkStatus → Bool
is_complete ChunkStatus.complete = true
is_complete _ = false

-- The loop over the chunks of the file: the first that is missing or not complete is an error.
unfoldable pub validate_chunks : Registry ChunkRecord → List String → Option FsmError
validate_chunks reg [] = none
validate_chunks reg (cid ∷ cids) =
    let rest = validate_chunks reg cids in
    elim (lookup cid reg) [
      | none ↦ some (new_error "cmdCommitFile: chunk validation failed : chunk not found")
      | some ck ↦
          if is_complete ck.status
          then rest
          else some (new_error "cmdCommitFile: chunk validation failed : chunk not commited")
    ]

unfoldable pub handle_commit_file : CommandCommitFile → MetadataFsm → MetadataFsm × Option FsmError
handle_commit_file req s = elim (get_file s req.file_id) [
  | err e ↦ (s, some (join "cmdCommitFile: " e))
  | ok file ↦
      if nat_eq file.file_size req.file_size
      then elim (validate_chunks s.chunk_registry file.chunk_ids) [
        | some e ↦ (s, some e)
        | none ↦
            let file' = record file { checksum = req.checksum; status = FileStatus.complete } in
            (record s { file_index = insert req.file_id file' s.file_index }, none)
      ]
      else (s, some (new_error "cmdCommitFile: filesize mismatch"))
]

unfoldable pub handle_delete_file : CommandDeleteFile → MetadataFsm → MetadataFsm × Option FsmError
handle_delete_file req s = elim (get_file s req.file_id) [
  | err e ↦ (s, some (join "cmdDeleteFile: " e))
  | ok file ↦
      let file' = record file { status = FileStatus.deleted } in
      (record s { file_index = insert req.file_id file' s.file_index }, none)
]
