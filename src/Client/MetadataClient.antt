-- ===== src/Client/MetadataClient.antt =====
-- client/internal/metadataclient/grpc.go. A call is the state of the service before and after it; the
-- redirects to the leader and the retries of a call are in Leader. The messages are the records of the
-- server.
use distributed_fs.Common.{
  ℕ, String, Bool, true, false, not, ◌&&◌, List, [], ◌∷◌, Option, none, some, ◌==◌, if◌then◌else◌,
  map, Bytes,
}
use distributed_fs.Fsm.Types.{FileRecord, FileStatus}
use distributed_fs.Fsm.Commands.{CommandCommitFile, CommandCommitChunk}
use text.Mathlib.Text.{starts_with}
use distributed_fs.Server
use distributed_fs.Server.{Reply, reply, status, Code}
use distributed_fs.Server.Files
use distributed_fs.Server.Files.{
  CreateFileRequest, CreateFileResponse, ChunkPlacement, NodeInfo, GetFileResponse,
}
use distributed_fs.Client.Errors
use distributed_fs.Client.Errors.{ClientError, done, failed, remote, file_not_found}
use distributed_fs.Client.Download.{FileInfo, ChunkInfo}
use distributed_fs.Client.Transfers.{Placement}
pub mod Named

-- The calls of the metadata service that the client makes, over its state.
pub record Stub (V : Type 0) : Type 0 where
  pub create_file : CreateFileRequest → V → V × Reply {0} CreateFileResponse
  pub get_file : String → V → V × Reply {0} GetFileResponse
  pub list_files : V → V × Reply {0} (List FileRecord)
  pub delete_file : String → V → V × Reply {0} Unit
  pub commit_file : CommandCommitFile → V → V × Reply {0} Unit
  pub commit_chunk : CommandCommitChunk → V → V × Reply {0} Unit
  pub get_chunk_locations : String → V → V × Reply {0} (List NodeInfo)

abbrev pub status_text : FileStatus → String
status_text FileStatus.creating = "creating"
status_text FileStatus.complete = "complete"
status_text FileStatus.deleted = "deleted"

unfoldable pub proto_to_file_info : FileRecord → FileInfo
proto_to_file_info f = record {
  file_id = f.file_id;
  file_name = f.filename;
  file_size = f.file_size;
  chunk_size = f.chunk_size;
  chunk_ids = f.chunk_ids;
  status = status_text f.status;
  created_at = f.created_at;
}

unfoldable pub proto_to_chunk_info : Files.ChunkInfo → ChunkInfo
proto_to_chunk_info c = record {
  chunk_id = c.chunk_id;
  file_id = c.file_id;
  chunk_index = c.chunk_index;
  size = c.size;
  checksum = c.checksum;
  replicas = c.replicas;
}

unfoldable pub to_placement : ChunkPlacement → Placement
to_placement p = record {
  chunk_id = p.chunk_id;
  primary = p.primary.address;
  replicas = map (λ r. r.address) p.replicas;
}

-- The files whose name starts with the prefix.
unfoldable pub filtered : String → List FileRecord → List FileInfo
filtered prefix [] = []
filtered prefix (f ∷ fs) =
    let rest = filtered prefix fs in
    if not (prefix == "") && not (starts_with f.filename prefix)
    then rest
    else proto_to_file_info f ∷ rest

-- The first file with a name.
unfoldable pub find_named : String → List FileInfo → Option FileInfo
find_named name [] = none
find_named name (f ∷ fs) =
    let rest = find_named name fs in if f.file_name == name then some f else rest

module _ {V : Type 0} (g : Stub V) where
  unfoldable pub client_create_file :
      CreateFileRequest → V → V × Errors.Reply (String × List Placement)
  client_create_file req v =
      let (v', r) = g.create_file req v in
      elim r [
        | status c _ ↦ (v', failed (remote "CreateFile"))
        | reply resp ↦ (v', done (resp.file_id, map to_placement resp.placements))
      ]

  unfoldable pub client_get_file : String → V → V × Errors.Reply (FileInfo × List ChunkInfo)
  client_get_file file_id v =
      let (v', r) = g.get_file file_id v in
      elim r [
        | status c _ ↦ (v', failed (remote "GetFile"))
        | reply resp ↦
            (v', done (proto_to_file_info resp.file, map proto_to_chunk_info resp.chunks))
      ]

  unfoldable pub client_list_files : String → V → V × Errors.Reply (List FileInfo)
  client_list_files prefix v =
      let (v', r) = g.list_files v in
      elim r [
        | status c _ ↦ (v', failed (remote "ListFiles"))
        | reply files ↦ (v', done (filtered prefix files))
      ]

  unfoldable pub client_get_file_by_name : String → V → V × Errors.Reply (FileInfo × List ChunkInfo)
  client_get_file_by_name name v =
      let (v', r) = client_list_files "" v in
      elim r [
        | failed e ↦ (v', failed e)
        | done files ↦ elim (find_named name files) [
          | none ↦ (v', failed file_not_found)
          | some f ↦ client_get_file f.file_id v'
        ]
      ]

  unfoldable pub client_delete_file : String → V → V × Option ClientError
  client_delete_file file_id v =
      let (v', r) = g.delete_file file_id v in
      elim r [ status c _ ↦ (v', some (remote "DeleteFile")) | reply _ ↦ (v', none) ]

  unfoldable pub client_commit_file : CommandCommitFile → V → V × Option ClientError
  client_commit_file req v =
      let (v', r) = g.commit_file req v in
      elim r [ status c _ ↦ (v', some (remote "CommitFile")) | reply _ ↦ (v', none) ]

  unfoldable pub client_commit_chunk : CommandCommitChunk → V → V × Option ClientError
  client_commit_chunk req v =
      let (v', r) = g.commit_chunk req v in
      elim r [ status c _ ↦ (v', some (remote "CommitChunk")) | reply _ ↦ (v', none) ]

  unfoldable pub client_get_chunk_locations : String → V → V × Errors.Reply (List String)
  client_get_chunk_locations chunk_id v =
      let (v', r) = g.get_chunk_locations chunk_id v in
      elim r [
        | status c _ ↦ (v', failed (remote "GetChunkLocations"))
        | reply nodes ↦ (v', done (map (λ n. n.address) nodes))
      ]
