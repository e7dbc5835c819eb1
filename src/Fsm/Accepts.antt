-- ===== src/Fsm/Accepts.antt =====
-- When the state machine accepts the commands of an upload.
use distributed_fs.Common.{false, true, ◌≡◌, ◌↔◌, none, ◌||◌}
use distributed_fs.Common.Registry.{has}
use distributed_fs.Fsm.Commands.{CommandCreateFile, CommandCommitChunk, CommandCommitFile}
use distributed_fs.Fsm.State.{MetadataFsm}
use distributed_fs.Fsm.Handlers.Files.{handle_create_file, handle_commit_file}
use distributed_fs.Fsm.Handlers.Chunks.{handle_commit_chunk}
use distributed_fs.Fsm.Uploads.{
  any_taken, can_commit, handle_create_file-ok_iff, handle_commit_file-ok_iff,
}
use distributed_fs.Fsm.Replicas.{is_open, handle_commit_chunk-ok_iff}

-- `CmdCreateFile` succeeds exactly if the file ID and all the chunk IDs are new; `CmdCommitChunk`
-- exactly on a registered chunk with no checksum that is not complete; `CmdCommitFile` exactly if the
-- file exists, was declared with the committed size, and every one of its chunks is registered and
-- complete.
pub upload_ok_iff :
    (new : CommandCreateFile) (chunk : CommandCommitChunk) (whole : CommandCommitFile)
    (s : MetadataFsm)
    → (((handle_create_file new s).1 ≡ none)
        ↔ ((has new.file_id s.file_index || any_taken s.chunk_registry new.chunk_ids) ≡ false))
      × (((handle_commit_chunk chunk s).1 ≡ none) ↔ (is_open chunk.chunk_id s ≡ true))
      × (((handle_commit_file whole s).1 ≡ none) ↔ (can_commit whole s ≡ true))
upload_ok_iff new chunk whole s = (
  handle_create_file-ok_iff new s,
  handle_commit_chunk-ok_iff chunk s,
  handle_commit_file-ok_iff whole s,
)
