-- ===== src/Storage/Streams.antt =====
-- storage/server/storage_handler.go: `GetChunk`, `DeleteChunk` and `VerifyChunk`. What the system does
-- at each frame of a stream, and whether the frame can be sent, are given by the frame's number.
use distributed_fs.Common.{
  ℕ, zero, suc, String, Bool, true, false, not, ◌&&◌, List, [], ◌∷◌, Option, none, some, Bytes,
  bytes_equal, length, leb, ◌==◌, if◌then◌else◌,
}
use distributed_fs.Server.{Code, not_found, invalid_argument, internal}
use distributed_fs.Storage.Errors.{chunk_not_found, verify_failed, ok, err}
use distributed_fs.Storage.Disk.{Layout, DiskStore, Os, exists, delete_chunk, verify}
use distributed_fs.Storage.Chunk.{ChunkReader, Frame, new_chunk_reader, next}
use distributed_fs.Storage.Serve.{Answer, answered, refused}
pub mod Frames
pub mod Gets

-- How a loop over frames ends; `exhausted` if the fuel does not last.
pub data Ending : Type 0 where
  done : Ending
  failed : Code → Ending
  exhausted : Ending

module _ (l : Layout) where
  -- The loop of `GetChunk`, from frame `i` on, with the frames that were sent.
  unfoldable pub send_frames : (ℕ → Os) → (ℕ → Bool) → ℕ → ℕ → ChunkReader → List Frame × Ending
  send_frames io can_send zero i r = ([], exhausted)
  send_frames io can_send (suc fuel) i r =
      let (r', x) = next l (io i) r in
      elim x [
        | err _ ↦ ([], failed internal)
        | ok none ↦ ([], done)
        | ok (some frame) ↦ elim (can_send i) [
          | false ↦ ([], failed internal)
          | true ↦ elim (frame.is_last) [
            | true ↦ (frame ∷ [], done)
            | false ↦
                let (frames, e) = send_frames io can_send fuel (suc i) r' in (frame ∷ frames, e)
          ]
        ]
      ]

  unfoldable pub serve_get_chunk :
      Os → (ℕ → Os) → (ℕ → Bool) → String → DiskStore → List Frame × Ending
  serve_get_chunk os io can_send c s =
      if c == ""
      then ([], failed invalid_argument)
      else if not (exists l c s)
      then ([], failed not_found)
      else elim (new_chunk_reader l os c s 0) [
        | err chunk_not_found ↦ ([], failed not_found)
        | err _ ↦ ([], failed internal)
        | ok r ↦ send_frames io can_send (suc (length r.rest)) 0 r
      ]

  -- The answer is that the chunk is not there any more.
  unfoldable pub serve_delete_chunk : Os → String → DiskStore → DiskStore × Answer Unit
  serve_delete_chunk os c s =
      if c == ""
      then (s, refused invalid_argument)
      else (let (s', e) = delete_chunk l os c s in
          elim e [
            | none ↦ (s', answered tt)
            | some chunk_not_found ↦ (s', answered tt)
            | some _ ↦ (s', refused internal)
          ])

  -- The answer is whether the chunk is valid.
  unfoldable pub serve_verify_chunk : Os → String → Bytes → DiskStore → Answer Bool
  serve_verify_chunk os c checksum s =
      if c == ""
      then refused invalid_argument
      else if not (exists l c s)
      then refused not_found
      else elim (verify l os c s) [
        | err verify_failed ↦ answered false
        | err _ ↦ refused internal
        | ok computed ↦
            if not (leb (length checksum) 0) && not (bytes_equal computed checksum)
            then answered false
            else answered true
      ]
