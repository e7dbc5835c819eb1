-- ===== src/Storage/Streams/Gets.antt =====
-- `GetChunk`, of what the store has and after `PutChunk`.
use mathlib.Core.Path.{subst}
use distributed_fs.Common.{suc, String, true, List, ◌∷◌, ◌≡◌, none, Bytes, arith, length, All}
use distributed_fs.Storage.Disk.{
  Layout, DiskStore, Os, fine, read, exists, is_valid, path_for_chunk,
}
use distributed_fs.Storage.Disk.Paths.{IsJoin}
use distributed_fs.Storage.Disk.Steps.{IsCommitting}
use distributed_fs.Storage.Errors.{ok}
use distributed_fs.Storage.Chunk.{ChunkReader, new_chunk_reader, default_frame_size}
use distributed_fs.Storage.Serve.{
  PutChunkRequest, StreamEnd, StorageServerHandler, put_chunk, answered,
}
use distributed_fs.Storage.Serve.Stored.{payload, CanRemove}
use distributed_fs.Storage.Serve.Puts.{put_chunk-answered}
use distributed_fs.Storage.Streams.{send_frames, serve_get_chunk}
use distributed_fs.Storage.Streams.Frames.{Framed, send_frames-Framed}

-- A chunk that reads as some bytes is sent as frames of at most 32 KiB that make them up.
pub serve_get_chunk-Framed :
    (l : Layout) (c : String) (s : DiskStore) (d : Bytes)
    → read l fine c s ≡ ok d
    → Framed l default_frame_size d (serve_get_chunk l fine (λ _. fine) (λ _. true) c s)
unfolding serve_get_chunk read exists is_valid new_chunk_reader path_for_chunk
serve_get_chunk-Framed l c s d h =
    let r : ChunkReader = record { rest = d; frame_size = default_frame_size } in
    subst (Framed l default_frame_size d)
      {x = send_frames l (λ _. fine) (λ _. true) (suc (length d)) 0 r}
      {y = serve_get_chunk l fine (λ _. fine) (λ _. true) c s} (ground (arith, h))
      (send_frames-Framed l (suc (length d)) 0 r (omega arith) (omega arith))

-- When temporary files can be removed and no call of the rename fails that leaves the file and its
-- checksum out of step, then after an upload that is answered a `GetChunk` of its chunk in which no
-- call of the system and no send fails sends the bytes of the frames that were received, in frames of
-- at most 32 KiB of which exactly the last says that it is the last.
pub serve_get_chunk-put_chunk :
    {M : Type 0} (l : Layout) (j : IsJoin l) (h : StorageServerHandler M) (o : Os)
    (frame : PutChunkRequest) (fs : List (Os × PutChunkRequest)) (end : StreamEnd) (os : Os)
    (s : DiskStore) (m : M) (c : String) (sum : Bytes)
    → All CanRemove ((o, frame) ∷ fs)
    → os.remove ≡ none
    → IsCommitting os
    → (put_chunk h l ((o, frame) ∷ fs) end os (s, m)).1 ≡ answered (c, sum)
    → Framed l default_frame_size (payload ((o, frame) ∷ fs)) (
        serve_get_chunk l fine
          (λ _. fine)
          (λ _. true)
          c
          (put_chunk h l ((o, frame) ∷ fs) end os (s, m)).0.0)
serve_get_chunk-put_chunk l j h o frame fs end os s m c sum a r f e =
    let put = put_chunk-answered l j h o frame fs end os s m c sum c a r f e in
    serve_get_chunk-Framed l c (put_chunk h l ((o, frame) ∷ fs) end os (s, m)).0.0
      (payload ((o, frame) ∷ fs)) (ground (arith, put.0, put.2))
