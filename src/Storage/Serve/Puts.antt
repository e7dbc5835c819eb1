-- ===== src/Storage/Serve/Puts.antt =====
-- `PutChunk`: what it answers, and what it keeps.
use mathlib.Core.Path.{subst}
use distributed_fs.Common.{
  ◌<◌, String, List, ◌∷◌, ◌≡◌, refl, sym, none, arith, Bytes, ◌==◌, inl, inr, All, if◌then◌else◌,
}
use distributed_fs.Common.Registry.{delete, lookup-delete}
use distributed_fs.Storage.Errors.{ok}
use distributed_fs.Storage.Disk.{
  Layout, DiskStore, Os, fine, u64_mod, chunk_path, temp_path, exists, read, old_size,
}
use distributed_fs.Storage.Disk.Paths.{IsJoin, temp_path-ne-chunk_path}
use distributed_fs.Storage.Disk.Steps.{IsCommitting}
use distributed_fs.Storage.Disk.Sound.{IsSound, stored-IsSound}
use distributed_fs.Storage.Disk.Runs.{unstaged-IsSound}
use distributed_fs.Storage.Disk.Reads.{read-stored}
use distributed_fs.Storage.Serve.{
  Answer, answered, refused, PutChunkRequest, StreamEnd, StorageServerHandler, store_stream,
  put_chunk, publish,
}
use distributed_fs.Storage.Serve.Uploads.{cleared}
use distributed_fs.Storage.Serve.Stored.{payload, CanRemove}
use distributed_fs.Storage.Serve.Whole.{Streamed, stream-Streamed}

module _ (l : Layout) (j : IsJoin l) where
  Streamed-read :
      (base : DiskStore) (c k : String) (b : Bytes) (s : DiskStore) (last : PutChunkRequest)
      (ts : List String)
      → Streamed l j base c b (s, answered (last, ts))
      → read l fine k s ≡ (if c == k then ok b else read l fine k base)
  Streamed-read base c k b s last ts (v, _, _, _, e) = ground (
    arith,
    e,
    read-stored l j c k b (delete (temp_path l c) base.files) base v (λ vk. ground (
      arith,
      lookup-delete (temp_path l c) base.files (chunk_path l k),
      temp_path-ne-chunk_path l j c k v vk,
    )),
  )

  Streamed-IsSound :
      (base : DiskStore) (c : String) (b : Bytes)
      (x : DiskStore × Answer (PutChunkRequest × List String))
      → l.total_space < u64_mod
      → IsSound l base
      → Streamed l j base c b x
      → IsSound l x.0
  unfolding exists
  Streamed-IsSound base c b (s, refused _) bounded h (inl e) = subst (IsSound l) (sym e) h
  Streamed-IsSound base c b (s, refused _) bounded h (inr (v, e)) =
      subst (IsSound l) (sym e) (unstaged-IsSound l j bounded fine c base v h)
  Streamed-IsSound base c b (s, answered _) bounded h (v, _, _, room, e) =
      let same : old_size l none c (cleared l c base) ≡ old_size l none c base = ground (
        arith,
        lookup-delete (temp_path l c) base.files (chunk_path l c),
        temp_path-ne-chunk_path l j c c v v,
      ) in
      subst (IsSound l) (ground (arith, e, same)) (
        stored-IsSound l j bounded c b (cleared l c base)
          (unstaged-IsSound l j bounded fine c base v h) v (ground (arith, room, same)))

module _ {M : Type 0} (l : Layout) (j : IsJoin l) (h : StorageServerHandler M) (o : Os)
    (frame : PutChunkRequest) (fs : List (Os × PutChunkRequest)) (end : StreamEnd) (os : Os) where
  -- An upload that is answered, when temporary files can be removed and the rename does not fail
  -- halfway, names the chunk of its first frame and the sha256 of the bytes of all its frames; the
  -- chunk then reads as those bytes, and every other chunk as before.
  pub put_chunk-answered :
      (s : DiskStore) (m : M) (c : String) (sum : Bytes) (k : String)
      → All CanRemove ((o, frame) ∷ fs)
      → os.remove ≡ none
      → IsCommitting os
      → (put_chunk h l ((o, frame) ∷ fs) end os (s, m)).1 ≡ answered (c, sum)
      → (c ≡ frame.chunk_id)
        × (sum ≡ l.sha256 (payload ((o, frame) ∷ fs)))
        × (read l fine k (put_chunk h l ((o, frame) ∷ fs) end os (s, m)).0.0
            ≡ (if frame.chunk_id == k then ok (payload ((o, frame) ∷ fs)) else read l fine k s))
  unfolding put_chunk publish
  put_chunk-answered s m c sum k a r f e =
      go (store_stream l ((o, frame) ∷ fs) end os s) refl
        (stream-Streamed l j o frame fs end os s a r f)
    where
      go :
          (x : DiskStore × Answer (PutChunkRequest × List String))
          → store_stream l ((o, frame) ∷ fs) end os s ≡ x
          → Streamed l j s frame.chunk_id (payload ((o, frame) ∷ fs)) x
          → (c ≡ frame.chunk_id)
            × (sum ≡ l.sha256 (payload ((o, frame) ∷ fs)))
            × (read l fine k (put_chunk h l ((o, frame) ∷ fs) end os (s, m)).0.0
                ≡ (if frame.chunk_id == k then ok (payload ((o, frame) ∷ fs)) else read l fine k s))
      go (t, refused code) p g = ground (arith, e, p)
      go (t, answered (last, ts)) p g = (
        ground (arith, e, p, g.1),
        ground (arith, e, p, g.2),
        ground (
          arith,
          e,
          p,
          Streamed-read l j s frame.chunk_id k (payload ((o, frame) ∷ fs)) t last ts g,
        ),
      )

  -- When temporary files can be removed and no call of the rename fails that leaves the file and its
  -- checksum out of step, an upload keeps the store sound, whether it is answered or refused.
  put_chunk-IsSound :
      (s : DiskStore) (m : M)
      → l.total_space < u64_mod
      → All CanRemove ((o, frame) ∷ fs)
      → os.remove ≡ none
      → IsCommitting os
      → IsSound l s
      → IsSound l (put_chunk h l ((o, frame) ∷ fs) end os (s, m)).0.0
  unfolding put_chunk
  put_chunk-IsSound s m bounded a r f sound = subst (IsSound l) (ground arith) (
      Streamed-IsSound l j s frame.chunk_id (payload ((o, frame) ∷ fs))
        (store_stream l ((o, frame) ∷ fs) end os s) bounded sound
        (stream-Streamed l j o frame fs end os s a r f))
