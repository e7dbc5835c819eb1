-- ===== src/Client/StorageClient/Roundtrip.antt =====
-- `PutChunk` and then `GetChunk` of the client, at one storage node.
use mathlib.Core.Path.{subst}
use mathlib.Core.List.{append_assoc, append-nil}
use distributed_fs.Common.{
  ℕ, suc, ◌<◌, String, true, List, [], ◌∷◌, ◌++◌, ◌≡◌, refl, sym, ap, ◌∙◌, Option, none, some,
  Bytes, arith, map, flatten, ◌==◌, if◌then◌else◌, Option-cases, inl, inr,
}
use distributed_fs.Common.Registry.{lookup, delete, lookup-delete}
use distributed_fs.Storage.Errors.{ok}
use distributed_fs.Storage.Disk.{Layout, DiskStore, fine, is_valid, chunk_path, temp_path, read}
use distributed_fs.Storage.Disk.Paths.{IsJoin, temp_path-ne-chunk_path}
use distributed_fs.Storage.Disk.Steps.{stored}
use distributed_fs.Storage.Disk.Reads.{read-stored}
use distributed_fs.Storage.Serve.{
  Answer, answered, refused, PutChunkRequest, StorageServerHandler, eof, addresses, publish,
  put_chunk, store_stream,
}
use distributed_fs.Storage.Streams.{serve_get_chunk}
use distributed_fs.Storage.Streams.Gets.{serve_get_chunk-Framed}
use distributed_fs.Storage.Sender.Copies.{HasRoom}
use distributed_fs.Client.Errors.{ClientError, Reply, done, remote}
use distributed_fs.Client.StorageClient.{
  Header, GrpcClient, PutCall, get_or_dial, put_frames, send_all, client_put_chunk, receive_all,
}
use distributed_fs.Client.StorageClient.Arrivals.{arriving, Stored, put_frames-Stored}

receive_all-flatten :
    (ds : List Bytes) (chunk : Bytes) → receive_all ds none chunk ≡ done (chunk ++ flatten ds)
unfolding receive_all
receive_all-flatten [] chunk = ap done (sym (append-nil chunk))
receive_all-flatten (d ∷ ds) chunk =
    receive_all-flatten ds (chunk ++ d) ∙ ap done (append_assoc chunk d (flatten ds))

-- What the client receives of a chunk from a node, when nothing fails.
abbrev pub fetched : Layout → String → DiskStore → Reply Bytes
fetched l c s =
    receive_all (map (λ f. f.data_bytes) (serve_get_chunk l fine (λ _. fine) (λ _. true) c s).0)
      none []

module _ {M C : Type 0} (l : Layout) (j : IsJoin l) (base : DiskStore)
    (handler : StorageServerHandler M) (m : M) (conn : C) where
  -- What the node answers for these requests, when nothing fails there.
  abbrev pub node : List PutChunkRequest → (DiskStore × M) × Answer (String × Bytes)
  node rs = put_chunk handler l (arriving rs) eof fine (base, m)

  abbrev pub error_of : Answer (String × Bytes) → Option ClientError
  error_of (answered _) = none
  error_of (refused _) = some (remote "PutChunk")

  -- The connection to the node, when nothing fails on the way.
  abbrev pub to_node : PutCall C
  to_node = record {
    dial = λ addr. done conn;
    open_stream = λ c. none;
    send = λ i. none;
    close_and_recv = λ rs. error_of (node rs).1;
  }

  send_all-fine : (i : ℕ) (rs : List PutChunkRequest) → send_all (λ n. none) i rs ≡ (rs, none)
  unfolding send_all
  send_all-fine i [] = refl
  send_all-fine i (r ∷ rs) = ground (arith, send_all-fine (suc i) rs)

  client_put_chunk-sends :
      (addr : String) (h : Header) (bytes : Bytes) (g : GrpcClient C)
      → let x = client_put_chunk to_node addr h bytes g in
        let rs = put_frames h bytes g.frame_size in (x.0.1 ≡ rs) × (x.1 ≡ error_of (node rs).1)
  unfolding client_put_chunk get_or_dial
  client_put_chunk-sends addr h bytes g =
      let sent = send_all-fine 0 (put_frames h bytes g.frame_size) in
      elim (Option-cases (lookup addr g.conns)) [
        | inl e ↦ ground (arith, e, sent)
        | inr (pooled, e) ↦ ground (arith, e, sent)
      ]

  -- The node has the chunk `c` with these bytes, and the client is told what the handler's publication
  -- of the last request answers.
  abbrev pub Holds :
      Header → Bytes → Option ClientError → (DiskStore × M) × Answer (String × Bytes) → Type 0
  Holds h bytes error x =
      (last : PutChunkRequest) × (last.chunk_id ≡ h.chunk_id)
      × (last.checksum ≡ h.checksum)
      × (error ≡ error_of (publish handler last (addresses (map (λ a. some a) h.replicate_to)) m).1)
      × (fetched l h.chunk_id x.0.0 ≡ done bytes)
      × ((q : String)
          → read l fine q x.0.0 ≡ (if h.chunk_id == q then ok bytes else read l fine q base))

  node-Holds :
      (h : Header) (bytes : Bytes) (rs : List PutChunkRequest) (error : Option ClientError)
      → is_valid l h.chunk_id ≡ true
      → error ≡ error_of (node rs).1
      → Stored l j base h bytes
          (addresses (map (λ a. some a) h.replicate_to))
          (store_stream l (arriving rs) eof fine base)
      → Holds h bytes error (node rs)
  unfolding put_chunk
  node-Holds h bytes rs error v e (last, id, sum, st) =
      let at : (node rs).0.0
          ≡ stored l h.chunk_id bytes (delete (temp_path l h.chunk_id) base.files) base =
        ground (arith, st) in
      let reads = λ (q : String).
        ap (read l fine q) at
        ∙ read-stored l j h.chunk_id q bytes (delete (temp_path l h.chunk_id) base.files) base v
            (λ vq. ground (
              arith,
              lookup-delete (temp_path l h.chunk_id) base.files (chunk_path l q),
              temp_path-ne-chunk_path l j h.chunk_id q v vq,
            )) in
      let own : read l fine h.chunk_id (node rs).0.0 ≡ ok bytes = reads h.chunk_id ∙ ground arith in
      let frames = serve_get_chunk-Framed l h.chunk_id (node rs).0.0 bytes own in
      let sent = (serve_get_chunk l fine (λ _. fine) (λ _. true) h.chunk_id (node rs).0.0).0 in
      let get = receive_all-flatten (map (λ f. f.data_bytes) sent) [] ∙ ap done frames.1 in
      (last, id, sum, ground (arith, e, st), get, reads)

  -- When nothing fails on the way or at a node that has room, `PutChunk` of the client with a valid
  -- chunk ID and the sha256 of the bytes, of any length, returns the error, if any, of what the node
  -- does after it has stored the chunk; `GetChunk` of the client then gives back the same bytes, and
  -- every other chunk of the node reads as before.
  pub client_put_chunk-get :
      (addr : String) (h : Header) (bytes : Bytes) (g : GrpcClient C)
      → 0 < g.frame_size
      → is_valid l h.chunk_id ≡ true
      → HasRoom l j h.chunk_id base bytes
      → h.checksum ≡ l.sha256 bytes
      → let x = client_put_chunk to_node addr h bytes g in Holds h bytes x.1 (node x.0.1)
  client_put_chunk-get addr h bytes g z v room sum =
      let (sent, error) = client_put_chunk-sends addr h bytes g in
      let rs = put_frames h bytes g.frame_size in
      let x = client_put_chunk to_node addr h bytes g in
      subst (λ q. Holds h bytes x.1 (node q)) (sym sent)
        (node-Holds h bytes rs x.1 v error
          (put_frames-Stored l j base h bytes g.frame_size z v room sum))
