-- ===== src/Storage/Sender/Transfer.antt =====
-- A chunk that is sent to a peer arrives there.
use mathlib.Core.Path.{subst}
use distributed_fs.Common.{
  suc, ◌<◌, String, Bool, true, false, List, [], ◌≡◌, refl, sym, ◌∙◌, ap, none, Bytes, arith,
  length, map, ◌==◌, if◌then◌else◌,
}
use distributed_fs.Common.Registry.{delete, lookup-delete}
use distributed_fs.Storage.Errors.{ok}
use distributed_fs.Storage.Disk.{
  Layout, DiskStore, fine, is_valid, chunk_path, temp_path, read, exists, path_for_chunk,
}
use distributed_fs.Storage.Disk.Paths.{IsJoin, temp_path-ne-chunk_path}
use distributed_fs.Storage.Disk.Reads.{read-stored}
use distributed_fs.Storage.Chunk.{ChunkReader, new_chunk_reader, default_frame_size, next}
use distributed_fs.Storage.Serve.{answered, eof}
use distributed_fs.Storage.Peer.{ReplicateChunkRequest, Finish, final_response, replicate_chunk}
use distributed_fs.Storage.Sender.{send_requests, sent_all, replicate_to_single_node, Link}
use distributed_fs.Storage.Sender.Copies.{arriving, HasRoom}
use distributed_fs.Storage.Sender.Requests.{sending, all-arrived}

module _ (k l : Layout) (j : IsJoin l) (c : String) (base : DiskStore) where
  -- The connection to the peer, when nothing fails on the way.
  abbrev pub to_peer : Link
  to_peer = record {
    dials = true;
    opens = true;
    acked = λ _. true;
    closes = true;
    peer = λ reqs. (replicate_chunk l (map arriving reqs) eof fine none base).1;
  }

  -- What the node sends of its chunk, and whether it meets no error.
  abbrev pub replicated : DiskStore → List ReplicateChunkRequest × Bool
  replicated s = replicate_to_single_node k to_peer fine (λ _. fine) c s

  reader-opened :
      (s : DiskStore) (d : Bytes)
      → read k fine c s ≡ ok d
      → new_chunk_reader k fine c s 0 ≡ ok (record { rest = d; frame_size = default_frame_size })
  unfolding new_chunk_reader path_for_chunk read exists is_valid
  reader-opened s d e = ground (arith, e)

  -- What is replicated of a chunk whose requests all are sent.
  replicated-sent :
      (s : DiskStore) (d : Bytes) (f : Finish)
      → read k fine c s ≡ ok d
      → let x =
          sending k l j c base
            (suc (length d))
            0
            true
            (record { rest = d; frame_size = default_frame_size }) in
        (x.1 ≡ sent_all)
        → (replicate_chunk l (map arriving x.0) eof fine none base).1 ≡ answered f
        → replicated s ≡ (x.0, true)
  unfolding replicate_to_single_node
  replicated-sent s d f e sent answer = ground (arith, reader-opened s d e, sent, answer)

  -- A chunk that is not empty is replicated, if nothing fails on the way or at the peer, and the
  -- peer has room: there is no error, the peer answers the sha256 of its bytes, the chunk then reads
  -- at the peer as those bytes, and every other chunk of the peer as before.
  pub replicate_chunk-copies :
      (s : DiskStore) (d : Bytes) (q : String)
      → read k fine c s ≡ ok d
      → 0 < length d
      → is_valid l c ≡ true
      → HasRoom l j c base d
      → let peer = replicate_chunk l (map arriving (replicated s).0) eof fine none base in
        ((replicated s).1 ≡ true)
        × (peer.1 ≡ answered (final_response c (l.sha256 d)))
        × (read l fine q peer.0 ≡ (if c == q then ok d else read l fine q base))
  replicate_chunk-copies s d q e p v room =
      let r : ChunkReader = record { rest = d; frame_size = default_frame_size } in
      let sent =
        all-arrived k l j c base (suc (length d)) 0 r v (omega arith) p (omega arith) room in
      let reads = read-stored l j c q d (delete (temp_path l c) base.files) base v (λ vq. ground (
        arith,
        lookup-delete (temp_path l c) base.files (chunk_path l q),
        temp_path-ne-chunk_path l j c q v vq,
      )) in
      let same =
        replicated-sent s d (final_response c (l.sha256 d)) e sent.0 (ap (λ x. x.1) sent.1) in
      subst
        (λ x.
          let peer = replicate_chunk l (map arriving x.0) eof fine none base in
          (x.1 ≡ true)
          × (peer.1 ≡ answered (final_response c (l.sha256 d)))
          × (read l fine q peer.0 ≡ (if c == q then ok d else read l fine q base)))
        (sym same) (refl, ap (λ x. x.1) sent.1, ap (λ x. read l fine q x.0) sent.1 ∙ reads)

  nothing-sent :
      send_requests k c
        (λ _. fine)
        (λ _. true)
        1
        0
        true
        (record { rest = []; frame_size = default_frame_size })
      ≡ ([], sent_all)
  unfolding send_requests next
  nothing-sent = ground arith

  -- A chunk that is empty is not replicated, although nothing fails: no request is sent, the peer
  -- refuses the stream, and the node reports an error.
  pub replicate_chunk-empty :
      (s : DiskStore)
      → read k fine c s ≡ ok []
      → ((replicated s).0 ≡ []) × ((replicated s).1 ≡ false)
  unfolding replicate_to_single_node replicate_chunk
  replicate_chunk-empty s e = ground (arith, reader-opened s [] e, nothing-sent)
