-- ===== src/Storage/Peer.antt =====
-- storage/server/replication_handler.go: `ReplicateChunk`, over the frames received and the end of the
-- stream. `can_ack` says of a frame whether its acknowledgement can be sent.
use distributed_fs.Common.{
  String, Bool, true, false, not, ◌&&◌, List, [], ◌∷◌, ◌≡◌, ◌≢◌, Option, none, some, Bytes, length,
  leb, ◌==◌, if◌then◌else◌, arith, ◌<◌,
}
use distributed_fs.Common.Registry.{lookup, insert, lookup-insert}
use distributed_fs.Server.{invalid_argument, internal}
use distributed_fs.Storage.Errors.{ok, err}
use distributed_fs.Storage.Disk.{
  Layout, DiskStore, Os, fine, is_valid, temp_path, temp_dir_for, exists,
}
use distributed_fs.Storage.Chunk.{
  ChunkWriter, new_chunk_writer, append_frame, abort, finalize, computed_checksum,
}
use distributed_fs.Storage.Serve.{Answer, answered, refused, StreamEnd, eof, broken}

pub record ReplicateChunkRequest : Type 0 where
  pub chunk_id : String
  pub data_bytes : Bytes
  pub is_first : Bool
  pub is_last : Bool

-- What is received, with what happens in the meantime.
pub record Received : Type 0 where
  pub frame : ReplicateChunkRequest
  pub os : Os
  pub can_ack : Bool

-- The variables `writer` and `registeredChunkId`.
abbrev pub Receiving : Type 0
Receiving = Option (ChunkWriter × String)

-- How the call returns: with the final response, or with no more to send.
pub data Finish : Type 0 where
  final_response : String → Bytes → Finish
  closed : Finish

module _ (l : Layout) where
  -- The writer after the first frame is seen to.
  unfoldable pub open_first :
      Received → Receiving → DiskStore → DiskStore × Answer (ChunkWriter × String)
  open_first x rec s =
      let frame = x.frame in
      if frame.is_first
      then (if frame.chunk_id == ""
          then (s, refused invalid_argument)
          else (let (s', w) = new_chunk_writer l x.os frame.chunk_id s in
              elim w [
                | err _ ↦ (s', refused internal)
                | ok writer ↦ (s', answered (writer, frame.chunk_id))
              ]))
      else elim rec [ none ↦ (s, refused invalid_argument) | some current ↦ (s, answered current) ]

  -- The data of a frame, if there is any.
  unfoldable pub take_data :
      Received → ChunkWriter × String → DiskStore → DiskStore × Answer (ChunkWriter × String)
  take_data x (writer, id) s =
      let frame = x.frame in
      if not (frame.chunk_id == "") && not (frame.chunk_id == id)
      then ((abort l x.os (writer, s)).1, refused invalid_argument)
      else if leb (length frame.data_bytes) 0
      then (s, answered (writer, id))
      else (let (ws, e) = append_frame l x.os frame.data_bytes (writer, s) in
          elim e [
            | some _ ↦ ((abort l x.os ws).1, refused internal)
            | none ↦ (ws.1, answered (ws.0, id))
          ])

  unfoldable pub finish_chunk : Os → ChunkWriter × String → DiskStore → DiskStore × Answer Finish
  finish_chunk os (writer, id) s =
      let sum = computed_checksum l writer in
      let (ws, e) = finalize l os sum (writer, s) in
      elim e [ some _ ↦ (ws.1, refused internal) | none ↦ (ws.1, answered (final_response id sum)) ]

  unfoldable pub replicate_chunk :
      List Received → StreamEnd → Os → Receiving → DiskStore → DiskStore × Answer Finish
  replicate_chunk [] eof os none s = (s, refused invalid_argument)
  replicate_chunk [] eof os (some _) s = (s, answered closed)
  replicate_chunk [] broken os none s = (s, refused internal)
  replicate_chunk [] broken os (some (w, _)) s = ((abort l os (w, s)).1, refused internal)
  replicate_chunk (x ∷ xs) end os rec s =
      let (s1, opened) = open_first x rec s in
      elim opened [
        | refused c ↦ (s1, refused c)
        | answered current ↦
            (let (s2, taken) = take_data x current s1 in
              elim taken [
                | refused c ↦ (s2, refused c)
                | answered current' ↦ elim (x.frame.is_last) [
                  | true ↦ finish_chunk x.os current' s2
                  | false ↦ elim (x.can_ack) [
                    | false ↦ ((abort l x.os (current'.0, s2)).1, refused internal)
                    | true ↦ replicate_chunk xs end os (some current') s2
                  ]
                ]
              ])
      ]

  -- A stream of one frame that ends before the last frame is answered with no error, although the
  -- chunk is not stored: what exists is what existed, and the temporary file is left behind.
  pub replicate_chunk-truncated :
      (c k : String) (d : Bytes) (os : Os) (s : DiskStore)
      → is_valid l c ≡ true
      → c ≢ ""
      → 0 < length d
      → let frame : ReplicateChunkRequest = record {
        chunk_id = c;
        data_bytes = d;
        is_first = true;
        is_last = false;
      } in
        let x =
          replicate_chunk
            (record { frame = frame; os = fine; can_ack = true } ∷ [])
            eof
            os
            none
            s in
        (x.1 ≡ answered closed)
        × (exists l k x.0 ≡ exists l k s)
        × (lookup (temp_path l c) x.0.files ≡ some d)
  unfolding replicate_chunk open_first take_data new_chunk_writer append_frame temp_dir_for exists
  replicate_chunk-truncated c k d os s v n p = ground (
    arith,
    v,
    n,
    p,
    lookup-insert (temp_path l c) [] s.files (temp_path l c),
    lookup-insert (temp_path l c) d (insert (temp_path l c) [] s.files) (temp_path l c),
  )
