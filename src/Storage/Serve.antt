-- ===== src/Storage/Serve.antt =====
-- storage/server/storage_handler.go. A stream of requests is the list of what is received, each with
-- what the system does in the meantime, and how the stream ends. The replicator and the metadata
-- client are parameters, on a world of their own.
use distributed_fs.Common.{
  ℕ, zero, suc, String, Bool, true, false, not, List, [], ◌∷◌, ◌++◌, Option, none, some, Bytes,
  bytes_equal, length, leb, ◌==◌, if◌then◌else◌,
}
use distributed_fs.Fsm.Commands.{CommandCommitChunk}
use distributed_fs.Server.{Code, not_found, invalid_argument, internal}
use distributed_fs.Storage.Errors.{StoreError, chunk_not_found, verify_failed, Result, ok, err}
use distributed_fs.Storage.Disk.{Layout, DiskStore, Os, exists, delete_chunk, verify}
use distributed_fs.Storage.Chunk.{
  ChunkWriter, ChunkReader, Frame, new_chunk_writer, append_frame, abort, finalize,
  new_chunk_reader, next,
}
pub mod Uploads
pub mod Stored
pub mod Whole
pub mod Puts

pub data Answer (A : Type 0) : Type 0 where
  answered : A → Answer A
  refused : Code → Answer A

-- `PutChunkRequest`; of a `NodeInfo` the address, and `none` is nil.
pub record PutChunkRequest : Type 0 where
  pub chunk_id : String
  pub data_bytes : Bytes
  pub checksum : Bytes
  pub is_last : Bool
  pub replicate_to : List (Option String)

pub data StreamEnd : Type 0 where
  eof : StreamEnd
  broken : StreamEnd

-- `StorageServerHandler`: the node's ID, and the replicator and the metadata client if there are any.
pub record StorageServerHandler (M : Type 0) : Type 0 where
  pub node_id : String
  pub replicator : Option (String → List String → M → M × List String)
  pub meta_client : Option (CommandCommitChunk → M → M × Option Code)

-- The variables of `PutChunk`: the writer, `registeredChunkId`, `replicateTo` and `lastFrame`.
pub record Upload : Type 0 where
  pub writer : ChunkWriter
  pub registered : String
  pub targets : List String
  pub last_frame : Option PutChunkRequest

unfoldable pub addresses : List (Option String) → List String
addresses [] = []
addresses (none ∷ ns) = addresses ns
addresses (some a ∷ ns) = let rest = addresses ns in if a == "" then rest else a ∷ rest

module _ (l : Layout) where
  -- The first frame opens the writer.
  unfoldable pub open_upload : Os → PutChunkRequest → DiskStore → DiskStore × Answer Upload
  open_upload os frame s =
      let (s', r) = new_chunk_writer l os frame.chunk_id s in
      elim r [
        | err _ ↦ (s', refused internal)
        | ok w ↦ (
          s',
          answered (record {
            writer = w;
            registered = frame.chunk_id;
            targets = addresses frame.replicate_to;
            last_frame = none;
          }),
        )
      ]

  unfoldable pub accept_frame :
      Os → PutChunkRequest → Upload → DiskStore → DiskStore × Answer Upload
  accept_frame os frame up s =
      if not (up.registered == frame.chunk_id)
      then ((abort l os (up.writer, s)).1, refused invalid_argument)
      else let (ws, r) = append_frame l os frame.data_bytes (up.writer, s) in
        elim r [
          | some _ ↦ ((abort l os ws).1, refused internal)
          | none ↦ (ws.1, answered (record up { writer = ws.0; last_frame = some frame }))
        ]

  -- The frames after the first, and the end of the stream up to the chunk that is stored.
  unfoldable pub receive :
      List (Os × PutChunkRequest)
      → StreamEnd
      → Os
      → Upload
      → DiskStore
      → DiskStore × Answer (PutChunkRequest × List String)
  receive [] eof os up s = elim (up.last_frame) [
    | none ↦ ((abort l os (up.writer, s)).1, refused invalid_argument)
    | some last ↦ elim (last.is_last) [
      | false ↦ ((abort l os (up.writer, s)).1, refused invalid_argument)
      | true ↦
          let (ws, r) = finalize l os last.checksum (up.writer, s) in
          elim r [ some _ ↦ (ws.1, refused internal) | none ↦ (ws.1, answered (last, up.targets)) ]
    ]
  ]
  receive [] broken os up s = ((abort l os (up.writer, s)).1, refused internal)
  receive ((o, frame) ∷ fs) end os up s =
      let (s', r) = accept_frame o frame up s in
      elim r [ refused c ↦ (s', refused c) | answered up' ↦ receive fs end os up' s' ]

  -- The stream up to the chunk that is stored.
  unfoldable pub store_stream :
      List (Os × PutChunkRequest)
      → StreamEnd
      → Os
      → DiskStore
      → DiskStore × Answer (PutChunkRequest × List String)
  store_stream [] eof os s = (s, refused invalid_argument)
  store_stream [] broken os s = (s, refused internal)
  store_stream ((o, frame) ∷ fs) end os s =
      let (s', r) = open_upload o frame s in
      elim r [ refused c ↦ (s', refused c) | answered up ↦ receive ((o, frame) ∷ fs) end os up s' ]

module _ {M : Type 0} (h : StorageServerHandler M) where
  -- What follows the chunk that is stored: its replicas, and its commit.
  unfoldable pub publish : PutChunkRequest → List String → M → M × Answer (String × Bytes)
  publish last targets m =
      let (m', replicas) : M × List String = elim (h.replicator) [
        | none ↦ (m, [])
        | some replicate ↦
            if leb (length targets) 0 then (m, []) else replicate last.chunk_id targets m
      ] in
      elim (h.meta_client) [
        | none ↦ (m', answered (last.chunk_id, last.checksum))
        | some commit ↦
            (let (m'', r) =
                commit
                  (record {
                    chunk_id = last.chunk_id;
                    node_ids = h.node_id ∷ replicas;
                    checksum = last.checksum;
                  })
                  m' in
              elim r [
                | some _ ↦ (m'', refused internal)
                | none ↦ (m'', answered (last.chunk_id, last.checksum))
              ])
      ]

  unfoldable pub put_chunk :
      Layout
      → List (Os × PutChunkRequest)
      → StreamEnd
      → Os
      → DiskStore × M
      → (DiskStore × M) × Answer (String × Bytes)
  put_chunk l frames end os (s, m) =
      let (s', r) = store_stream l frames end os s in
      elim r [
        | refused c ↦ ((s', m), refused c)
        | answered (last, targets) ↦ let (m', a) = publish last targets m in ((s', m'), a)
      ]
