-- ===== src/Client/Transfers.antt =====
-- The goroutines of client/internal/service/upload.go, one for each chunk. What the storage nodes
-- answer at each attempt, the errors of the system and the order in which the goroutines end are
-- inputs. A goroutine is one step, and the calls of PutChunk are kept in a log.
use distributed_fs.Common.{
  ℕ, zero, suc, ◌+◌, String, Bool, false, List, [], ◌∷◌, ◌++◌, Option, none, some, Bytes, length,
  take, drop, map, ltb, if◌then◌else◌,
}
use distributed_fs.Common.Registry.{Registry, lookup, insert}
use distributed_fs.Storage.Errors.{Result, ok, err}
use distributed_fs.Storage.Retry.{Policy, Attempts, succeeded, stopped, exhausted, policy_do}
use distributed_fs.Client.Errors
use distributed_fs.Client.Errors.{
  ClientError, Reply, done, failed, empty_file, end_of_file, chunks_failed, not_chunked, with_cause,
}
use distributed_fs.Client.Chunker.{ChunkDescriptor, Chunking, generate_descriptors}
use distributed_fs.Client.Manifest.{
  UploadManifest, Manager, ManifestSystem, create, mark_chunk_done, delete_manifest,
}
pub mod Sent

-- `metadataclient.Placement`
pub record Placement : Type 0 where
  pub chunk_id : String
  pub primary : String
  pub replicas : List String

-- The two operations of the metadata client that an upload calls.
pub record MetadataClient (N : Type 0) : Type 0 where
  pub create_file : String → String → ℕ → ℕ → List String → N → N × Reply (String × List Placement)
  pub commit_file : String → ℕ → N → N × Option ClientError

-- The arguments of `PutChunk`.
pub record PutRequest : Type 0 where
  pub addr : String
  pub chunk_id : String
  pub file_id : String
  pub chunk_index : ℕ
  pub data_bytes : Bytes
  pub checksum : Bytes
  pub replicate_to : List String

-- What a goroutine meets: an error of the read other than the end of the file, the attempts of
-- PutChunk, and the system at the mark.
pub record Work (D : Type 0) : Type 0 where
  pub read : Option ClientError
  pub attempts : Attempts ClientError
  pub mark : ManifestSystem D

-- The service with its clients.
pub record UploadService (D N : Type 0) : Type 0 where
  pub chunk_size : ℕ
  pub policy : Policy
  pub chunking : Chunking
  pub sha256 : Bytes → Bytes
  pub metadata : MetadataClient N
  pub manifests : Manager D

-- The manifests, the log, `done` and `failed`.
pub record Counts (D : Type 0) : Type 0 where
  pub files : Registry D
  pub puts : List (PutRequest × Option ClientError)
  pub done_count : ℕ
  pub failed_count : ℕ

unfoldable pub placement_map : List Placement → Registry Placement → Registry Placement
placement_map [] m = m
placement_map (p ∷ ps) m = placement_map ps (insert p.chunk_id p m)

-- A chunk without a placement has the zero value.
abbrev pub placement_of : Registry Placement → String → Placement
placement_of m c = elim (lookup c m) [
  | some p ↦ p
  | none ↦ record { chunk_id = ""; primary = ""; replicas = [] }
]

-- `file.ReadAt` into a buffer of the chunk's size: fewer bytes come with an error.
abbrev pub read_at : Bytes → ChunkDescriptor → Option ClientError → Reply Bytes
read_at file d (some e) = failed e
read_at file d none =
    if ltb (length file) (d.offset + d.size)
    then failed end_of_file
    else done (take d.size (drop d.offset file))

abbrev pub put_request : (Bytes → Bytes) → ChunkDescriptor → Placement → Bytes → PutRequest
put_request sha256 d p b = record {
  addr = p.primary;
  chunk_id = d.chunk_id;
  file_id = d.file_id;
  chunk_index = d.chunk_index;
  data_bytes = b;
  checksum = sha256 b;
  replicate_to = p.replicas;
}

-- So many calls from attempt `i` on.
unfoldable pub calls_from :
    PutRequest → Attempts ClientError → ℕ → ℕ → List (PutRequest × Option ClientError)
calls_from r a zero i = []
calls_from r a (suc n) i = (r, a.called i) ∷ calls_from r a n (suc i)

module _ {D N : Type 0} (s : UploadService D N) (file : Bytes) where
  unfoldable pub upload_chunk_with_retry :
      ChunkDescriptor
      → Placement
      → Work D
      → List (PutRequest × Option ClientError) × Option ClientError
  upload_chunk_with_retry d p w = elim (read_at file d w.read) [
    | failed e ↦ ([], some e)
    | done b ↦
        let t = policy_do s.policy w.attempts in
        (
          calls_from (put_request s.sha256 d p b) w.attempts t.calls 0,
          elim t.result [
            | succeeded ↦ none
            | stopped e ↦ some e
            | exhausted last ↦ some (with_cause ClientError.exhausted last)
          ],
        )
  ]

  -- A goroutine; an error of the mark is logged only.
  unfoldable pub upload_one :
      String → Registry Placement → ChunkDescriptor × Work D → Counts D → Counts D
  upload_one file_id placements (d, w) n =
      let (sent, r) = upload_chunk_with_retry d (placement_of placements d.chunk_id) w in
      elim r [
        | some e ↦ record n { puts = n.puts ++ sent; failed_count = suc n.failed_count }
        | none ↦ record n {
          files = (mark_chunk_done s.manifests w.mark file_id d.chunk_id n.files).0;
          puts = n.puts ++ sent;
          done_count = suc n.done_count;
        }
      ]

  unfoldable pub upload_all :
      String → Registry Placement → List (ChunkDescriptor × Work D) → Counts D → Counts D
  upload_all file_id placements [] n = n
  upload_all file_id placements (w ∷ ws) n =
      upload_all file_id placements ws (upload_one file_id placements w n)
