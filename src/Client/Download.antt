-- ===== src/Client/Download.antt =====
-- client/internal/service/download.go. What the metadata service and the storage nodes answer, the
-- sort of the library, the errors of the system and the order in which the goroutines end are
-- inputs; the disk of the client is a map from paths to bytes, and a goroutine is one step.
use distributed_fs.Common.{
  ℕ, suc, ◌*◌, ◌+◌, String, Bool, true, false, not, ◌&&◌, List, [], ◌∷◌, Option, none, some, Bytes,
  bytes_equal, length, take, ltb, leb, if◌then◌else◌,
}
use distributed_fs.Common.Registry.{Registry, lookup, insert, delete}
use distributed_fs.Common.Positions.{write_at, replicate}
use distributed_fs.Client.Errors.{
  ClientError, Reply, done, failed, no_chunks, no_replicas, checksum_mismatch, all_replicas_failed,
  chunks_failed, with_cause,
}
pub mod Failover
pub mod Writes
pub mod Whole

-- `metadataclient.FileInfo` and `metadataclient.ChunkInfo`
pub record FileInfo : Type 0 where
  pub file_id : String
  pub file_name : String
  pub file_size : ℕ
  pub chunk_size : ℕ
  pub chunk_ids : List String
  pub status : String
  pub created_at : ℕ

pub record ChunkInfo : Type 0 where
  pub chunk_id : String
  pub file_id : String
  pub chunk_index : ℕ
  pub size : ℕ
  pub checksum : Bytes
  pub replicas : List String

pub record DownloadResult : Type 0 where
  pub file_id : String
  pub file_name : String
  pub total_size : ℕ
  pub output_path : String
  pub error : Option ClientError

-- What a goroutine meets at a replica: the context's error before the call, and the answer.
pub record Fetch : Type 0 where
  pub cancelled : Option ClientError
  pub got : Reply Bytes

-- What a goroutine meets: at its replicas, by their place, and at the write, which may fail after so
-- many bytes.
pub record Transfer : Type 0 where
  pub fetch : ℕ → String → Fetch
  pub write : Option (ClientError × ℕ)

-- The system calls of `Download` outside the goroutines.
pub record System : Type 0 where
  pub create : Option ClientError
  pub truncate : Option ClientError
  pub remove : Option ClientError

-- `sort.Slice`, and the goroutines in the order in which they end.
pub record Schedule : Type 0 where
  pub sort_slice : List ChunkInfo → List ChunkInfo
  pub finished : List ChunkInfo → List (ChunkInfo × Transfer)

-- How a turn of a loop ends.
pub data Turn : Type 0 where
  returns_error : ClientError → Turn
  takes : Bytes → Turn
  goes_on : ClientError → Turn

-- The output file, `done`, `failed` and `firstErr`.
pub record Progress : Type 0 where
  pub out_file : Bytes
  pub done_count : ℕ
  pub failed_count : ℕ
  pub first_err : Option ClientError

-- The file as it is created and truncated to its size.
abbrev pub preallocated : ℕ → Progress
preallocated size = record {
  out_file = replicate size 0;
  done_count = 0;
  failed_count = 0;
  first_err = none;
}

abbrev pub result_of : FileInfo → String → Option ClientError → DownloadResult
result_of info output_path e = record {
  file_id = info.file_id;
  file_name = info.file_name;
  total_size = info.file_size;
  output_path = output_path;
  error = e;
}

module _ (sha256 : Bytes → Bytes) where
  -- The checksum of the metadata, if there is one, is that of the bytes.
  unfoldable pub is_accepted : ChunkInfo → Bytes → Bool
  is_accepted c b = if ltb 0 (length c.checksum) then bytes_equal (sha256 b) c.checksum else true

  -- One turn of the loop over the replicas: it returns, with bytes or not, or goes on.
  unfoldable pub try_replica : ChunkInfo → Fetch → Turn
  try_replica c f = elim f.cancelled [
    | some e ↦ returns_error e
    | none ↦ elim f.got [
      | failed e ↦ goes_on e
      | done b ↦ if is_accepted c b then takes b else goes_on checksum_mismatch
    ]
  ]

  -- The loop from place `n` on, given the last error.
  unfoldable pub fetch_from :
      ChunkInfo → (ℕ → String → Fetch) → ℕ → Option ClientError → List String → Reply Bytes
  fetch_from c fetch n last [] = failed (with_cause all_replicas_failed last)
  fetch_from c fetch n last (a ∷ rest) = elim (try_replica c (fetch n a)) [
    | returns_error e ↦ failed e
    | takes b ↦ done b
    | goes_on e ↦ fetch_from c fetch (suc n) (some e) rest
  ]

  unfoldable pub download_chunk_with_failover :
      ChunkInfo → ℕ → Transfer → Bytes → Bytes × Option ClientError
  download_chunk_with_failover c chunk_size t file =
      if leb (length c.replicas) 0
      then (file, some no_replicas)
      else elim (fetch_from c t.fetch 0 none c.replicas) [
        | failed e ↦ (file, some e)
        | done b ↦
            let offset = c.chunk_index * chunk_size in
            elim t.write [
              | none ↦ (write_at 0 file offset b, none)
              | some (e, n) ↦ (write_at 0 file offset (take n b), some e)
            ]
      ]

  -- A goroutine.
  unfoldable pub download_one : ℕ → ChunkInfo × Transfer → Progress → Progress
  download_one chunk_size (c, t) p =
      let (file, r) = download_chunk_with_failover c chunk_size t p.out_file in
      elim r [
        | none ↦ record p { out_file = file; done_count = suc p.done_count }
        | some e ↦ record p {
          out_file = file;
          failed_count = suc p.failed_count;
          first_err = elim p.first_err [ none ↦ some e | some e' ↦ some e' ];
        }
      ]

  unfoldable pub download_all : ℕ → List (ChunkInfo × Transfer) → Progress → Progress
  download_all chunk_size [] p = p
  download_all chunk_size (w ∷ ws) p = download_all chunk_size ws (download_one chunk_size w p)

  unfoldable pub download :
      Schedule
      → System
      → Reply (FileInfo × List ChunkInfo)
      → String
      → Registry Bytes
      → Registry Bytes × (Option DownloadResult × Option ClientError)
  download g sys (failed e) output_path files = (files, (none, some e))
  download g sys (done (info, [])) output_path files = (files, (none, some no_chunks))
  download g sys (done (info, c ∷ cs)) output_path files =
      let chunks = g.sort_slice (c ∷ cs) in
      let p = download_all info.chunk_size (g.finished chunks) (preallocated info.file_size) in
      elim sys.create [
        | some e ↦ (files, (none, some e))
        | none ↦ elim sys.truncate [
          | some e ↦ (insert output_path [] files, (none, some e))
          | none ↦
              if ltb 0 p.failed_count
              then (let e =
                    some (with_cause (chunks_failed p.failed_count (length chunks)) p.first_err) in
                  (
                    elim sys.remove [
                      | none ↦ delete output_path files
                      | some _ ↦ insert output_path p.out_file files
                    ],
                    (some (result_of info output_path e), e),
                  ))
              else (
                insert output_path p.out_file files,
                (some (result_of info output_path none), none),
              )
        ]
      ]
