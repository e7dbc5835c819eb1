-- ===== src/Client/Upload.antt =====
-- `Upload` of client/internal/service/upload.go. The metadata service is a world `N` with two
-- operations; the errors of the system are inputs.
use distributed_fs.Common.{
  ℕ, suc, ◌+◌, String, Bool, false, List, [], ◌∷◌, Option, none, some, Bytes, length, map, ltb,
  if◌then◌else◌,
}
use distributed_fs.Common.Registry.{Registry, insert}
use distributed_fs.Storage.Errors.{Result, ok, err}
use distributed_fs.Client.Errors.{
  ClientError, Reply, done, failed, empty_file, chunks_failed, not_chunked,
}
use distributed_fs.Client.Chunker.{ChunkDescriptor, generate_descriptors}
use distributed_fs.Client.Manifest.{UploadManifest, ManifestSystem, create, delete_manifest}
use distributed_fs.Client.Transfers.{
  Placement, PutRequest, Work, UploadService, Counts, placement_map, upload_all,
}
pub mod Commits
pub mod Resumes

pub record UploadResult : Type 0 where
  pub file_id : String
  pub file_name : String
  pub total_size : ℕ
  pub chunks_total : ℕ
  pub chunks_done : ℕ
  pub chunks_failed_count : ℕ
  pub error : Option ClientError

-- The system calls of `Upload`, and the goroutines in the order in which they end. `described` is
-- what GenerateDescriptors is told of the size.
pub record Inputs (D : Type 0) : Type 0 where
  pub stat : Reply ℕ
  pub described : Result ℕ
  pub create : ManifestSystem D
  pub open_file : Option ClientError
  pub finished : List ChunkDescriptor → List (ChunkDescriptor × Work D)
  pub delete : ManifestSystem D

-- The manifests, the metadata service, and the calls of PutChunk with what each returned.
pub record World (D N : Type 0) : Type 0 where
  pub files : Registry D
  pub meta : N
  pub puts : List (PutRequest × Option ClientError)

unfoldable pub new_status : List ChunkDescriptor → Registry Bool → Registry Bool
new_status [] status = status
new_status (d ∷ ds) status = new_status ds (insert d.chunk_id false status)

module _ {D N : Type 0} (s : UploadService D N) (file : Bytes) where
  -- What follows the goroutines.
  unfoldable pub finish_upload :
      Inputs D
      → String
      → UploadResult
      → World D N
      → World D N × (Option UploadResult × Option ClientError)
  finish_upload inp file_id result x =
      if ltb 0 result.chunks_failed_count
      then (let e = some (chunks_failed result.chunks_failed_count result.chunks_total) in
          (x, (some (record result { error = e }), e)))
      else let (meta, r) = s.metadata.commit_file result.file_id result.total_size x.meta in
        elim r [
          | some e ↦ (record x { meta = meta }, (some (record result { error = some e }), some e))
          | none ↦ (
            record x {
              meta = meta;
              files = (delete_manifest s.manifests inp.delete file_id x.files).0;
            },
            (some result, none),
          )
        ]

  abbrev pub new_manifest : String → String → ℕ → List ChunkDescriptor → UploadManifest
  new_manifest file_id file_name total ds = record {
    file_id = file_id;
    filename = file_name;
    total_size = total;
    chunk_size = s.chunk_size;
    chunk_status = some (new_status ds []);
  }

  -- The goroutines, and what follows them.
  unfoldable pub upload_placed :
      Inputs D
      → String
      → ℕ
      → String
      → List ChunkDescriptor
      → String × List Placement
      → World D N
      → World D N × (Option UploadResult × Option ClientError)
  upload_placed inp file_name total file_id ds (server_id, placements) x =
      let n : Counts D =
        upload_all s file file_id (placement_map placements []) (inp.finished ds)
          (record { files = x.files; puts = x.puts; done_count = 0; failed_count = 0 }) in
      finish_upload inp file_id
        (record {
          file_id = server_id;
          file_name = file_name;
          total_size = total;
          chunks_total = length ds;
          chunks_done = n.done_count;
          chunks_failed_count = n.failed_count;
          error = none;
        })
        (record x { files = n.files; puts = n.puts })

  -- From the manifest on, given at least one descriptor.
  unfoldable pub upload_descriptors :
      Inputs D
      → String
      → ℕ
      → String
      → List ChunkDescriptor
      → World D N
      → World D N × (Option UploadResult × Option ClientError)
  upload_descriptors inp file_name total file_id ds x =
      let (files, r) =
        create s.manifests inp.create (new_manifest file_id file_name total ds) x.files in
      elim r [
        | some e ↦ (record x { files = files }, (none, some e))
        | none ↦
            (let (meta, p) =
                s.metadata.create_file file_id file_name total s.chunk_size
                  (map (λ d. d.chunk_id) ds) x.meta in
              let y : World D N = record x { files = files; meta = meta } in
              elim p [
                | failed e ↦ (y, (none, some e))
                | done placed ↦ elim inp.open_file [
                  | some e ↦ (y, (none, some e))
                  | none ↦ upload_placed inp file_name total file_id ds placed y
                ]
              ])
      ]

  unfoldable pub upload_chunked :
      Inputs D
      → String
      → ℕ
      → List ChunkDescriptor
      → World D N
      → World D N × (Option UploadResult × Option ClientError)
  upload_chunked inp file_name total [] x = (x, (none, some empty_file))
  upload_chunked inp file_name total (d ∷ ds) x =
      upload_descriptors inp file_name total d.file_id (d ∷ ds) x

  unfoldable pub upload :
      Inputs D → String → World D N → World D N × (Option UploadResult × Option ClientError)
  upload inp file_name x = elim inp.stat [
    | failed e ↦ (x, (none, some e))
    | done total ↦ elim (generate_descriptors s.chunking inp.described s.chunk_size) [
      | err e ↦ (x, (none, some not_chunked))
      | ok ds ↦ upload_chunked inp file_name total ds x
    ]
  ]
