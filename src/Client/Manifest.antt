-- ===== src/Client/Manifest.antt =====
-- client/internal/manifest/manifest.go. The files are a map from paths to contents of any type `D`;
-- encoding/json and filepath.Join are parameters, the errors of the system inputs. An operation is
-- one step, as under the mutex.
use Prim.Native.String.{◌++◌}
use distributed_fs.Common.{ℕ, String, Bool, true, false, List, [], ◌∷◌, Option, none, some}
use distributed_fs.Common.Registry.{Registry, lookup, insert, delete}
use distributed_fs.Client.Errors.{ClientError, Reply, done, failed, system, malformed, nil_map}
pub mod Pending

-- `chunk_status` is `none` where the map is nil.
pub record UploadManifest : Type 0 where
  pub file_id : String
  pub filename : String
  pub total_size : ℕ
  pub chunk_size : ℕ
  pub chunk_status : Option (Registry Bool)

-- The directory, and what is used of the libraries.
pub record Manager (D : Type 0) : Type 0 where
  pub manifest_dir : String
  pub join : String → String → String
  pub marshal : UploadManifest → D
  pub unmarshal : D → Option UploadManifest

-- The error, if any, of each call of the system. A write that fails may have replaced what the file
-- holds; `remove` is an error other than that there is no such file.
pub record ManifestSystem (D : Type 0) : Type 0 where
  pub mkdir_all : Option ClientError
  pub read_file : Option ClientError
  pub write_file : Option (ClientError × Option D)
  pub remove : Option ClientError
  pub stat : Option ClientError

module _ {D : Type 0} (m : Manager D) where
  unfoldable pub manifest_path : String → String
  manifest_path file_id = m.join m.manifest_dir (file_id ++ ".json")

  unfoldable pub write_locked :
      ManifestSystem D → UploadManifest → Registry D → Registry D × Option ClientError
  write_locked sys manifest files =
      let path = manifest_path manifest.file_id in
      elim sys.write_file [
        | none ↦ (insert path (m.marshal manifest) files, none)
        | some (e, none) ↦ (files, some e)
        | some (e, some torn) ↦ (insert path torn files, some e)
      ]

  unfoldable pub create :
      ManifestSystem D → UploadManifest → Registry D → Registry D × Option ClientError
  create sys manifest files = elim sys.mkdir_all [
    | some e ↦ (files, some e)
    | none ↦ write_locked sys manifest files
  ]

  unfoldable pub load : ManifestSystem D → String → Registry D → Reply UploadManifest
  load sys file_id files = elim sys.read_file [
    | some e ↦ failed e
    | none ↦ elim (lookup (manifest_path file_id) files) [
      | none ↦ failed (system "no such file or directory")
      | some content ↦ elim (m.unmarshal content) [
        | none ↦ failed malformed
        | some manifest ↦ done manifest
      ]
    ]
  ]

  unfoldable pub manifest_exists : ManifestSystem D → String → Registry D → Bool
  manifest_exists sys file_id files = elim sys.stat [
    | some e ↦ false
    | none ↦ elim (lookup (manifest_path file_id) files) [ none ↦ false | some _ ↦ true ]
  ]

  -- It reads the file as `Load` does.
  unfoldable pub mark_chunk_done :
      ManifestSystem D → String → String → Registry D → Registry D × Option ClientError
  mark_chunk_done sys file_id chunk_id files = elim (load sys file_id files) [
    | failed e ↦ (files, some e)
    | done manifest ↦ elim manifest.chunk_status [
      | none ↦ (files, some nil_map)
      | some status ↦
          write_locked sys (record manifest { chunk_status = some (insert chunk_id true status) })
            files
    ]
  ]

  unfoldable pub delete_manifest :
      ManifestSystem D → String → Registry D → Registry D × Option ClientError
  delete_manifest sys file_id files = elim sys.remove [
    | some e ↦ (files, some e)
    | none ↦ (delete (manifest_path file_id) files, none)
  ]

  unfoldable pub pending : Registry Bool → List String
  pending [] = []
  pending ((chunk_id, true) ∷ status) = pending status
  pending ((chunk_id, false) ∷ status) = chunk_id ∷ pending status

  -- A nil map has no entries.
  unfoldable pub get_pending_chunks : ManifestSystem D → String → Registry D → Reply (List String)
  get_pending_chunks sys file_id files = elim (load sys file_id files) [
    | failed e ↦ failed e
    | done manifest ↦ elim manifest.chunk_status [
      | none ↦ done []
      | some status ↦ done (pending status)
    ]
  ]
