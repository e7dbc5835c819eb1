-- ===== src/Client/Manifest/Pending.antt =====
-- What a manifest tells of the chunks that are done.
use mathlib.Core.Path.{subst}
use distributed_fs.Common.{
  String, Bool, true, false, not, List, [], ◌∷◌, ◌≡◌, refl, ◌∙◌, Option, none, some, arith,
  contains, ◌==◌, if◌then◌else◌,
}
use distributed_fs.Common.Registry.{
  Registry, lookup, insert, lookup-insert, HasUniqueKeys, insert-HasUniqueKeys,
}
use distributed_fs.Client.Errors.{done}
use distributed_fs.Client.Manifest.{
  UploadManifest, Manager, ManifestSystem, manifest_path, write_locked, create, load,
  mark_chunk_done, pending, get_pending_chunks,
}

-- No call of the system fails.
abbrev pub no_fault : {D : Type 0} → ManifestSystem D
no_fault = record {
  mkdir_all = none;
  read_file = none;
  write_file = none;
  remove = none;
  stat = none;
}

-- A chunk that stands in the map as not done.
abbrev pub is_pending : Option Bool → Bool
is_pending none = false
is_pending (some d) = not d

module _ {D : Type 0} (m : Manager D) where
  -- What encoding/json gives back: the same ID, and a map with the same entries.
  abbrev pub ReadsBack : UploadManifest → Registry Bool → Type 0
  ReadsBack manifest status =
      (manifest' : UploadManifest) × (status' : Registry Bool) × (m.unmarshal (m.marshal manifest)
        ≡ some manifest')
      × (manifest'.file_id ≡ manifest.file_id)
      × (manifest'.chunk_status ≡ some status')
      × HasUniqueKeys status'
      × ((c : String) → lookup c status' ≡ lookup c status)

  abbrev pub IsJson : Type 0
  IsJson =
      (manifest : UploadManifest) (status : Registry Bool)
      → manifest.chunk_status ≡ some status
      → HasUniqueKeys status
      → ReadsBack manifest status

  contains-pending :
      (status : Registry Bool) (c : String)
      → HasUniqueKeys status
      → contains (pending m status) c ≡ is_pending (lookup c status)
  unfolding pending lookup
  contains-pending [] c u = refl
  contains-pending ((k, true) ∷ status) c u = ground (arith, contains-pending status c u.1, u.0)
  contains-pending ((k, false) ∷ status) c u = ground (arith, contains-pending status c u.1)

  -- The manifest of a file is on disk, and these are the entries of its map.
  abbrev pub Records : String → (String → Option Bool) → Registry D → Type 0
  Records file_id entries files =
      (manifest : UploadManifest) × (status : Registry Bool) × (load m no_fault file_id files
        ≡ done manifest)
      × (manifest.file_id ≡ file_id)
      × (manifest.chunk_status ≡ some status)
      × HasUniqueKeys status
      × ((c : String) → lookup c status ≡ entries c)

  pub Records-change :
      (file_id : String) (entries entries' : String → Option Bool) (files files' : Registry D)
      → files ≡ files'
      → ((c : String) → entries c ≡ entries' c)
      → Records file_id entries files
      → Records file_id entries' files'
  Records-change file_id entries entries' files files' e same (manifest, status, l, id, s, u, h) =
      (manifest, status, ground (arith, e, l), id, s, u, λ c. h c ∙ same c)

  write_locked-Records :
      IsJson
      → (manifest : UploadManifest) (status : Registry Bool) (files : Registry D)
        (entries : String → Option Bool)
      → manifest.chunk_status ≡ some status
      → HasUniqueKeys status
      → ((c : String) → lookup c status ≡ entries c)
      → Records manifest.file_id entries (write_locked m no_fault manifest files).0
  unfolding write_locked load
  write_locked-Records json manifest status files entries s u h =
      let (manifest', status', read, id, s', u', same) = json manifest status s u in
      let path = manifest_path m manifest.file_id in
      (
        manifest',
        status',
        ground (arith, lookup-insert path (m.marshal manifest) files path, read),
        id,
        s',
        u',
        λ c. same c ∙ h c,
      )

  pub create-fine :
      (manifest : UploadManifest) (files : Registry D) → (create m no_fault manifest files).1 ≡ none
  unfolding create write_locked
  create-fine manifest files = refl

  pub create-Records :
      IsJson
      → (manifest : UploadManifest) (status : Registry Bool) (files : Registry D)
      → manifest.chunk_status ≡ some status
      → HasUniqueKeys status
      → Records manifest.file_id (λ c. lookup c status) (create m no_fault manifest files).0
  unfolding create
  create-Records json manifest status files s u =
      write_locked-Records json manifest status files (λ c. lookup c status) s u (λ c. refl)

  pub mark_chunk_done-Records :
      IsJson
      → (file_id k : String) (entries : String → Option Bool) (files : Registry D)
      → Records file_id entries files
      → Records file_id
          (λ c. if k == c then some true else entries c)
          (mark_chunk_done m no_fault file_id k files).0
  unfolding mark_chunk_done
  mark_chunk_done-Records json file_id k entries files (manifest, status, l, id, s, u, h) =
      let next : UploadManifest = record manifest { chunk_status = some (insert k true status) } in
      let marked : String → Option Bool = λ c. if k == c then some true else entries c in
      let written =
        write_locked-Records json next (insert k true status) files marked refl
          (insert-HasUniqueKeys k true status u)
          (λ c. ground (arith, lookup-insert k true status c, h c)) in
      subst (λ f. Records file_id marked f) {x = (write_locked m no_fault next files).0}
        {y = (mark_chunk_done m no_fault file_id k files).0} (ground (arith, l, s))
        (subst (λ i. Records i marked (write_locked m no_fault next files).0) id written)

  pub get_pending_chunks-Records :
      (file_id : String) (entries : String → Option Bool) (files : Registry D)
      → Records file_id entries files
      → (ps : List String) × (get_pending_chunks m no_fault file_id files ≡ done ps)
        × ((c : String) → contains ps c ≡ is_pending (entries c))
  unfolding get_pending_chunks
  get_pending_chunks-Records file_id entries files (manifest, status, l, id, s, u, h) = (
    pending m status,
    ground (arith, l, s),
    λ c. ground (arith, contains-pending status c u, h c),
  )
