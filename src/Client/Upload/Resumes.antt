-- ===== src/Client/Upload/Resumes.antt =====
-- What the manifest of an upload that fails tells.
use mathlib.Core.Path.{subst}
use distributed_fs.Common.{
  ℕ, ◌≤◌, String, Bool, true, false, not, ◌&&◌, List, [], ◌∷◌, ◌≡◌, ◌≢◌, refl, sym, ap, ◌∙◌, Option,
  none, some, Bytes, arith, All, contains, ◌==◌, if◌then◌else◌, Option-cases, inl, inr,
}
use distributed_fs.Common.Registry.{
  Registry, lookup, insert, lookup-insert, HasUniqueKeys, insert-HasUniqueKeys,
}
use distributed_fs.Common.Orders.{any}
use distributed_fs.Storage.Errors.{ok}
use distributed_fs.Client.Errors.{ClientError, done}
use distributed_fs.Client.Chunker.{ChunkDescriptor, generate_descriptors}
use distributed_fs.Client.Manifest.{create, mark_chunk_done, get_pending_chunks}
use distributed_fs.Client.Manifest.Pending.{
  no_fault, IsJson, Records, create-fine, Records-change, create-Records, mark_chunk_done-Records,
  get_pending_chunks-Records,
}
use distributed_fs.Client.Transfers.{
  Placement, Work, UploadService, Counts, placement_of, placement_map, upload_chunk_with_retry,
  upload_one, upload_all,
}
use distributed_fs.Client.Upload.{
  Inputs, World, finish_upload, new_manifest, new_status, upload_placed, upload_descriptors,
  upload_chunked, upload,
}
use distributed_fs.Client.Upload.Commits.{created, placed_world}

abbrev pub has_id : String → ChunkDescriptor → Bool
has_id c d = d.chunk_id == c

new_status-lookup :
    (ds : List ChunkDescriptor) (status : Registry Bool) (c : String)
    → lookup c (new_status ds status) ≡ (if any (has_id c) ds then some false else lookup c status)
unfolding new_status
new_status-lookup [] status c = refl
new_status-lookup (d ∷ ds) status c = ground (
  arith,
  new_status-lookup ds (insert d.chunk_id false status) c,
  lookup-insert d.chunk_id false status c,
)

new_status-HasUniqueKeys :
    (ds : List ChunkDescriptor) (status : Registry Bool)
    → HasUniqueKeys status
    → HasUniqueKeys (new_status ds status)
unfolding new_status
new_status-HasUniqueKeys [] status u = u
new_status-HasUniqueKeys (d ∷ ds) status u =
    new_status-HasUniqueKeys ds (insert d.chunk_id false status)
      (insert-HasUniqueKeys d.chunk_id false status u)

module _ {D N : Type 0} (s : UploadService D N) (file : Bytes)
    (placements : Registry Placement) where
  -- The error of a goroutine.
  abbrev pub chunk_error : ChunkDescriptor × Work D → Option ClientError
  chunk_error (d, w) = (upload_chunk_with_retry s file d (placement_of placements d.chunk_id) w).1

  abbrev pub is_error : ChunkDescriptor × Work D → Bool
  is_error w = elim (chunk_error w) [ none ↦ false | some _ ↦ true ]

  -- A goroutine that has stored the chunk `c`.
  abbrev pub has_stored : String → ChunkDescriptor × Work D → Bool
  has_stored c w = has_id c w.0 && not (is_error w)

  abbrev marked : (String → Option Bool) → List (ChunkDescriptor × Work D) → String → Option Bool
  marked entries ws c = if any (has_stored c) ws then some true else entries c

  module _ (json : IsJson s.manifests) (file_id : String) where
    upload_one-Records :
        (entries : String → Option Bool) (d : ChunkDescriptor) (w : Work D) (n : Counts D)
        → w.mark ≡ no_fault
        → Records s.manifests file_id entries n.files
        → Records s.manifests file_id
            (λ c. if has_stored c (d, w) then some true else entries c)
            (upload_one s file file_id placements (d, w) n).files
    unfolding upload_one
    upload_one-Records entries d w n q r = elim (Option-cases (chunk_error (d, w))) [
      | inl e ↦
          let marking = (mark_chunk_done s.manifests no_fault file_id d.chunk_id n.files).0 in
          Records-change s.manifests file_id (λ c. if d.chunk_id == c then some true else entries c)
            (λ c. if has_stored c (d, w) then some true else entries c) marking
            (upload_one s file file_id placements (d, w) n).files (ground (arith, e, q))
            (λ c. ground (arith, e))
            (mark_chunk_done-Records s.manifests json file_id d.chunk_id entries n.files r)
      | inr (x, e) ↦
          Records-change s.manifests file_id entries
            (λ c. if has_stored c (d, w) then some true else entries c) n.files
            (upload_one s file file_id placements (d, w) n).files (ground (arith, e))
            (λ c. ground (arith, e)) r
    ]

    upload_all-Records :
        (entries : String → Option Bool) (ws : List (ChunkDescriptor × Work D)) (n : Counts D)
        → All (λ w. w.1.mark ≡ no_fault) ws
        → Records s.manifests file_id entries n.files
        → Records s.manifests file_id
            (marked entries ws)
            (upload_all s file file_id placements ws n).files
    unfolding upload_all
    upload_all-Records entries [] n q r = r
    upload_all-Records entries ((d, w) ∷ ws) n q r =
        let next = upload_one s file file_id placements (d, w) n in
        let entries' : String → Option Bool =
          λ c. if has_stored c (d, w) then some true else entries c in
        Records-change s.manifests file_id (marked entries' ws) (marked entries ((d, w) ∷ ws))
          (upload_all s file file_id placements ws next).files
          (upload_all s file file_id placements ws next).files refl (λ c. ground arith)
          (upload_all-Records entries' ws next q.1 (upload_one-Records entries d w n q.0 r))

  upload_one-fails :
      (file_id : String) (w : ChunkDescriptor × Work D) (n : Counts D)
      → let n' = upload_one s file file_id placements w n in
        (n.failed_count ≤ n'.failed_count) × (n'.failed_count ≡ n.failed_count → is_error w ≡ false)
  unfolding upload_one
  upload_one-fails file_id (d, w) n = elim (Option-cases (chunk_error (d, w))) [
    | inl e ↦ ground (arith, e)
    | inr (x, e) ↦ ground (arith, e)
  ]

  upload_all-fails :
      (file_id : String) (ws : List (ChunkDescriptor × Work D)) (n : Counts D)
      → let n' = upload_all s file file_id placements ws n in
        (n.failed_count ≤ n'.failed_count)
        × (n'.failed_count ≡ n.failed_count → any is_error ws ≡ false)
  unfolding upload_all
  upload_all-fails file_id [] n = ground arith
  upload_all-fails file_id (w ∷ ws) n =
      let next = upload_one s file file_id placements w n in
      let (more, none_here) = upload_one-fails file_id w n in
      let (rest, none_there) = upload_all-fails file_id ws next in
      (omega arith, λ same. ground (arith, none_here (omega arith), none_there (omega arith)))

module _ {D N : Type 0} (s : UploadService D N) (file : Bytes) (inp : Inputs D) (file_name : String)
    (x : World D N) where
  -- The chunk `c` is one of the descriptors, and no goroutine has stored it.
  abbrev pub is_missing : List Placement → List ChunkDescriptor → String → Bool
  is_missing placements ds c =
      any (has_id c) ds
      && not (any (has_stored s file (placement_map placements []) c) (inp.finished ds))

  upload_placed-failed :
      (total : ℕ) (file_id : String) (ds : List ChunkDescriptor) (server_id : String)
      (placements : List Placement) (y : World D N)
      → any (is_error s file (placement_map placements [])) (inp.finished ds) ≡ true
      → let z = upload_placed s file inp file_name total file_id ds (server_id, placements) y in
        (z.1.1 ≢ none)
        × (z.0.meta ≡ y.meta)
        × (z.0.files
            ≡ (upload_all s file file_id (placement_map placements []) (inp.finished ds) (record {
              files = y.files;
              puts = y.puts;
              done_count = 0;
              failed_count = 0;
            })).files)
  unfolding upload_placed finish_upload
  upload_placed-failed total file_id ds server_id placements y bad =
      let (more, all_good) =
        upload_all-fails s file (placement_map placements []) file_id (inp.finished ds)
          (record { files = y.files; puts = y.puts; done_count = 0; failed_count = 0 }) in
      ground (arith, bad, more, all_good)

  upload-start :
      (total : ℕ) (d : ChunkDescriptor) (ds : List ChunkDescriptor) (p : String × List Placement)
      → inp.stat ≡ done total
      → generate_descriptors s.chunking inp.described s.chunk_size ≡ ok (d ∷ ds)
      → inp.create ≡ no_fault
      → (created s file inp file_name x total d.file_id (d ∷ ds)).1 ≡ done p
      → inp.open_file ≡ none
      → upload s file inp file_name x
        ≡ upload_placed s file inp file_name total d.file_id
            (d ∷ ds)
            p
            (placed_world s file inp file_name x total d.file_id (d ∷ ds))
  unfolding upload upload_chunked upload_descriptors
  upload-start total d ds p st g cr c o =
      let fine =
        create-fine s.manifests (new_manifest s file d.file_id file_name total (d ∷ ds)) x.files in
      ground (arith, st, g, cr, c, o, fine)

  -- When the descriptors are made, the manifest is written and marked without errors of the system and
  -- reads back, CreateFile answers and the file is opened, an upload of which some chunk fails returns
  -- an error and does not call CommitFile; its manifest is kept, and the chunks that it gives as
  -- pending are exactly those that no goroutine has stored.
  pub upload-resumable :
      (total : ℕ) (d : ChunkDescriptor) (ds : List ChunkDescriptor) (server_id : String)
      (placements : List Placement)
      → IsJson s.manifests
      → inp.stat ≡ done total
      → generate_descriptors s.chunking inp.described s.chunk_size ≡ ok (d ∷ ds)
      → inp.create ≡ no_fault
      → (created s file inp file_name x total d.file_id (d ∷ ds)).1 ≡ done (server_id, placements)
      → inp.open_file ≡ none
      → All (λ w. w.1.mark ≡ no_fault) (inp.finished (d ∷ ds))
      → any (is_error s file (placement_map placements [])) (inp.finished (d ∷ ds)) ≡ true
      → let y = upload s file inp file_name x in
        (y.1.1 ≢ none)
        × (y.0.meta ≡ (created s file inp file_name x total d.file_id (d ∷ ds)).0)
        × (ps : List String) × (get_pending_chunks s.manifests no_fault d.file_id y.0.files
            ≡ done ps)
        × ((c : String) → contains ps c ≡ is_missing placements (d ∷ ds) c)
  unfolding lookup
  upload-resumable total d ds server_id placements json st g cr c o marks bad =
      let all = d ∷ ds in
      let at = placement_map placements [] in
      let y = placed_world s file inp file_name x total d.file_id all in
      let start = upload-start total d ds (server_id, placements) st g cr c o in
      let (error, meta, files) =
        upload_placed-failed total d.file_id all server_id placements y bad in
      let manifest = new_manifest s file d.file_id file_name total all in
      let created_manifest =
        subst
          (λ sys.
            Records s.manifests d.file_id (λ k. lookup k (new_status all []))
              (create s.manifests sys manifest x.files).0)
          (sym cr)
          (create-Records s.manifests json manifest (new_status all []) x.files refl
            (new_status-HasUniqueKeys all [] tt)) in
      let recorded =
        upload_all-Records s file at json d.file_id (λ k. lookup k (new_status all []))
          (inp.finished all)
          (record { files = y.files; puts = y.puts; done_count = 0; failed_count = 0 }) marks
          created_manifest in
      let kept =
        Records-change s.manifests d.file_id _ _ _ (upload s file inp file_name x).0.files
          (sym (ap (λ u. u.0.files) start ∙ files)) (λ k. refl) recorded in
      let (ps, read, pending) = get_pending_chunks-Records s.manifests d.file_id _ _ kept in
      (
        subst (λ u. u.1.1 ≢ none) (sym start) error,
        ap (λ u. u.0.meta) start ∙ meta,
        ps,
        read,
        λ k. ground (arith, pending k, new_status-lookup all [] k),
      )
