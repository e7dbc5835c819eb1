-- ===== src/Client/Upload/Commits.antt =====
-- When an upload commits the file.
use mathlib.Core.List.{Permᴰ}
use mathlib.Core.Path.{subst}
use distributed_fs.Common.{
  ℕ, ◌<◌, String, List, [], ◌∷◌, ◌≡◌, refl, sym, ◌∙◌, none, Bytes, arith, length, map, All, flatten,
  Bool-cases, Option-cases, inl, inr, ltb,
}
use distributed_fs.Common.Orders.{Perm-All}
use distributed_fs.Storage.Errors.{Result, ok, err}
use distributed_fs.Client.Errors.{Reply, done, failed}
use distributed_fs.Client.Chunker.{ChunkDescriptor, generate_descriptors}
use distributed_fs.Client.Chunker.Pieces.{IsCeiling, piece, generate_descriptors-pieces}
use distributed_fs.Client.Manifest.{create}
use distributed_fs.Client.Transfers.{Placement, UploadService, Counts, placement_map, upload_all}
use distributed_fs.Client.Transfers.Sent.{IsSent, upload_all-IsSent}
use distributed_fs.Client.Upload.{
  UploadResult, Inputs, World, finish_upload, new_manifest, upload_placed, upload_descriptors,
  upload_chunked, upload,
}

pub All-map :
    {A B : Type 0} (P : B → Type 0) (f : A → B) (xs : List A)
    → All (λ x. P (f x)) xs
    → All P (map f xs)
All-map P f [] h = tt
All-map P f (x ∷ xs) h = (h.0, All-map P f xs h.1)

pub All-unmap :
    {A B : Type 0} (P : B → Type 0) (f : A → B) (xs : List A)
    → All P (map f xs)
    → All (λ x. P (f x)) xs
All-unmap P f [] h = tt
All-unmap P f (x ∷ xs) h = (h.0, All-unmap P f xs h.1)

-- The goroutines are those of the descriptors, in some order.
abbrev pub IsComplete : {D : Type 0} → Inputs D → Type 0
IsComplete inp = (ds : List ChunkDescriptor) → Permᴰ (map (λ w. w.0) (inp.finished ds)) ds

module _ {D N : Type 0} (s : UploadService D N) (file : Bytes) (inp : Inputs D) (file_name : String)
    (x : World D N) where
  -- What CreateFile does and answers.
  abbrev pub created : ℕ → String → List ChunkDescriptor → N × Reply (String × List Placement)
  created total file_id ds =
      s.metadata.create_file file_id file_name total s.chunk_size (map (λ d. d.chunk_id) ds) x.meta

  finish_upload-IsCommitted :
      (file_id : String) (result : UploadResult) (y : World D N)
      → let z = finish_upload s file inp file_id result y in
        let c = s.metadata.commit_file result.file_id result.total_size y.meta in
        z.1.1 ≡ none
        → (result.chunks_failed_count ≡ 0) × (c.1 ≡ none) × (z.0.meta ≡ c.0) × (z.0.puts ≡ y.puts)
  unfolding finish_upload
  finish_upload-IsCommitted file_id result y h =
      let c = s.metadata.commit_file result.file_id result.total_size y.meta in
      elim (Bool-cases (ltb 0 result.chunks_failed_count)) [
        | inl bad ↦ ground (arith, h, bad)
        | inr good ↦ elim (Option-cases c.1) [
          | inr (e, r) ↦ ground (arith, h, good, r)
          | inl r ↦ (ground (arith, good), r, ground (arith, good, r), ground (arith, good, r))
        ]
      ]

  -- What an upload of these descriptors that returns no error has done.
  abbrev pub IsCommitted : ℕ → String → List ChunkDescriptor → World D N → Type 0
  IsCommitted total file_id ds y =
      (server_id : String) × (placements : List Placement) × ((created total file_id ds).1
        ≡ done (server_id, placements))
      × All (IsSent s file file_id (placement_map placements []) y.puts) ds
      × (let c = s.metadata.commit_file server_id total (created total file_id ds).0 in
          (c.1 ≡ none) × (y.meta ≡ c.0))

  -- The world in which the goroutines start.
  abbrev pub placed_world : ℕ → String → List ChunkDescriptor → World D N
  placed_world total file_id ds = record x {
    files =
        (create s.manifests inp.create (new_manifest s file file_id file_name total ds) x.files).0;
    meta = (created total file_id ds).0;
  }

  -- An upload gets to the goroutines, or returns an error.
  abbrev Placed : ℕ → String → List ChunkDescriptor → Type 0
  Placed total file_id ds =
      (p : String × List Placement) × ((created total file_id ds).1 ≡ done p)
      × (upload_descriptors s file inp file_name total file_id ds x
          ≡ upload_placed s file inp file_name total file_id ds p (placed_world total file_id ds))

  upload_descriptors-Placed :
      (total : ℕ) (file_id : String) (ds : List ChunkDescriptor)
      → (upload_descriptors s file inp file_name total file_id ds x).1.1 ≡ none
      → Placed total file_id ds
  unfolding upload_descriptors
  upload_descriptors-Placed total file_id ds h =
      elim (Option-cases
        (create s.manifests inp.create (new_manifest s file file_id file_name total ds)
          x.files).1) [
            | inr (e, r) ↦ ground (arith, h, r)
            | inl r ↦ go r (created total file_id ds).1 refl
          ]
    where
      go :
          (create s.manifests inp.create (new_manifest s file file_id file_name total ds) x.files).1
            ≡ none
          → (a : Reply (String × List Placement)) → (created total file_id ds).1 ≡ a
          → Placed total file_id ds
      go r (failed e) c = ground (arith, h, r, c)
      go r (done p) c = elim (Option-cases inp.open_file) [
        | inr (e, o) ↦ ground (arith, h, r, c, o)
        | inl o ↦ (p, c, ground (arith, r, c, o))
      ]

  upload_placed-IsCommitted :
      IsComplete inp
      → (total : ℕ) (file_id : String) (ds : List ChunkDescriptor) (p : String × List Placement)
      → let z =
          upload_placed s file inp file_name total file_id ds p (placed_world total file_id ds) in
        (created total file_id ds).1 ≡ done p → z.1.1 ≡ none → IsCommitted total file_id ds z.0
  unfolding upload_placed
  upload_placed-IsCommitted complete total file_id ds (server_id, placements) c h =
      let at = placement_map placements [] in
      let ws = inp.finished ds in
      let y = placed_world total file_id ds in
      let n : Counts D =
        upload_all s file file_id at ws
          (record { files = y.files; puts = y.puts; done_count = 0; failed_count = 0 }) in
      let (none_failed, committed, meta, puts) = finish_upload-IsCommitted file_id _ _ h in
      let sent =
        upload_all-IsSent s file file_id at ws
          (record { files = y.files; puts = y.puts; done_count = 0; failed_count = 0 })
          none_failed in
      let all =
        Perm-All (IsSent s file file_id at n.puts) (complete ds)
          (All-map (IsSent s file file_id at n.puts) (λ w. w.0) ws sent) in
      (
        server_id,
        placements,
        c,
        subst (λ log. All (IsSent s file file_id at log) ds) (sym puts) all,
        (committed, meta),
      )

  -- Both calls of os.Stat tell the size of the file that is read.
  abbrev pub IsStable : Type 0
  IsStable = (inp.stat ≡ done (length file)) × (inp.described ≡ ok (length file))

  -- When the file does not change in the meantime, the quotient is rounded up exactly and the chunk
  -- size is not zero, an upload that returns no error has described chunks whose pieces are the file;
  -- CreateFile has placed them; each has been sent, with its piece of the file and the piece's
  -- checksum, to its primary by a PutChunk that returned no error; and CommitFile, called with the
  -- file's size after CreateFile, has returned no error.
  pub upload-IsCommitted :
      IsStable
      → 0 < s.chunk_size
      → IsCeiling s.chunking (length file) s.chunk_size
      → IsComplete inp
      → (upload s file inp file_name x).1.1 ≡ none
      → (d : ChunkDescriptor) × (ds : List ChunkDescriptor) × (flatten (map (piece file) (d ∷ ds))
          ≡ file)
        × IsCommitted (length file) d.file_id (d ∷ ds) (upload s file inp file_name x).0
  unfolding upload upload_chunked
  upload-IsCommitted (st, de) z ceil complete h =
      go (generate_descriptors s.chunking inp.described s.chunk_size) refl
    where
      go :
          (r : Result (List ChunkDescriptor))
          → generate_descriptors s.chunking inp.described s.chunk_size ≡ r
          → (d : ChunkDescriptor) × (ds : List ChunkDescriptor) × (flatten
                (map (piece file) (d ∷ ds))
              ≡ file)
            × IsCommitted (length file) d.file_id (d ∷ ds) (upload s file inp file_name x).0
      go (err e) g = ground (arith, st, g, h)
      go (ok []) g = ground (arith, st, g, h)
      go (ok (d ∷ ds)) g =
          let start : upload s file inp file_name x
              ≡ upload_descriptors s file inp file_name (length file) d.file_id (d ∷ ds) x =
            ground (arith, st, g) in
          let (p, c, placed) =
            upload_descriptors-Placed (length file) d.file_id (d ∷ ds)
              (subst (λ u. u.1.1 ≡ none) start h) in
          let done_here =
            upload_placed-IsCommitted complete (length file) d.file_id (d ∷ ds) p c
              (subst (λ u. u.1.1 ≡ none) (start ∙ placed) h) in
          (
            d,
            ds,
            (generate_descriptors-pieces s.chunking file s.chunk_size (d ∷ ds) z ceil
                (ground (arith, de, g))).0,
            subst (λ u. IsCommitted (length file) d.file_id (d ∷ ds) u.0) (sym (start ∙ placed))
                done_here,
          )
