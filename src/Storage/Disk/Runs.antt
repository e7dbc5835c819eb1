-- ===== src/Storage/Disk/Runs.antt =====
-- Runs of operations of a store, from an empty one.
use mathlib.Core.Path.{subst}
use distributed_fs.Common.{
  All, ◌<◌, String, true, List, [], ◌∷◌, ◌≡◌, sym, Option, none, some, arith, Bytes, Option-cases,
  inl, inr,
}
use distributed_fs.Common.Registry.{lookup, insert, delete, lookup-insert, lookup-delete}
use distributed_fs.Storage.Errors.{StoreError}
use distributed_fs.Storage.Disk.{
  Layout, DiskStore, Os, u64_mod, is_valid, chunk_path, temp_path, write, rename, delete_chunk,
  new_disk_store, old_size, exists,
}
use distributed_fs.Storage.Disk.Paths.{IsJoin, temp_path-ne-chunk_path}
use distributed_fs.Storage.Disk.Steps.{
  IsSafe, write-failed, write-stored, rename-failed, rename-stored, delete-failed, delete-done,
}
use distributed_fs.Storage.Disk.Usage.{usage}
use distributed_fs.Storage.Disk.Sound.{IsSound, other_file-IsSound, stored-IsSound, deleted-IsSound}

-- What happens to a store: a call of it, or a change to the temporary file of a valid chunk ID.
pub data Step : Type 0 where
  written : String → Bytes → Step
  renamed : String → String → Step
  deleted_chunk : String → Step
  staged : String → Bytes → Step
  unstaged : String → Step

module _ (l : Layout) where
  unfoldable pub step : Os → Step → DiskStore → DiskStore × Option StoreError
  step os (written c v) s = write l os c v s
  step os (renamed t c) s = rename l os (temp_path l t) c s
  step os (deleted_chunk c) s = delete_chunk l os c s
  step os (staged t v) s = (record s { files = insert (temp_path l t) v s.files }, none)
  step os (unstaged t) s = (record s { files = delete (temp_path l t) s.files }, none)

  unfoldable pub run : List (Os × Step) → DiskStore → DiskStore
  run [] s = s
  run ((os, x) ∷ xs) s = run xs (step os x s).0

  -- The temporary files are those of valid chunk IDs.
  abbrev pub Staged : Step → Type 0
  Staged (written c v) = true ≡ true
  Staged (renamed t c) = is_valid l t ≡ true
  Staged (deleted_chunk c) = true ≡ true
  Staged (staged t v) = is_valid l t ≡ true
  Staged (unstaged t) = is_valid l t ≡ true

module _ (l : Layout) (j : IsJoin l) (bounded : l.total_space < u64_mod) (os : Os) where
  pub staged-IsSound :
      (t : String) (v : Bytes) (s : DiskStore)
      → is_valid l t ≡ true
      → IsSound l s
      → IsSound l (record s { files = insert (temp_path l t) v s.files })
  staged-IsSound t v s vt h =
      other_file-IsSound l j bounded (insert (temp_path l t) v s.files) s
        (λ c vc. ground (
          arith,
          lookup-insert (temp_path l t) v s.files (chunk_path l c),
          temp_path-ne-chunk_path l j t c vt vc,
        ))
        h

  pub unstaged-IsSound :
      (t : String) (s : DiskStore)
      → is_valid l t ≡ true
      → IsSound l s
      → IsSound l (record s { files = delete (temp_path l t) s.files })
  unstaged-IsSound t s vt h =
      other_file-IsSound l j bounded (delete (temp_path l t) s.files) s
        (λ c vc. ground (
          arith,
          lookup-delete (temp_path l t) s.files (chunk_path l c),
          temp_path-ne-chunk_path l j t c vt vc,
        ))
        h

  write-IsSound :
      (c : String) (v : Bytes) (s : DiskStore)
      → IsSafe os
      → IsSound l s
      → IsSound l (write l os c v s).0
  write-IsSound c v s f h = elim (Option-cases (write l os c v s).1) [
    | inl e ↦
        let r = write-stored l os c v s f e in
        subst (λ s'. IsSound l s') (sym r.2) (stored-IsSound l j bounded c v s h r.0 r.1)
    | inr (x, e) ↦ subst (λ s'. IsSound l s') (sym (write-failed l os c v s x f e)) h
  ]

  rename-IsSound :
      (t c : String) (s : DiskStore)
      → IsSafe os
      → is_valid l t ≡ true
      → IsSound l s
      → IsSound l (rename l os (temp_path l t) c s).0
  unfolding rename exists
  rename-IsSound t c s f vt h = elim (Option-cases (rename l os (temp_path l t) c s).1) [
    | inr (x, e) ↦
        subst (λ s'. IsSound l s') (sym (rename-failed l os (temp_path l t) c s x f.commits e)) h
    | inl e ↦ elim (Option-cases (lookup (temp_path l t) s.files)) [
      | inl gone ↦ subst (λ s'. IsSound l s') (ground (arith, e, gone)) h
      | inr (v, there) ↦
          let r = rename-stored l os (temp_path l t) c v s f.commits there e in
          let without : DiskStore = record s { files = delete (temp_path l t) s.files } in
          let same : old_size l none c without ≡ old_size l none c s = ground (
            arith,
            r.0,
            lookup-delete (temp_path l t) s.files (chunk_path l c),
            temp_path-ne-chunk_path l j t c vt,
          ) in
          subst (λ s'. IsSound l s') (ground (arith, r.2, same))
            (stored-IsSound l j bounded c v without (unstaged-IsSound t s vt h) r.0
              (ground (arith, r.1, same)))
    ]
  ]

  delete-IsSound :
      (c : String) (s : DiskStore) → IsSafe os → IsSound l s → IsSound l (delete_chunk l os c s).0
  unfolding delete_chunk
  delete-IsSound c s f h = elim (Option-cases (delete_chunk l os c s).1) [
    | inr (x, e) ↦ subst (λ s'. IsSound l s') (sym (delete-failed l os c s x e)) h
    | inl e ↦ elim (Option-cases (lookup (chunk_path l c) s.files)) [
      | inl gone ↦ subst (λ s'. IsSound l s') (ground (arith, e, gone)) h
      | inr (d, there) ↦
          let r = delete-done l os c d s f there e in
          subst (λ s'. IsSound l s') (sym r.2) (deleted-IsSound l j bounded c d s h r.0 r.1 there)
    ]
  ]

  step-IsSound :
      (x : Step) (s : DiskStore)
      → IsSafe os
      → Staged l x
      → IsSound l s
      → IsSound l (step l os x s).0
  unfolding step
  step-IsSound (written c v) s f g h = write-IsSound c v s f h
  step-IsSound (renamed t c) s f g h = rename-IsSound t c s f g h
  step-IsSound (deleted_chunk c) s f g h = delete-IsSound c s f h
  step-IsSound (staged t v) s f g h = staged-IsSound t v s g h
  step-IsSound (unstaged t) s f g h = unstaged-IsSound t s g h

-- A call that returns an error leaves the store as it was, if no system call fails after which the
-- files and the index are out of step.
pub step-failed :
    (l : Layout) (os : Os) (x : Step) (s : DiskStore) (e : StoreError)
    → IsSafe os
    → (step l os x s).1 ≡ some e
    → (step l os x s).0 ≡ s
unfolding step
step-failed l os (written c v) s e f h = write-failed l os c v s e f h
step-failed l os (renamed t c) s e f h = rename-failed l os (temp_path l t) c s e f.commits h
step-failed l os (deleted_chunk c) s e f h = delete-failed l os c s e h
step-failed l os (staged t v) s e f h = ground (arith, h)
step-failed l os (unstaged t) s e f h = ground (arith, h)

module _ (l : Layout) (j : IsJoin l) (bounded : l.total_space < u64_mod) where
  run-keeps :
      (xs : List (Os × Step)) (s : DiskStore)
      → All (λ x. IsSafe x.0 × Staged l x.1) xs
      → IsSound l s
      → IsSound l (run l xs s)
  unfolding run
  run-keeps [] s g h = h
  run-keeps ((os, x) ∷ xs) s g h =
      run-keeps xs (step l os x s).0 g.1 (step-IsSound l j bounded os x s g.0.0 g.0.1 h)

  -- After any run of a store that began empty, of calls after whose failures the files and the
  -- index agree and of changes to temporary files: the space counted is the sum of the sizes of the
  -- files of the chunks in the index and is within the total, and the checksum of each is that of
  -- its file.
  pub run-IsSound :
      (xs : List (Os × Step))
      → All (λ x. IsSafe x.0 × Staged l x.1) xs
      → IsSound l (run l xs (new_disk_store [] []))
  unfolding new_disk_store lookup usage
  run-IsSound xs g = run-keeps xs (new_disk_store [] []) g (record {
    valid = λ c e. ground arith;
    unique = ground arith;
    intact = λ c x e. ground arith;
    counted = ground arith;
    fits = omega arith;
  })
