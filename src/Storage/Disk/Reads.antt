-- ===== src/Storage/Disk/Reads.antt =====
-- What is read from a store after its operations, and after a restart.
use distributed_fs.Common.{
  ◌+◌, ◌-◌, ◌<◌, String, true, ◌≡◌, refl, none, some, arith, Bytes, length, ◌==◌, bytes_equal_iff,
  if◌then◌else◌, Bool-cases, Option-cases, inl, inr,
}
use distributed_fs.Common.Registry.{Registry, lookup, delete, has, lookup-insert, lookup-delete}
use distributed_fs.Storage.Errors.{chunk_not_found, ok, err}
use distributed_fs.Storage.Disk.{
  Layout, DiskStore, Os, fine, u64_mod, is_valid, chunk_path, temp_path, exists, write, rename,
  read, verify, delete_chunk, new_disk_store, free_space, size,
}
use distributed_fs.Storage.Disk.Paths.{IsJoin, chunk_path_inj, temp_path-ne-chunk_path}
use distributed_fs.Storage.Disk.Steps.{IsSafe, stored, write-stored, rename-stored, delete-done}
use distributed_fs.Storage.Disk.Sound.{IsSound}

module _ (l : Layout) (j : IsJoin l) where
  -- A chunk that was stored is read back and verifies, and every other chunk is read as before.
  pub read-stored :
      (c k : String) (v : Bytes) (files : Registry Bytes) (s : DiskStore)
      → is_valid l c ≡ true
      → (is_valid l k ≡ true → lookup (chunk_path l k) files ≡ lookup (chunk_path l k) s.files)
      → read l fine k (stored l c v files s) ≡ (if c == k then ok v else read l fine k s)
  unfolding read exists
  read-stored c k v files s vc same = elim (Bool-cases (c == k)) [
    | inl here ↦ ground (
      arith,
      here,
      vc,
      lookup-insert c (l.sha256 v) s.checksum_store k,
      lookup-insert (chunk_path l c) v files (chunk_path l k),
    )
    | inr other ↦ ground (
      arith,
      other,
      vc,
      same,
      lookup-insert c (l.sha256 v) s.checksum_store k,
      lookup-insert (chunk_path l c) v files (chunk_path l k),
      chunk_path_inj l j c k vc,
    )
  ]

  -- After a write that returns no error the chunk is read back, and any other chunk as before.
  pub read-write :
      (os : Os) (c k : String) (v : Bytes) (s : DiskStore)
      → IsSafe os
      → (write l os c v s).1 ≡ none
      → read l fine k (write l os c v s).0 ≡ (if c == k then ok v else read l fine k s)
  read-write os c k v s f h =
      let r = write-stored l os c v s f h in
      ground (arith, r.2, read-stored c k v s.files s r.0 (λ _. refl))

  -- After the rename of a temporary file that returns no error the chunk has its bytes, and any
  -- other chunk is read as before.
  pub read-rename :
      (os : Os) (t c k : String) (v : Bytes) (s : DiskStore)
      → IsSafe os
      → is_valid l t ≡ true
      → lookup (temp_path l t) s.files ≡ some v
      → (rename l os (temp_path l t) c s).1 ≡ none
      → read l fine k (rename l os (temp_path l t) c s).0
        ≡ (if c == k then ok v else read l fine k s)
  read-rename os t c k v s f vt p h =
      let r = rename-stored l os (temp_path l t) c v s f.commits p h in
      ground (
        arith,
        r.2,
        read-stored c k v (delete (temp_path l t) s.files) s r.0 (λ vk. ground (
          arith,
          lookup-delete (temp_path l t) s.files (chunk_path l k),
          temp_path-ne-chunk_path l j t k vt vk,
        )),
      )

  -- After a delete that returns no error the chunk is not found, and any other chunk is read as
  -- before.
  pub read-delete_chunk :
      (os : Os) (c k : String) (s : DiskStore)
      → IsSafe os
      → (delete_chunk l os c s).1 ≡ none
      → read l fine k (delete_chunk l os c s).0
        ≡ (if c == k then err chunk_not_found else read l fine k s)
  unfolding read exists delete_chunk
  read-delete_chunk os c k s f h = elim (Option-cases (lookup (chunk_path l c) s.files)) [
    | inl gone ↦ ground (arith, gone, h)
    | inr (d, there) ↦
        let r = delete-done l os c d s f there h in
        ground (
          arith,
          r.2,
          r.0,
          lookup-delete c s.checksum_store k,
          lookup-delete (chunk_path l c) s.files (chunk_path l k),
          chunk_path_inj l j c k r.0,
        )
  ]

module _ (l : Layout) where
  -- In a sound store a chunk that exists is read, and verifies with the checksum of what is read.
  pub verify-IsSound :
      (c : String) (s : DiskStore)
      → IsSound l s
      → exists l c s ≡ true
      → (d : Bytes) × ((read l fine c s ≡ ok d) × (verify l fine c s ≡ ok (l.sha256 d)))
  unfolding read exists verify
  verify-IsSound c s h e = elim (Option-cases (lookup c s.checksum_store)) [
    | inl none_there ↦ ground (arith, e, none_there)
    | inr (x, there) ↦ elim (Option-cases (lookup (chunk_path l c) s.files)) [
      | inl gone ↦ ground (arith, h.intact c x there, gone)
      | inr (d, file) ↦ (
        d,
        (
          ground (arith, e, file),
          ground (arith, e, file, there, h.intact c x there, (bytes_equal_iff (l.sha256 d) x).1),
        ),
      )
    ]
  ]

  -- After a restart nothing is counted: a shorter value written over a chunk then makes the space
  -- counted wrap around, and the store reports that no space is free, however much there is.
  pub write-restart :
      (c : String) (v old : Bytes) (files index : Registry Bytes)
      → l.total_space + length old < u64_mod
      → is_valid l c ≡ true
      → has c index ≡ true
      → lookup (chunk_path l c) files ≡ some old
      → length v < length old
      → let s = (write l fine c v (new_disk_store files index)).0 in
        (size s ≡ u64_mod - (length old - length v)) × (free_space l s ≡ 0)
  unfolding write exists new_disk_store free_space
  write-restart c v old files index b vc there file shorter =
      ground (arith, b, vc, there, file, shorter)
