-- ===== src/Storage/Disk/Sound.antt =====
-- The store counts the space that its chunks use, and every checksum is that of its chunk's file.
use distributed_fs.Common.{
  ℕ, ◌+◌, ◌-◌, ◌≤◌, ◌<◌, String, true, false, ◌≡◌, ◌≢◌, Option, none, some, arith, ◌==◌, Bytes,
  length, ltb, Bool-cases, inl, inr,
}
use distributed_fs.Common.Registry.{
  Registry, lookup, insert, delete, has, HasUniqueKeys, lookup-insert, lookup-delete,
  insert-HasUniqueKeys, delete-HasUniqueKeys,
}
use distributed_fs.Storage.Disk.{
  Layout, DiskStore, u64_mod, is_valid, chunk_path, exists, old_size, unused,
}
use distributed_fs.Storage.Disk.Steps.{stored, deleted}
use distributed_fs.Storage.Disk.Paths.{IsJoin, chunk_path_inj}
use distributed_fs.Storage.Disk.Usage.{
  usage, share, usage_ext, share-le-usage, usage-insert, usage-delete,
}

-- The checksum and the size of the file of a chunk.
abbrev pub file_checksum : Layout → Registry Bytes → String → Option Bytes
file_checksum l files c = elim (lookup (chunk_path l c) files) [
  | none ↦ none
  | some d ↦ some (l.sha256 d)
]

abbrev pub file_size : Layout → Registry Bytes → String → ℕ
file_size l files c = elim (lookup (chunk_path l c) files) [ none ↦ 0 | some d ↦ length d ]

pub record IsSound (l : Layout) (s : DiskStore) : Type 0 where
  pub valid : (c : String) → has c s.checksum_store ≡ true → is_valid l c ≡ true
  pub unique : HasUniqueKeys s.checksum_store
  pub intact :
      (c : String) (h : Bytes)
      → lookup c s.checksum_store ≡ some h
      → file_checksum l s.files c ≡ some h
  pub counted : s.used_space ≡ usage (file_size l s.files) s.checksum_store
  pub fits : s.used_space ≤ l.total_space

module _ (l : Layout) (j : IsJoin l) (bounded : l.total_space < u64_mod) where
  -- A file that is no chunk's leaves everything as it is.
  pub other_file-IsSound :
      (files : Registry Bytes) (s : DiskStore)
      → ((c : String)
          → is_valid l c ≡ true
          → lookup (chunk_path l c) files ≡ lookup (chunk_path l c) s.files)
      → IsSound l s
      → IsSound l (record s { files = files })
  other_file-IsSound files s same h = record {
    valid = h.valid;
    unique = h.unique;
    intact = λ c x e. ground (arith, same c, h.valid c, h.intact c x e);
    counted =
        let ext =
          usage_ext (file_size l s.files) (file_size l files) s.checksum_store h.unique
            (λ c e. ground (arith, same c, h.valid c e)) in
        ground (arith, ext, h.counted);
    fits = h.fits;
  }

  pub chunk_file :
      (c : String) (d : Bytes) (files : Registry Bytes) (k : String)
      → is_valid l c ≡ true
      → is_valid l k ≡ true
      → k ≢ c
      → lookup (chunk_path l k) (insert (chunk_path l c) d files) ≡ lookup (chunk_path l k) files
  chunk_file c d files k vc vk n =
      ground (
        arith,
        lookup-insert (chunk_path l c) d files (chunk_path l k),
        chunk_path_inj l j c k vc vk,
      )

  -- The space counted after a chunk was written.
  recounted :
      (c : String) (d : Bytes) (x : Bytes) (s : DiskStore)
      → IsSound l s
      → is_valid l c ≡ true
      → usage (file_size l (insert (chunk_path l c) d s.files)) (insert c x s.checksum_store)
          + share (file_size l s.files) c s.checksum_store
        ≡ s.used_space + length d
  recounted c d x s h vc =
      let sum =
        usage-insert (file_size l s.files) (file_size l (insert (chunk_path l c) d s.files)) c x
          s.checksum_store h.unique
          (λ k e n. ground (arith, chunk_file c d s.files k vc (h.valid k e) n)) in
      ground (arith, sum, h.counted, lookup-insert (chunk_path l c) d s.files (chunk_path l c))

  -- A chunk that is written with its checksum, with room for it.
  pub stored-IsSound :
      (c : String) (d : Bytes) (s : DiskStore)
      → IsSound l s
      → is_valid l c ≡ true
      → ltb (unused l s) (length d - old_size l none c s) ≡ false
      → IsSound l (stored l c d s.files s)
  unfolding exists
  stored-IsSound c d s h vc room = record {
    valid = λ k e. ground (arith, lookup-insert c (l.sha256 d) s.checksum_store k, h.valid k);
    unique = insert-HasUniqueKeys c (l.sha256 d) s.checksum_store h.unique;
    intact = λ k x e. elim (Bool-cases (k == c)) [
      | inl here ↦ ground (
        arith,
        e,
        here,
        lookup-insert c (l.sha256 d) s.checksum_store k,
        lookup-insert (chunk_path l c) d s.files (chunk_path l k),
      )
      | inr other ↦ ground (
        arith,
        e,
        other,
        lookup-insert c (l.sha256 d) s.checksum_store k,
        h.valid k,
        chunk_file c d s.files k vc,
        h.intact k x,
      )
    ];
    counted = ground (
      arith,
      recounted c d (l.sha256 d) s h vc,
      bounded,
      h.counted,
      h.fits,
      room,
      share-le-usage (file_size l s.files) c s.checksum_store,
    );
    fits = ground (
      arith,
      bounded,
      h.counted,
      h.fits,
      room,
      share-le-usage (file_size l s.files) c s.checksum_store,
    );
  }

  -- A chunk that is deleted with its checksum.
  pub deleted-IsSound :
      (c : String) (d : Bytes) (s : DiskStore)
      → IsSound l s
      → is_valid l c ≡ true
      → exists l c s ≡ true
      → lookup (chunk_path l c) s.files ≡ some d
      → IsSound l (deleted l c d s)
  unfolding exists
  deleted-IsSound c d s h vc there p =
      let fewer = usage-delete (file_size l s.files) c s.checksum_store h.unique in
      let smaller = delete-HasUniqueKeys c s.checksum_store h.unique in
      let same =
        usage_ext (file_size l s.files) (file_size l (delete (chunk_path l c) s.files))
          (delete c s.checksum_store) smaller
          (λ k e. ground (
            arith,
            e,
            lookup-delete c s.checksum_store k,
            h.valid k,
            lookup-delete (chunk_path l c) s.files (chunk_path l k),
            chunk_path_inj l j c k vc,
          )) in
      record {
        valid = λ k e. ground (arith, e, lookup-delete c s.checksum_store k, h.valid k);
        unique = smaller;
        intact = λ k x e. ground (
          arith,
          e,
          lookup-delete c s.checksum_store k,
          h.valid k,
          h.intact k x,
          lookup-delete (chunk_path l c) s.files (chunk_path l k),
          chunk_path_inj l j c k vc,
        );
        counted = ground (arith, same, fewer, h.counted, p, there);
        fits = ground (arith, h.fits);
      }
