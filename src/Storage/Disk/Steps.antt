-- ===== src/Storage/Disk/Steps.antt =====
-- What an operation of the store does when it fails, and when it succeeds.
use distributed_fs.Common.{◌-◌, String, true, false, ◌≡◌, none, some, arith, Bytes, length, ltb}
use distributed_fs.Common.Registry.{Registry, lookup, insert, delete}
use distributed_fs.Storage.Errors.{StoreError}
use distributed_fs.Storage.Disk.{
  Layout, DiskStore, Os, is_valid, chunk_path, old_size, unused, recount, write, rename,
  delete_chunk, exists,
}

-- The calls of a rename do not fail after which the store's files and its index are out of step.
pub record IsCommitting (os : Os) : Type 0 where
  pub stat_dest : os.stat_dest ≡ none
  pub read_file : os.read_file ≡ none
  pub index_put : os.index_put ≡ none

-- Nor do those of the other calls.
pub record IsSafe (os : Os) : Type 0 where
  pub commits : IsCommitting os
  pub write_file : os.write_file ≡ none
  pub stat : os.stat ≡ none
  pub index_delete : os.index_delete ≡ none

-- The store after a chunk was stored, its files being given.
abbrev pub stored : Layout → String → Bytes → Registry Bytes → DiskStore → DiskStore
stored l c d files s = record {
  files = insert (chunk_path l c) d files;
  checksum_store = insert c (l.sha256 d) s.checksum_store;
  used_space = recount l s.used_space (length d) (old_size l none c s);
}

-- The store after the chunk with the bytes `d` was deleted.
abbrev pub deleted : Layout → String → Bytes → DiskStore → DiskStore
deleted l c d s = record {
  files = delete (chunk_path l c) s.files;
  checksum_store = delete c s.checksum_store;
  used_space = s.used_space - length d;
}

module _ (l : Layout) (os : Os) where
  pub write-failed :
      (c : String) (v : Bytes) (s : DiskStore) (e : StoreError)
      → IsSafe os
      → (write l os c v s).1 ≡ some e
      → (write l os c v s).0 ≡ s
  unfolding write
  write-failed c v s e f h = ground (arith, f.write_file, f.commits.index_put, h)

  pub write-stored :
      (c : String) (v : Bytes) (s : DiskStore)
      → IsSafe os
      → (write l os c v s).1 ≡ none
      → (is_valid l c ≡ true)
        × (ltb (unused l s) (length v - old_size l none c s) ≡ false)
        × ((write l os c v s).0 ≡ stored l c v s.files s)
  unfolding write
  write-stored c v s f h = ground (arith, f.write_file, f.commits.index_put, f.stat, h)

  pub rename-failed :
      (src c : String) (s : DiskStore) (e : StoreError)
      → IsCommitting os
      → (rename l os src c s).1 ≡ some e
      → (rename l os src c s).0 ≡ s
  unfolding rename
  rename-failed src c s e f h = ground (arith, f.read_file, f.index_put, h)

  pub rename-stored :
      (src c : String) (v : Bytes) (s : DiskStore)
      → IsCommitting os
      → lookup src s.files ≡ some v
      → (rename l os src c s).1 ≡ none
      → (is_valid l c ≡ true)
        × (ltb (unused l s) (length v - old_size l none c s) ≡ false)
        × ((rename l os src c s).0 ≡ stored l c v (delete src s.files) s)
  unfolding rename
  rename-stored src c v s f p h = ground (arith, f.read_file, f.index_put, f.stat_dest, p, h)

  pub delete-failed :
      (c : String) (s : DiskStore) (e : StoreError)
      → (delete_chunk l os c s).1 ≡ some e
      → (delete_chunk l os c s).0 ≡ s
  unfolding delete_chunk
  delete-failed c s e h = ground (arith, h)

  pub delete-done :
      (c : String) (d : Bytes) (s : DiskStore)
      → IsSafe os
      → lookup (chunk_path l c) s.files ≡ some d
      → (delete_chunk l os c s).1 ≡ none
      → (is_valid l c ≡ true)
        × (exists l c s ≡ true)
        × ((delete_chunk l os c s).0 ≡ deleted l c d s)
  unfolding delete_chunk
  delete-done c d s f p h = ground (arith, f.index_delete, p, h)
