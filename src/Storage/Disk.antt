-- ===== src/Storage/Disk.antt =====
-- storage/store/disk.go: `DiskStore`. What the operating system does in one call of the store is in
-- `Os`, by the call; sha256 and filepath.Join are parameters. A chunk ID is an ASCII text, so that
-- a slice of its bytes is a slice of the text.
use Prim.Native.String.{◌++◌, len, slice}
use text.Mathlib.Text.{find?}
use distributed_fs.Common.{
  ℕ, zero, suc, ◌+◌, ◌-◌, ◌*◌, ◌%◌, ◌^◌, String, Bool, true, false, not, ◌&&◌, ◌||◌, List, [], ◌∷◌,
  Option, none, some, Bytes, bytes_equal, length, ltb, leb, ◌==◌, if◌then◌else◌,
}
use distributed_fs.Common.Registry.{Registry, lookup, insert, delete, has}
use distributed_fs.Storage.Errors.{
  StoreError, invalid_chunk_id, chunk_not_found, insufficient_space, failed_to_delete,
  verify_failed, key_not_found, fault, Result, ok, err,
}
use distributed_fs.Storage.Index.{keys}
pub mod Paths
pub mod Usage
pub mod Steps
pub mod Sound
pub mod Runs
pub mod Reads

abbrev pub u64_mod : ℕ
u64_mod = 2 ^ 64

-- What a store is configured with, and what it uses of the standard library: filepath.Join of some
-- directories and a name, and sha256.
pub record Layout : Type 0 where
  pub root_dir : String
  pub temp_dir : String
  pub split_level : ℕ
  pub total_space : ℕ
  pub join : List String → String → String
  pub sha256 : Bytes → Bytes

-- The files by their paths, the checksum index as a map (Storage/Index), and the space counted.
pub record DiskStore : Type 0 where
  pub files : Registry Bytes
  pub checksum_store : Registry Bytes
  pub used_space : ℕ

-- The error, if any, of each call of the system; a write that fails leaves something in the file.
pub record Os : Type 0 where
  pub create : Option StoreError
  pub seek : Option StoreError
  pub mkdir : Option StoreError
  pub stat : Option StoreError
  pub stat_dest : Option StoreError
  pub write_file : Option (StoreError × Bytes)
  pub sync : Option StoreError
  pub rename : Option StoreError
  pub read_file : Option StoreError
  pub remove : Option StoreError
  pub index_put : Option StoreError
  pub index_delete : Option StoreError

-- Nothing fails.
abbrev pub fine : Os
fine = record {
  create = none;
  seek = none;
  mkdir = none;
  stat = none;
  stat_dest = none;
  write_file = none;
  sync = none;
  rename = none;
  read_file = none;
  remove = none;
  index_put = none;
  index_delete = none;
}

abbrev pub no_such_file : StoreError
no_such_file = fault "no such file or directory"

-- `NewDiskStore`, over the directories and the index that are there: nothing is counted.
unfoldable pub new_disk_store : Registry Bytes → Registry Bytes → DiskStore
new_disk_store files index = record { files = files; checksum_store = index; used_space = 0 }

abbrev pub mentions : String → String → Bool
mentions s t = elim (find? s t) [ some _ ↦ true | none ↦ false ]

-- `getDirForChunkId`: `k` directories from byte `i` on.
unfoldable pub shards : String → ℕ → ℕ → String
shards cid zero i = ""
shards cid (suc k) i = slice cid (i * 2) (i * 2 + 2) ++ "/" ++ shards cid k (suc i)

module _ (l : Layout) where
  -- `validateChunkId` returns no error.
  unfoldable pub is_valid : String → Bool
  is_valid cid =
      not (cid == "")
      && not (ltb (len cid) (2 * l.split_level))
      && not (mentions cid "/" || mentions cid "\\" || mentions cid "..")

  unfoldable pub chunk_path : String → String
  chunk_path cid = l.join (l.root_dir ∷ shards cid l.split_level 0 ∷ []) (cid ++ ".chunk")

  unfoldable pub path_for_chunk : String → Result String
  path_for_chunk cid = if is_valid cid then ok (chunk_path cid) else err invalid_chunk_id

  -- The name has two dots: the format is "%s.%s" and the suffix ".tmp".
  unfoldable pub temp_path : String → String
  temp_path cid = l.join (l.temp_dir ∷ []) (cid ++ "..tmp")

  unfoldable pub temp_dir_for : String → Result String
  temp_dir_for cid = if is_valid cid then ok (temp_path cid) else err invalid_chunk_id

  unfoldable pub exists : String → DiskStore → Bool
  exists cid s = is_valid cid && has cid s.checksum_store

  -- The bytes that the file at a path has, for the accounting; 0 if it cannot be told.
  abbrev pub size_at : Option StoreError → String → DiskStore → ℕ
  size_at (some _) path s = 0
  size_at none path s = elim (lookup path s.files) [ some d ↦ length d | none ↦ 0 ]

  abbrev pub old_size : Option StoreError → String → DiskStore → ℕ
  old_size e cid s = if exists cid s then size_at e (chunk_path cid) s else 0

  -- `ds.totalSpace - ds.usedSpace` on uint64.
  abbrev pub unused : DiskStore → ℕ
  unused s = (l.total_space + u64_mod - s.used_space) % u64_mod

  -- `usedSpace += new - old`, or `usedSpace -= old - new`, on uint64.
  abbrev pub recount : ℕ → ℕ → ℕ → ℕ
  recount used new old =
      if leb old new
      then (used + (new - old)) % u64_mod
      else (used + u64_mod - (old - new)) % u64_mod

  -- The end of `Write` and of `Rename`: the checksum is put, and the space counted.
  abbrev pub record_chunk : Os → String → Bytes → ℕ → DiskStore → DiskStore × Option StoreError
  record_chunk os cid value old s = elim (os.index_put) [
    | some e ↦ (s, some e)
    | none ↦ (
      record s {
        checksum_store = insert cid (l.sha256 value) s.checksum_store;
        used_space = recount s.used_space (length value) old;
      },
      none,
    )
  ]

  unfoldable pub write : Os → String → Bytes → DiskStore → DiskStore × Option StoreError
  write os cid value s =
      let path = chunk_path cid in
      let old = old_size os.stat cid s in
      if not (is_valid cid)
      then (s, some invalid_chunk_id)
      else if ltb (unused s) (length value - old)
      then (s, some insufficient_space)
      else elim (os.mkdir) [
        | some e ↦ (s, some e)
        | none ↦ elim (os.write_file) [
          | some (e, left) ↦ (record s { files = insert path left s.files }, some e)
          | none ↦ record_chunk os cid value old (record s { files = insert path value s.files })
        ]
      ]

  -- The source is read once: it is the file that arrives at the destination.
  unfoldable pub rename : Os → String → String → DiskStore → DiskStore × Option StoreError
  rename os source cid s =
      let dest = chunk_path cid in
      let old = old_size os.stat_dest cid s in
      if not (is_valid cid) then (s, some invalid_chunk_id) else elim (os.stat) [
        | some e ↦ (s, some e)
        | none ↦ elim (lookup source s.files) [
          | none ↦ (s, some no_such_file)
          | some value ↦ elim (os.mkdir) [
            | some e ↦ (s, some e)
            | none ↦
                if ltb (unused s) (length value - old)
                then (s, some insufficient_space)
                else elim (os.sync) [
                  | some e ↦ (s, some e)
                  | none ↦ elim (os.rename) [
                    | some e ↦ (s, some e)
                    | none ↦
                        let s' = record s { files = insert dest value (delete source s.files) } in
                        elim (os.read_file) [
                          | some e ↦ (s', some e)
                          | none ↦ record_chunk os cid value old s'
                        ]
                  ]
                ]
          ]
        ]
      ]

  unfoldable pub read : Os → String → DiskStore → Result Bytes
  read os cid s = if not (exists cid s) then err chunk_not_found else elim (os.read_file) [
    | some e ↦ err e
    | none ↦ elim (lookup (chunk_path cid) s.files) [ none ↦ err no_such_file | some d ↦ ok d ]
  ]

  -- A failure to remove the checksum is only logged.
  unfoldable pub delete_chunk : Os → String → DiskStore → DiskStore × Option StoreError
  delete_chunk os cid s =
      let path = chunk_path cid in
      if not (is_valid cid)
      then (s, some invalid_chunk_id)
      else if not (exists cid s)
      then (s, some chunk_not_found)
      else elim (os.stat) [
        | some e ↦ (s, some e)
        | none ↦ elim (lookup path s.files) [
          | none ↦ (s, some chunk_not_found)
          | some d ↦ elim (os.remove) [
            | some _ ↦ (s, some failed_to_delete)
            | none ↦ (
              record s {
                files = delete path s.files;
                checksum_store = elim (os.index_delete) [
                  | some _ ↦ s.checksum_store
                  | none ↦ delete cid s.checksum_store
                ];
                used_space = s.used_space - length d;
              },
              none,
            )
          ]
        ]
      ]

  unfoldable pub verify : Os → String → DiskStore → Result Bytes
  verify os cid s =
      if not (is_valid cid) then err invalid_chunk_id else elim (lookup cid s.checksum_store) [
        | none ↦ err key_not_found
        | some val ↦ elim (read os cid s) [
          | err e ↦ err e
          | ok d ↦ if bytes_equal (l.sha256 d) val then ok val else err verify_failed
        ]
      ]

  unfoldable pub list_chunks : DiskStore → List String
  list_chunks s = keys s.checksum_store

  unfoldable pub free_space : DiskStore → ℕ
  free_space s = if ltb l.total_space s.used_space then 0 else l.total_space - s.used_space

abbrev pub size : DiskStore → ℕ
size s = s.used_space
