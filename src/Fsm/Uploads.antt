-- ===== src/Fsm/Uploads.antt =====
-- The life of a file: created with allocated chunks, committed when they are complete, deleted.
use distributed_fs.Common.{
  ℕ, suc, String, Bool, true, false, ◌&&◌, ◌||◌, List, [], ◌∷◌, ◌≡◌, ◌↔◌, refl, none, some, inl,
  inr, arith, nat_eq, contains, IsDistinct, Option-cases,
}
use distributed_fs.Common.Registry.{Registry, lookup, insert, lookup-insert, has}
use distributed_fs.Fsm.Types.{FileRecord, FileStatus, ChunkRecord, ChunkStatus}
use distributed_fs.Fsm.Commands.{CommandCreateFile, CommandCommitFile, CommandDeleteFile}
use distributed_fs.Fsm.State.{MetadataFsm, ok, get_file}
use distributed_fs.Fsm.Reads.{collect_chunks, get_file_chunks}
use distributed_fs.Fsm.Handlers.Files.{
  chunk_stub, build_chunk_records, has_collision, insert_all, new_file, handle_create_file,
  handle_commit_file, handle_delete_file,
}
use distributed_fs.Fsm.Invariant.Stubs.{all_complete, validate_chunks-none_iff}

-- Some chunk ID of the list is taken.
abbrev pub any_taken : Registry ChunkRecord → List String → Bool
any_taken reg [] = false
any_taken reg (c ∷ cids) = has c reg || any_taken reg cids

has_collision-none_iff :
    (reg : Registry ChunkRecord) (f : String) (i : ℕ) (cids : List String)
    → (has_collision reg (build_chunk_records f i cids) ≡ none) ↔ (any_taken reg cids ≡ false)
unfolding has_collision build_chunk_records
has_collision-none_iff reg f i [] = (λ _. refl, λ _. refl)
has_collision-none_iff reg f i (c ∷ cids) =
    let ih = has_collision-none_iff reg f (suc i) cids in
    (λ h. ground (arith, ih.0), λ h. ground (arith, ih.1))

-- A key that no stub has is left alone by pass 2.
lookup-insert_all_other :
    (f : String) (i : ℕ) (cids : List String) (m : Registry ChunkRecord) (k : String)
    → contains cids k ≡ false
    → lookup k (insert_all (build_chunk_records f i cids) m) ≡ lookup k m
unfolding insert_all build_chunk_records
lookup-insert_all_other f i [] m k h = refl
lookup-insert_all_other f i (c ∷ cids) m k h = ground (
  arith,
  lookup-insert_all_other f (suc i) cids (insert c (chunk_stub f i c) m) k,
  lookup-insert c (chunk_stub f i c) m k,
)

collect-cong :
    (m m' : Registry ChunkRecord) (cids : List String)
    → ((k : String) → contains cids k ≡ true → lookup k m ≡ lookup k m')
    → collect_chunks m cids ≡ collect_chunks m' cids
unfolding collect_chunks
collect-cong m m' [] h = refl
collect-cong m m' (c ∷ cids) h =
    ground (arith, h c, collect-cong m m' cids (λ k e. h k (ground arith)))

-- With distinct chunk IDs the stubs are read back in order.
collect-insert_all :
    (f : String) (i : ℕ) (cids : List String) (m : Registry ChunkRecord)
    → IsDistinct cids
    → collect_chunks (insert_all (build_chunk_records f i cids) m) cids
      ≡ ok (build_chunk_records f i cids)
unfolding collect_chunks insert_all build_chunk_records
collect-insert_all f i [] m d = refl
collect-insert_all f i (c ∷ cids) m d = ground (
  arith,
  collect-insert_all f (suc i) cids (insert c (chunk_stub f i c) m) d.1,
  lookup-insert_all_other f (suc i) cids (insert c (chunk_stub f i c) m) c d.0,
  lookup-insert c (chunk_stub f i c) m c,
)

-- `CmdCreateFile` succeeds exactly if the file ID and all the chunk IDs are new.
pub handle_create_file-ok_iff :
    (r : CommandCreateFile) (s : MetadataFsm)
    → ((handle_create_file r s).1 ≡ none)
      ↔ ((has r.file_id s.file_index || any_taken s.chunk_registry r.chunk_ids) ≡ false)
unfolding handle_create_file
handle_create_file-ok_iff r s =
    let c = has_collision-none_iff s.chunk_registry r.file_id 0 r.chunk_ids in
    (λ h. ground (arith, c.0), λ h. ground (arith, c.1))

-- The records are the first ones of a file: those of these chunk IDs, in this order, numbered from `i`,
-- allocated and with no replica and no checksum.
abbrev pub IsNumbered : String → ℕ → List String → List ChunkRecord → Type 0
IsNumbered f i [] [] = Unit
IsNumbered f i (c ∷ cs) (ck ∷ cks) =
    (ck.chunk_id ≡ c)
    × (ck.file_id ≡ f)
    × (ck.chunk_index ≡ i)
    × (ck.status ≡ ChunkStatus.allocated)
    × (ck.replicas ≡ [])
    × (ck.checksum ≡ [])
    × IsNumbered f (suc i) cs cks
IsNumbered f i cs cks = ⊥

build_chunk_records-IsNumbered :
    (f : String) (i : ℕ) (cids : List String) → IsNumbered f i cids (build_chunk_records f i cids)
unfolding build_chunk_records
build_chunk_records-IsNumbered f i [] = tt
build_chunk_records-IsNumbered f i (c ∷ cids) =
    (refl, refl, refl, refl, refl, refl, build_chunk_records-IsNumbered f (suc i) cids)

-- The file is what the command declares, in the status creating and with no checksum.
abbrev pub IsDeclared : CommandCreateFile → FileRecord → Type 0
IsDeclared r f =
    (f.file_id ≡ r.file_id)
    × (f.filename ≡ r.file_name)
    × (f.file_size ≡ r.file_size)
    × (f.chunk_size ≡ r.chunk_size)
    × (f.chunk_ids ≡ r.chunk_ids)
    × (f.status ≡ FileStatus.creating)
    × (f.checksum ≡ [])

-- After a successful `CmdCreateFile` with distinct chunk IDs, `GetFile` returns a file with the ID,
-- name, sizes and chunk IDs of the command, in the status creating and with no checksum, and
-- `GetFileChunks` returns one allocated chunk of the file for each chunk ID, in the order of the IDs
-- and numbered from 0, with no replica and no checksum.
pub handle_create_file-get_file_chunks :
    (r : CommandCreateFile) (s : MetadataFsm)
    → IsDistinct r.chunk_ids
    → (handle_create_file r s).1 ≡ none
    → let s' = (handle_create_file r s).0 in
      ((f : FileRecord) × (get_file s' r.file_id ≡ ok f) × IsDeclared r f)
      × ((cks : List ChunkRecord) × (get_file_chunks s' r.file_id ≡ ok cks)
          × IsNumbered r.file_id 0 r.chunk_ids cks)
unfolding handle_create_file get_file_chunks
handle_create_file-get_file_chunks r s d h = (
  (
    new_file r,
    ground (arith, lookup-insert r.file_id (new_file r) s.file_index r.file_id),
    (refl, refl, refl, refl, refl, refl, refl),
  ),
  (
    build_chunk_records r.file_id 0 r.chunk_ids,
    ground (
      arith,
      lookup-insert r.file_id (new_file r) s.file_index r.file_id,
      collect-insert_all r.file_id 0 r.chunk_ids s.chunk_registry d,
    ),
    build_chunk_records-IsNumbered r.file_id 0 r.chunk_ids,
  ),
)

-- The file exists with the size, and its chunks are all there and complete.
abbrev pub can_commit : CommandCommitFile → MetadataFsm → Bool
can_commit r s = elim (lookup r.file_id s.file_index) [
  | none ↦ false
  | some f ↦ nat_eq f.file_size r.file_size && all_complete s.chunk_registry f.chunk_ids
]

-- `CmdCommitFile` succeeds exactly if the file exists, was declared with the committed size, and
-- every one of its chunks is registered and complete. The status of the file is not asked.
pub handle_commit_file-ok_iff :
    (r : CommandCommitFile) (s : MetadataFsm)
    → ((handle_commit_file r s).1 ≡ none) ↔ (can_commit r s ≡ true)
unfolding handle_commit_file
handle_commit_file-ok_iff r s = elim (Option-cases (lookup r.file_id s.file_index)) [
  | inl gone ↦ (λ h. ground arith, λ h. ground arith)
  | inr (f, e) ↦
      let v = validate_chunks-none_iff s.chunk_registry f.chunk_ids in
      (λ h. ground (arith, v.0), λ h. ground (arith, v.1))
]

-- The status of a file, if there is one.
abbrev pub HasStatus : FileStatus → String → MetadataFsm → Type 0
HasStatus st id s = (f : FileRecord) × (lookup id s.file_index ≡ some f) × (f.status ≡ st)

-- A deleted file does not stay deleted: after `CmdDeleteFile`, a `CmdCommitFile` that would have
-- been accepted before is accepted still, and the file is complete again.
pub handle_commit_file_revives :
    (d : CommandDeleteFile) (r : CommandCommitFile) (s : MetadataFsm)
    → d.file_id ≡ r.file_id
    → can_commit r s ≡ true
    → let gone = (handle_delete_file d s).0 in
      HasStatus FileStatus.deleted r.file_id gone
      × ((handle_commit_file r gone).1 ≡ none)
      × HasStatus FileStatus.complete r.file_id (handle_commit_file r gone).0
unfolding handle_commit_file handle_delete_file
handle_commit_file_revives d r s e c = elim (Option-cases (lookup r.file_id s.file_index)) [
  | inl gone ↦ absurd (ground arith)
  | inr (f, at') ↦
      let v = validate_chunks-none_iff s.chunk_registry f.chunk_ids in
      let f' = record f { status = FileStatus.deleted } in
      let f'' = record f' { checksum = r.checksum; status = FileStatus.complete } in
      let l = lookup-insert r.file_id f' s.file_index r.file_id in
      (
        (f', ground (arith, l), refl),
        ground (arith, l, v.1),
        (
          f'',
          ground (
            arith,
            l,
            v.1,
            lookup-insert r.file_id f'' (insert r.file_id f' s.file_index) r.file_id,
          ),
          refl,
        ),
      )
]
