-- ===== src/Fsm/Invariant/Links.antt =====
-- Files and chunks refer to one another, a complete file has no chunk that is still
-- allocated, and no chunk lists a node twice.
use distributed_fs.Common.{
  String, Bool, true, false, not, inl, inr, Option-cases, List, ◌≡◌, none, some, arith, contains,
  IsDistinct, append-IsDistinct, remove_first-IsDistinct,
}
use distributed_fs.Common.Registry.{Registry, lookup, lookup-insert, has}
use distributed_fs.Fsm.Types.{FileRecord, FileStatus, ChunkRecord, ChunkStatus}
use distributed_fs.Fsm.Commands.{
  Command, create_file, commit_file, commit_chunk, evict_chunk_from_node, add_chunk_replica,
}
use distributed_fs.Fsm.State.{MetadataFsm}
use distributed_fs.Fsm.Handlers.Files.{has_collision, insert_all, validate_chunks}
use distributed_fs.Fsm.Apply.{apply_command}
use distributed_fs.Fsm.Invariant.Normal.{normalize_replica_node_ids-IsDistinct}
use distributed_fs.Fsm.Invariant.Stubs.{
  lookup-insert_all_old, has-insert_all, insert_all_source, validate_chunks-none_iff,
  all_complete_at,
}

abbrev pub is_allocated : ChunkStatus → Bool
is_allocated ChunkStatus.allocated = true
is_allocated _ = false

-- The chunk is there, and not in the status allocated: it was committed, or marked as lost.
abbrev pub is_past_allocated : String → Registry ChunkRecord → Bool
is_past_allocated c m = elim (lookup c m) [ some ck ↦ not (is_allocated ck.status) | none ↦ false ]

insert_all_committed :
    (vals : List ChunkRecord) (m : Registry ChunkRecord) (c : String)
    → has_collision m vals ≡ none
    → is_past_allocated c m ≡ true
    → is_past_allocated c (insert_all vals m) ≡ true
insert_all_committed vals m c n h = elim (Option-cases (lookup c m)) [
  | inl e ↦ absurd (ground arith)
  | inr (ck, e) ↦ rw (lookup-insert_all_old vals m m c ck n e, is_past_allocated) h
]

validated_committed :
    (m : Registry ChunkRecord) (cids : List String) (c : String)
    → validate_chunks m cids ≡ none
    → contains cids c ≡ true
    → is_past_allocated c m ≡ true
validated_committed m cids c n h =
    ground (arith, all_complete_at m cids c ((validate_chunks-none_iff m cids).0 n) h)

pub record Links (s : MetadataFsm) : Type 0 where
  pub file_chunks :
      (k : String) (f : FileRecord) (c : String)
      → lookup k s.file_index ≡ some f
      → contains f.chunk_ids c ≡ true
      → has c s.chunk_registry ≡ true
  pub chunk_files :
      (c : String) (ck : ChunkRecord)
      → lookup c s.chunk_registry ≡ some ck
      → has ck.file_id s.file_index ≡ true
  pub committed :
      (k : String) (f : FileRecord) (c : String)
      → lookup k s.file_index ≡ some f
      → f.status ≡ FileStatus.complete
      → contains f.chunk_ids c ≡ true
      → is_past_allocated c s.chunk_registry ≡ true
  pub distinct :
      (c : String) (ck : ChunkRecord) → lookup c s.chunk_registry ≡ some ck → IsDistinct ck.replicas

module _ (s : MetadataFsm) (h : Links s) where
  links_file_chunks :
      (x : Command) (k : String) (f : FileRecord) (c : String)
      → let s' = (apply_command x s).0 in
        lookup k s'.file_index ≡ some f
        → contains f.chunk_ids c ≡ true
        → has c s'.chunk_registry ≡ true
  unfolding apply_command
  links_file_chunks (create_file r) k f c e m =
      grind (arith, lookup-insert, has-insert_all, h.file_chunks)
  links_file_chunks _ k f c e m = grind (arith, lookup-insert, h.file_chunks)

  links_chunk_files :
      (x : Command) (c : String) (ck : ChunkRecord)
      → let s' = (apply_command x s).0 in
        lookup c s'.chunk_registry ≡ some ck → has ck.file_id s'.file_index ≡ true
  unfolding apply_command
  links_chunk_files (create_file r) c ck e = grind (
    arith,
    lookup-insert,
    insert_all_source r.file_id 0 r.chunk_ids s.chunk_registry c ck,
    h.chunk_files,
  )
  links_chunk_files _ c ck e = grind (arith, lookup-insert, h.chunk_files)

  links_committed :
      (x : Command) (k : String) (f : FileRecord) (c : String)
      → let s' = (apply_command x s).0 in
        lookup k s'.file_index ≡ some f
        → f.status ≡ FileStatus.complete
        → contains f.chunk_ids c ≡ true
        → is_past_allocated c s'.chunk_registry ≡ true
  unfolding apply_command
  links_committed (create_file r) k f c e st m =
      grind (arith, lookup-insert, insert_all_committed, h.committed)
  links_committed (commit_file r) k f c e st m =
      grind (arith, lookup-insert, validated_committed, h.committed)
  links_committed _ k f c e st m = grind (arith, lookup-insert, h.committed k f c)

  links-IsDistinct :
      (x : Command) (c : String) (ck : ChunkRecord)
      → lookup c (apply_command x s).0.chunk_registry ≡ some ck
      → IsDistinct ck.replicas
  unfolding apply_command
  links-IsDistinct (create_file r) c ck e =
      grind (arith, insert_all_source r.file_id 0 r.chunk_ids s.chunk_registry c ck, h.distinct)
  links-IsDistinct (commit_chunk r) c ck e =
      grind (arith, lookup-insert, normalize_replica_node_ids-IsDistinct, h.distinct)
  links-IsDistinct (evict_chunk_from_node r) c ck e =
      grind (arith, lookup-insert, remove_first-IsDistinct, h.distinct)
  links-IsDistinct (add_chunk_replica r) c ck e =
      grind (arith, lookup-insert, append-IsDistinct, h.distinct)
  links-IsDistinct _ c ck e = grind (arith, lookup-insert, h.distinct)

pub apply_command-Links : (x : Command) (s : MetadataFsm) → Links s → Links (apply_command x s).0
apply_command-Links x s h = record {
  file_chunks = links_file_chunks s h x;
  chunk_files = links_chunk_files s h x;
  committed = links_committed s h x;
  distinct = links-IsDistinct s h x;
}
