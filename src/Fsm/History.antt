-- ===== src/Fsm/History.antt =====
-- What no log can bring about.
use distributed_fs.Common.{ℕ, suc, String, List, [], ◌∷◌, ◌≡◌, ◌≢◌, some, arith}
use distributed_fs.Common.Registry.{Registry, lookup, insert, lookup-insert}
use distributed_fs.Fsm.Types.{FileRecord, NodeEntry, NodeStatus, ChunkRecord}
use distributed_fs.Fsm.Commands.{Command, register_node, create_file}
use distributed_fs.Fsm.State.{MetadataFsm, new_empty_metadata_fsm}
use distributed_fs.Fsm.Handlers.Files.{chunk_stub, build_chunk_records, insert_all}
use distributed_fs.Fsm.Apply.{apply_command, Json, replay}
use distributed_fs.Fsm.Invariant.Log.{replay-keeps}

module _ {V : Type 0} (P : V → Type 0) where
  abbrev pub Throughout : Registry V → Type 0
  Throughout m = (k : String) (v : V) → lookup k m ≡ some v → P v

IsUnsized : ChunkRecord → Type 0
IsUnsized ck = (ck.size ≡ 0) × (ck.version ≡ 0)

insert_all-IsUnsized :
    (f : String) (i : ℕ) (cids : List String) (m : Registry ChunkRecord)
    → Throughout IsUnsized m
    → Throughout IsUnsized (insert_all (build_chunk_records f i cids) m)
unfolding insert_all build_chunk_records IsUnsized
insert_all-IsUnsized f i [] m h = h
insert_all-IsUnsized f i (c ∷ cids) m h =
    insert_all-IsUnsized f (suc i) cids (insert c (chunk_stub f i c) m)
      (λ k v e. ground (arith, lookup-insert c (chunk_stub f i c) m k, h k v))

-- No chunk has a size or a version, no file has an update time, and no node is suspect.
record Untouched (s : MetadataFsm) : Type 0 where
  chunks : Throughout IsUnsized s.chunk_registry
  files : Throughout (λ f. f.updated_at ≡ 0) s.file_index
  nodes : Throughout (λ n. n.status ≢ NodeStatus.suspect) s.node_registry

module _ (s : MetadataFsm) (h : Untouched s) where
  untouched_chunks : (x : Command) → Throughout IsUnsized (apply_command x s).0.chunk_registry
  unfolding apply_command IsUnsized
  untouched_chunks (create_file r) k v e = grind (
    arith,
    insert_all-IsUnsized r.file_id 0 r.chunk_ids s.chunk_registry h.chunks k v,
    h.chunks k v,
  )
  untouched_chunks _ k v e = grind (arith, lookup-insert, h.chunks)

  untouched_files :
      (x : Command) → Throughout (λ f. f.updated_at ≡ 0) (apply_command x s).0.file_index
  unfolding apply_command
  untouched_files (create_file r) k v e = grind (arith, lookup-insert, h.files)
  untouched_files _ k v e = grind (arith, lookup-insert, h.files)

  untouched_nodes :
      (x : Command)
      → Throughout (λ n. n.status ≢ NodeStatus.suspect) (apply_command x s).0.node_registry
  unfolding apply_command
  untouched_nodes (register_node r) k v e = λ p. grind (arith, lookup-insert, h.nodes)
  untouched_nodes _ k v e = λ p. grind (arith, lookup-insert, h.nodes)

replay-Untouched :
    {Bytes : Type 0} (j : Json Bytes) (log : List Bytes)
    → Untouched (replay j log new_empty_metadata_fsm)
unfolding lookup
replay-Untouched j log =
    replay-keeps j Untouched
      (λ x s h. record {
        chunks = untouched_chunks s h x;
        files = untouched_files s h x;
        nodes = untouched_nodes s h x;
      })
      log new_empty_metadata_fsm
      (record {
        chunks = λ k v e. absurd (ground arith);
        files = λ k v e. cc;
        nodes = λ k v e. absurd (ground arith);
      })

-- After any log, whatever else it registers, every registered chunk has size 0.
pub replay-chunk_size :
    {Bytes : Type 0} (j : Json Bytes) (log : List Bytes) (c : String) (ck : ChunkRecord)
    → lookup c (replay j log new_empty_metadata_fsm).chunk_registry ≡ some ck
    → ck.size ≡ 0
unfolding IsUnsized
replay-chunk_size j log c ck e = ((replay-Untouched j log).chunks c ck e).0

-- After any log, whatever else it registers, no node is suspect.
pub replay_never_suspect :
    {Bytes : Type 0} (j : Json Bytes) (log : List Bytes) (n : String) (e : NodeEntry)
    → lookup n (replay j log new_empty_metadata_fsm).node_registry ≡ some e
    → e.status ≢ NodeStatus.suspect
replay_never_suspect j log n e = (replay-Untouched j log).nodes n e

-- After any log the update time of every file is the zero time: no command sets it.
pub replay-file_updated_at :
    {Bytes : Type 0} (j : Json Bytes) (log : List Bytes) (k : String) (f : FileRecord)
    → lookup k (replay j log new_empty_metadata_fsm).file_index ≡ some f
    → f.updated_at ≡ 0
replay-file_updated_at j log k f = (replay-Untouched j log).files k f
