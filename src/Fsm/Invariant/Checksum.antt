-- ===== src/Fsm/Invariant/Checksum.antt =====
-- The checksum of a chunk is written once.
use distributed_fs.Common.{◌≡◌, refl, String, ℕ, List, [], none, some, false, arith}
use distributed_fs.Common.Registry.{lookup, lookup-insert}
use distributed_fs.Fsm.Commands.{Command, create_file}
use distributed_fs.Fsm.State.{MetadataFsm}
use distributed_fs.Fsm.Handlers.Files.{build_chunk_records}
use distributed_fs.Fsm.Handlers.Chunks.{is_empty}
use distributed_fs.Fsm.Apply.{apply_command, Json, replay}
use distributed_fs.Fsm.Invariant.Stubs.{lookup-insert_all_old}
use distributed_fs.Fsm.Invariant.Log.{replay-keeps}

-- The chunk is registered with this checksum.
abbrev pub checksum_at : String → MetadataFsm → List ℕ
checksum_at c s = elim (lookup c s.chunk_registry) [ some ck ↦ ck.checksum | none ↦ [] ]

apply_command-checksum :
    (c : String) (sum : List ℕ) (x : Command) (s : MetadataFsm)
    → is_empty sum ≡ false
    → checksum_at c s ≡ sum
    → checksum_at c (apply_command x s).0 ≡ sum
unfolding apply_command
apply_command-checksum c sum (create_file r) s n h = grind (
  arith,
  lookup-insert_all_old (build_chunk_records r.file_id 0 r.chunk_ids) s.chunk_registry
      s.chunk_registry c,
)
apply_command-checksum c sum _ s n h = grind (arith, lookup-insert)

-- Once a chunk has a checksum that is not empty, no log changes it: not a second commit, not a
-- file that reuses the chunk ID, not an eviction or a loss.
pub replay-checksum :
    {Bytes : Type 0} (j : Json Bytes) (log : List Bytes) (s : MetadataFsm) (c : String)
    → is_empty (checksum_at c s) ≡ false
    → checksum_at c (replay j log s) ≡ checksum_at c s
replay-checksum j log s c n =
    replay-keeps j (λ t. checksum_at c t ≡ checksum_at c s)
      (λ x t. apply_command-checksum c (checksum_at c s) x t n) log s refl
