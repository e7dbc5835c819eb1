-- ===== src/Fsm/Invariant/Stubs.antt =====
-- The two passes of `handleCmdCreateFile` over the chunk registry.
use distributed_fs.Common.{
  ℕ, suc, String, List, [], ◌∷◌, Bool, true, false, ◌||◌, ◌≡◌, ◌⊎◌, ◌↔◌, ◌&&◌, inl, refl, none,
  some, arith, contains,
}
use distributed_fs.Common.Registry.{Registry, lookup, insert, lookup-insert, has}
use distributed_fs.Fsm.Types.{ChunkRecord, ChunkStatus}
use distributed_fs.Fsm.Handlers.Files.{
  chunk_stub, build_chunk_records, has_collision, insert_all, validate_chunks, is_complete,
}

-- What is at a key before stays there, if pass 1 saw no collision.
pub lookup-insert_all_old :
    (vals : List ChunkRecord) (m reg : Registry ChunkRecord) (k : String) (ck : ChunkRecord)
    → has_collision reg vals ≡ none
    → lookup k reg ≡ some ck
    → lookup k (insert_all vals m) ≡ lookup k m
unfolding has_collision insert_all
lookup-insert_all_old [] m reg k ck n e = refl
lookup-insert_all_old (v ∷ vals) m reg k ck n e = ground (
  arith,
  lookup-insert_all_old vals (insert v.chunk_id v m) reg k ck,
  lookup-insert v.chunk_id v m k,
)

-- A key is filled after pass 2 exactly if it was filled before or a stub has it.
pub has-insert_all :
    (file_id : String) (i : ℕ) (cids : List String) (m : Registry ChunkRecord) (k : String)
    → has k (insert_all (build_chunk_records file_id i cids) m) ≡ (contains cids k || has k m)
unfolding insert_all build_chunk_records
has-insert_all f i [] m k = refl
has-insert_all f i (c ∷ cids) m k = ground (
  arith,
  has-insert_all f (suc i) cids (insert c (chunk_stub f i c) m) k,
  lookup-insert c (chunk_stub f i c) m k,
)

-- A record as pass 2 stores it.
pub record IsStub (file_id : String) (ck : ChunkRecord) : Type 0 where
  pub of_file : ck.file_id ≡ file_id
  pub allocated : ck.status ≡ ChunkStatus.allocated
  pub no_replicas : ck.replicas ≡ []
  pub no_checksum : ck.checksum ≡ []

pub insert_all_source :
    (file_id : String) (i : ℕ) (cids : List String) (m : Registry ChunkRecord)
    → (k : String) (ck : ChunkRecord)
    → lookup k (insert_all (build_chunk_records file_id i cids) m) ≡ some ck
    → (lookup k m ≡ some ck) ⊎ IsStub file_id ck
unfolding insert_all build_chunk_records
insert_all_source f i [] m k ck e = inl e
insert_all_source f i (c ∷ cids) m k ck e = ground (
  arith,
  insert_all_source f (suc i) cids (insert c (chunk_stub f i c) m) k ck e,
  lookup-insert c (chunk_stub f i c) m k,
)

abbrev pub complete_at : String → Registry ChunkRecord → Bool
complete_at cid reg = elim (lookup cid reg) [ some ck ↦ is_complete ck.status | none ↦ false ]

-- The validation passes exactly if every chunk of the file is there and complete.
abbrev pub all_complete : Registry ChunkRecord → List String → Bool
all_complete reg [] = true
all_complete reg (c ∷ cids) = complete_at c reg && all_complete reg cids

pub validate_chunks-none_iff :
    (reg : Registry ChunkRecord) (cids : List String)
    → (validate_chunks reg cids ≡ none) ↔ (all_complete reg cids ≡ true)
unfolding validate_chunks
validate_chunks-none_iff reg [] = (λ _. refl, λ _. refl)
validate_chunks-none_iff reg (c ∷ cids) =
    let ih = validate_chunks-none_iff reg cids in
    (λ h. ground (arith, ih.0), λ h. ground (arith, ih.1))

pub all_complete_at :
    (reg : Registry ChunkRecord) (cids : List String) (cid : String)
    → all_complete reg cids ≡ true
    → contains cids cid ≡ true
    → complete_at cid reg ≡ true
all_complete_at reg [] cid n h = cc
all_complete_at reg (c ∷ cids) cid n h = ground (arith, all_complete_at reg cids cid)
