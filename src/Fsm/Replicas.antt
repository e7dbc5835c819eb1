-- ===== src/Fsm/Replicas.antt =====
-- The replica lists: what a commit, an addition and an eviction do to them.
use distributed_fs.Common.{
  String, Bool, true, false, not, ◌&&◌, ◌||◌, [], ◌∷◌, ◌++◌, ◌≡◌, ◌≢◌, ◌↔◌, none, some, inl, inr,
  arith, ◌==◌, contains-append, remove_first, contains-remove_first_ne, contains-remove_first_self,
  Option-cases,
}
use distributed_fs.Common.Registry.{lookup, lookup-insert, has}
use distributed_fs.Fsm.Commands.{
  CommandCommitChunk, CommandEvictChunkFromNode, CommandAddChunkReplica,
}
use distributed_fs.Fsm.State.{MetadataFsm}
use distributed_fs.Fsm.Handlers.Files.{is_complete}
use distributed_fs.Fsm.Handlers.Chunks.{
  is_empty, handle_commit_chunk, handle_evict_chunk_from_node, handle_add_chunk_replica,
}
use distributed_fs.Fsm.Scans.{has_replica}
use distributed_fs.Fsm.Invariant.Links.{Links}

-- The chunk is registered, has no checksum and is not complete.
abbrev pub is_open : String → MetadataFsm → Bool
is_open c s = elim (lookup c s.chunk_registry) [
  | none ↦ false
  | some ck ↦ is_empty ck.checksum && not (is_complete ck.status)
]

-- `CmdCommitChunk` succeeds exactly on a registered chunk with no checksum that is not complete.
pub handle_commit_chunk-ok_iff :
    (r : CommandCommitChunk) (s : MetadataFsm)
    → ((handle_commit_chunk r s).1 ≡ none) ↔ (is_open r.chunk_id s ≡ true)
unfolding handle_commit_chunk
handle_commit_chunk-ok_iff r s = (λ h. ground arith, λ h. ground arith)

-- After a successful commit every further commit of that chunk is an error, whatever checksum
-- and nodes either carries.
pub handle_commit_chunk_once :
    (r r' : CommandCommitChunk) (s : MetadataFsm)
    → r'.chunk_id ≡ r.chunk_id
    → (handle_commit_chunk r s).1 ≡ none
    → (handle_commit_chunk r' (handle_commit_chunk r s).0).1 ≢ none
unfolding handle_commit_chunk
handle_commit_chunk_once r r' s e h = grind (arith, lookup-insert)

-- After `CmdAddChunkReplica` a chunk lists a node if it did before, or if they are the chunk and
-- the node of the command and the chunk is registered.
pub has_replica-add :
    (r : CommandAddChunkReplica) (s : MetadataFsm) (c n : String)
    → has_replica c n (handle_add_chunk_replica r s).0
      ≡ (has_replica c n s || (r.chunk_id == c && (r.node_id == n && has c s.chunk_registry)))
unfolding handle_add_chunk_replica
has_replica-add r s c n = elim (Option-cases (lookup r.chunk_id s.chunk_registry)) [
  | inl e ↦ ground arith
  | inr (ck, e) ↦
      let ck' = record ck { replicas = ck.replicas ++ r.node_id ∷ [] } in
      ground (
        arith,
        lookup-insert r.chunk_id ck' s.chunk_registry c,
        contains-append ck.replicas (r.node_id ∷ []) n,
      )
]

-- After `CmdEvictChunkFromNode`, in a state where no chunk lists a node twice, a chunk lists a
-- node if it did before and they are not the chunk and the node of the command.
pub has_replica-evict :
    (r : CommandEvictChunkFromNode) (s : MetadataFsm)
    → Links s
    → (c n : String)
    → has_replica c n (handle_evict_chunk_from_node r s).0
      ≡ (has_replica c n s && not (r.chunk_id == c && r.node_id == n))
unfolding handle_evict_chunk_from_node
has_replica-evict r s h c n = elim (Option-cases (lookup r.chunk_id s.chunk_registry)) [
  | inl e ↦ ground arith
  | inr (ck, e) ↦
      let ck' = record ck { replicas = remove_first r.node_id ck.replicas } in
      ground (
        arith,
        lookup-insert r.chunk_id ck' s.chunk_registry c,
        contains-remove_first_ne ck.replicas r.node_id n,
        contains-remove_first_self ck.replicas r.node_id (h.distinct r.chunk_id ck e),
      )
]

-- Adding a replica a second time changes nothing and has the error or success of the first time.
pub handle_add_chunk_replica_idempotent :
    (r : CommandAddChunkReplica) (s : MetadataFsm)
    → handle_add_chunk_replica r (handle_add_chunk_replica r s).0 ≡ handle_add_chunk_replica r s
unfolding handle_add_chunk_replica
handle_add_chunk_replica_idempotent r s = elim (Option-cases (lookup r.chunk_id s.chunk_registry)) [
  | inl e ↦ ground arith
  | inr (ck, e) ↦
      let ck' = record ck { replicas = ck.replicas ++ r.node_id ∷ [] } in
      ground (
        arith,
        lookup-insert r.chunk_id ck' s.chunk_registry r.chunk_id,
        contains-append ck.replicas (r.node_id ∷ []) r.node_id,
      )
]

-- After `CmdAddChunkReplica` a chunk lists a node if it did before, or if they are those of the
-- command and the chunk is registered, and the same command again changes nothing and returns the
-- same; after `CmdEvictChunkFromNode`, where no chunk lists a node twice, a chunk lists a node if it
-- did before and they are not those of the command.
pub has_replica_changed :
    (a : CommandAddChunkReplica) (r : CommandEvictChunkFromNode) (s : MetadataFsm) (c n : String)
    → Links s
    → (has_replica c n (handle_add_chunk_replica a s).0
        ≡ (has_replica c n s || (a.chunk_id == c && (a.node_id == n && has c s.chunk_registry))))
      × (handle_add_chunk_replica a (handle_add_chunk_replica a s).0 ≡ handle_add_chunk_replica a s)
      × (has_replica c n (handle_evict_chunk_from_node r s).0
          ≡ (has_replica c n s && not (r.chunk_id == c && r.node_id == n)))
has_replica_changed a r s c n h =
    (has_replica-add a s c n, handle_add_chunk_replica_idempotent a s, has_replica-evict r s h c n)
