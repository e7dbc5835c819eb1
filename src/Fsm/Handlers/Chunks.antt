-- ===== src/Fsm/Handlers/Chunks.antt =====
-- The handlers of the chunk commands.
use distributed_fs.Common.{
  String, List, [], ◌∷◌, ◌++◌, Bool, true, false, not, ◌&&◌, Option, none, some, ◌==◌, contains,
  remove_first, if◌then◌else◌,
}
use distributed_fs.Common.Registry.{Registry, insert}
use distributed_fs.Fsm.Types.{ChunkStatus, NodeEntry}
use distributed_fs.Fsm.Commands.{
  CommandCommitChunk, CommandEvictChunkFromNode, CommandMarkChunkLost, CommandAddChunkReplica,
}
use distributed_fs.Fsm.State.{
  MetadataFsm, FsmError, new_error, join, Result, ok, err, get_chunk, get_node,
}
use distributed_fs.Fsm.Handlers.Files.{is_complete}

-- The scan of `normalizeReplicaNodeIDs`: the ID of the first node with the address, or "".
unfoldable pub resolve_address : Registry NodeEntry → String → String
resolve_address [] entry = ""
resolve_address ((_, node) ∷ m) entry =
    let rest = resolve_address m entry in if node.address == entry then node.node_id else rest

abbrev pub is_ok {ℓ} : {A : Type ℓ} → Result A → Bool
is_ok (ok _) = true
is_ok (err _) = false

-- One round of its loop, over `normalized` and `seen`.
unfoldable pub normalize_entry :
    MetadataFsm → String → List String × List String → List String × List String
normalize_entry s entry (normalized, seen) =
    if contains seen entry
    then (normalized, seen)
    else if is_ok (get_node s entry)
    then (normalized ++ entry ∷ [], entry ∷ seen)
    else let resolved = resolve_address s.node_registry entry in
      if resolved == ""
      then (normalized ++ entry ∷ [], entry ∷ seen)
      else if contains seen resolved
      then (normalized, seen)
      else (normalized ++ resolved ∷ [], resolved ∷ seen)

unfoldable pub normalize_from :
    MetadataFsm → List String → List String × List String → List String × List String
normalize_from s [] acc = acc
normalize_from s (entry ∷ raw) acc = normalize_from s raw (normalize_entry s entry acc)

unfoldable pub normalize_replica_node_ids : MetadataFsm → List String → List String
unfolding normalize_from
normalize_replica_node_ids s raw = (normalize_from s raw ([], [])).0

abbrev pub is_empty {ℓ} : {A : Type ℓ} → List A → Bool
is_empty [] = true
is_empty (_ ∷ _) = false

unfoldable pub handle_commit_chunk :
    CommandCommitChunk → MetadataFsm → MetadataFsm × Option FsmError
handle_commit_chunk req s = elim (get_chunk s req.chunk_id) [
  | err e ↦ (s, some (join "cmdCommitChunk: " e))
  | ok chunk ↦
      if is_empty chunk.checksum && not (is_complete chunk.status)
      then (
        let chunk' = record chunk {
          status = ChunkStatus.complete;
          checksum = req.checksum;
          replicas = normalize_replica_node_ids s req.node_ids;
        } in
            record s { chunk_registry = insert req.chunk_id chunk' s.chunk_registry },
        none,
      )
      else (s, some (new_error "cmdCommitChunk: chunk validation failed"))
]

-- `append(r[:idx], r[idx+1:]...)` at the first index of the node.
unfoldable pub handle_evict_chunk_from_node :
    CommandEvictChunkFromNode → MetadataFsm → MetadataFsm × Option FsmError
handle_evict_chunk_from_node req s = elim (get_chunk s req.chunk_id) [
  | err e ↦ (s, some (join "cmdEvictChunk: " e))
  | ok chunk ↦
      if contains chunk.replicas req.node_id
      then (
        let chunk' = record chunk { replicas = remove_first req.node_id chunk.replicas } in
            record s { chunk_registry = insert req.chunk_id chunk' s.chunk_registry },
        none,
      )
      else (s, some (new_error "cmdEvictChunk: chunk not present on node"))
]

unfoldable pub handle_mark_chunk_lost :
    CommandMarkChunkLost → MetadataFsm → MetadataFsm × Option FsmError
handle_mark_chunk_lost req s = elim (get_chunk s req.chunk_id) [
  | err e ↦ (s, some (join "cmdMarkChunkLost: " e))
  | ok chunk ↦
      let chunk' = record chunk { status = ChunkStatus.lost } in
      (record s { chunk_registry = insert req.chunk_id chunk' s.chunk_registry }, none)
]

unfoldable pub handle_add_chunk_replica :
    CommandAddChunkReplica → MetadataFsm → MetadataFsm × Option FsmError
handle_add_chunk_replica req s = elim (get_chunk s req.chunk_id) [
  | err e ↦ (s, some (join "cmdAddChunkReplica: " e))
  | ok chunk ↦ if contains chunk.replicas req.node_id then (s, none) else (
    let chunk' = record chunk { replicas = chunk.replicas ++ req.node_id ∷ [] } in
        record s { chunk_registry = insert req.chunk_id chunk' s.chunk_registry },
    none,
  )
]
