-- ===== src/Scheduler/Evicts.antt =====
-- `TriggerRepair` takes the dead node out of every replica list, and touches no other replica.
use distributed_fs.Common.{String, not, ◌&&◌, List, [], ◌∷◌, ◌≡◌, refl, ◌∙◌, arith, ◌==◌, contains}
use distributed_fs.Fsm.Commands.{CommandEvictChunkFromNode, evict_chunk_from_node}
use distributed_fs.Fsm.State.{MetadataFsm}
use distributed_fs.Fsm.Apply.{apply_command}
use distributed_fs.Fsm.Reads.{get_chunks_by_node}
use distributed_fs.Fsm.Scans.{has_replica, get_chunks_by_node_exact}
use distributed_fs.Fsm.Replicas.{has_replica-evict}
use distributed_fs.Fsm.Invariant.Links.{Links}
use distributed_fs.Fsm.Invariant.Log.{IsWellFormed, apply_command-IsWellFormed}
use distributed_fs.Scheduler.State.{World, Env}
use distributed_fs.Scheduler.Schedule.{
  propose_evict_chunk, repair_chunk, repair_chunks, trigger_repair,
}
use distributed_fs.Scheduler.Keeps.{repair_chunk-keeps}
use distributed_fs.Scheduler.Frame.{
  Commits, Commits-IsProposer, chunks_view, nodes_view, create-chunks, create-nodes,
  if_missing-view,
}

-- An eviction leaves the nodes as they are.
pub evict-nodes :
    (r : CommandEvictChunkFromNode) (s : MetadataFsm)
    → nodes_view (apply_command (evict_chunk_from_node r) s).0 ≡ nodes_view s
unfolding apply_command
evict-nodes r s = ground arith

module _ (env : Env) (all : Commits env.propose) where
  -- An eviction by proposal.
  pub has_replica-propose_evict :
      (c dead reason : String) (w : World)
      → Links w.fsm
      → (c' n : String)
      → has_replica c' n (propose_evict_chunk env c dead reason w).0.fsm
        ≡ (has_replica c' n w.fsm && not (c == c' && dead == n))
  unfolding propose_evict_chunk apply_command
  has_replica-propose_evict c dead reason w h c' n =
      let cmd : CommandEvictChunkFromNode = record {
        chunk_id = c;
        node_id = dead;
        evicted_at = env.now;
        reason = reason;
      } in
      ground (arith, all (evict_chunk_from_node cmd) w.fsm, has_replica-evict cmd w.fsm h c' n)

  -- One round evicts the dead node from its chunk, and changes no other replica.
  has_replica-repair_chunk :
      (dead c : String) (w : World)
      → Links w.fsm
      → (c' n : String)
      → has_replica c' n (repair_chunk env dead c w).fsm
        ≡ (has_replica c' n w.fsm && not (c == c' && dead == n))
  unfolding repair_chunk
  has_replica-repair_chunk dead c w h c' n = grind (
    arith,
    if_missing-view env all chunks_view create-chunks,
    has_replica-propose_evict c dead "node marked dead" w h c' n,
  )

  -- After the loop the node is gone from the chunks that it went through.
  has_replica-repair_chunks :
      (dead : String) (cs : List String) (w : World)
      → IsWellFormed w.fsm
      → (c' n : String)
      → has_replica c' n (repair_chunks env dead cs w).fsm
        ≡ (has_replica c' n w.fsm && not (contains cs c' && dead == n))
  unfolding repair_chunks
  has_replica-repair_chunks dead [] w h c' n = ground arith
  has_replica-repair_chunks dead (c ∷ cs) w h c' n =
      let w' = repair_chunk env dead c w in
      let h' =
        repair_chunk-keeps env (Commits-IsProposer env.propose all) IsWellFormed
          apply_command-IsWellFormed dead c w h in
      ground (
        arith,
        has_replica-repair_chunks dead cs w' h' c' n,
        has_replica-repair_chunk dead c w h.links c' n,
      )

  repair_chunk-nodes :
      (dead c : String) (w : World) → nodes_view (repair_chunk env dead c w).fsm ≡ nodes_view w.fsm
  unfolding repair_chunk propose_evict_chunk
  repair_chunk-nodes dead c w =
      let cmd : CommandEvictChunkFromNode = record {
        chunk_id = c;
        node_id = dead;
        evicted_at = env.now;
        reason = "node marked dead";
      } in
      grind (
        arith,
        if_missing-view env all nodes_view create-nodes,
        all (evict_chunk_from_node cmd) w.fsm,
        evict-nodes cmd w.fsm,
      )

  repair_chunks-nodes :
      (dead : String) (cs : List String) (w : World)
      → nodes_view (repair_chunks env dead cs w).fsm ≡ nodes_view w.fsm
  unfolding repair_chunks
  repair_chunks-nodes dead [] w = refl
  repair_chunks-nodes dead (c ∷ cs) w = repair_chunks-nodes dead cs _ ∙ repair_chunk-nodes dead c w

  pub trigger_repair-nodes :
      (dead : String) (w : World) → nodes_view (trigger_repair env dead w).fsm ≡ nodes_view w.fsm
  unfolding trigger_repair
  trigger_repair-nodes dead w = repair_chunks-nodes dead _ w

-- If proposals are committed, then after `TriggerRepair` of a node, in a well-formed state, a
-- chunk lists a node exactly if it did before and the node is another one.
pub trigger_repair_evicts :
    (env : Env) (w : World) (dead : String)
    → Commits env.propose
    → IsWellFormed w.fsm
    → (c n : String)
    → has_replica c n (trigger_repair env dead w).fsm ≡ (has_replica c n w.fsm && not (dead == n))
unfolding trigger_repair
trigger_repair_evicts env w dead all h c n = ground (
  arith,
  has_replica-repair_chunks env all dead (get_chunks_by_node w.fsm dead) w h c n,
  get_chunks_by_node_exact w.fsm h.keys dead c,
)
