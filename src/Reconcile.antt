-- ===== src/Reconcile.antt =====
-- metadata/reconcile/reconciler.go: the comparison of what a restarted node reports with what the
-- state machine expects of it. The timers of `Schedule` and `Cancel` are not modelled; the
-- `DeleteChunk` calls that are sent to the node are collected, since their errors are only logged.
use distributed_fs.Common.{
  ℕ, ◌-◌, String, Bool, true, false, List, [], ◌∷◌, Option, none, some, ltb, leb, length, snoc,
  contains, if◌then◌else◌,
}
use distributed_fs.Fsm.Types.{NodeEntry}
use distributed_fs.Fsm.Commands.{evict_chunk_from_node}
use distributed_fs.Fsm.State.{FsmError, new_error, Result, ok, err, get_node}
use distributed_fs.Fsm.Reads.{get_chunk_locations, get_chunks_by_node}
use distributed_fs.Scheduler.State.{World, Env, propose}
use distributed_fs.Scheduler.Jobs.{lists_node}
pub mod Sync

-- The configured replication factor; an `rf` below 0 is given as 0.
unfoldable pub new_reconciler : ℕ → Result ℕ
new_reconciler rf =
    if leb rf 0 then err (new_error "NewReconciler: replication factor invalid") else ok rf

-- The address and the chunk of a `DeleteChunk` call.
abbrev pub Deletions : Type 0
Deletions = List (String × String)

module _ (env : Env) where
  unfoldable pub propose_eviction : String → String → String → World → World × Option FsmError
  propose_eviction chunk_id node_id reason = propose env (
      evict_chunk_from_node
        (record { chunk_id = chunk_id; node_id = node_id; evicted_at = env.now; reason = reason }))

  -- The call is sent whether or not the eviction succeeds.
  unfoldable pub evict_stale_replica :
      String → String → String → World × Deletions → World × Deletions
  evict_stale_replica node_id node_addr chunk_id (w, sent) = (
    (propose_eviction chunk_id node_id "stale replica during reconciliation" w).0,
    snoc sent (node_addr, chunk_id),
  )

  -- Case 1, over the reported chunks.
  unfoldable pub evict_stale :
      String → String → List String → List String → World × Deletions → World × Deletions
  evict_stale node_id node_addr expected [] acc = acc
  evict_stale node_id node_addr expected (cid ∷ cids) acc =
      evict_stale node_id node_addr expected cids
        (if contains expected cid then acc else evict_stale_replica node_id node_addr cid acc)

module _ (env : Env) (schedule : String → World → World) (rf : ℕ) where
  unfoldable pub handle_missing_replica : String → String → World → World
  handle_missing_replica node_id chunk_id w =
      let (w', e) =
        propose_eviction env chunk_id node_id "missing replica during reconciliation" w in
      elim e [
        | some _ ↦ w'
        | none ↦ elim (get_chunk_locations w'.fsm chunk_id) [
          | err _ ↦ w'
          | ok live_replicas ↦
              let count = length live_replicas in
              let expected = if lists_node node_id live_replicas then count - 1 else count in
              if ltb expected rf then schedule chunk_id w' else w'
        ]
      ]

  -- Case 2, over the expected chunks.
  unfoldable pub handle_missing : String → List String → List String → World → World
  handle_missing node_id reported [] w = w
  handle_missing node_id reported (cid ∷ cids) w =
      handle_missing node_id reported cids
        (if contains reported cid then w else handle_missing_replica node_id cid w)

  unfoldable pub reconcile_node : String → List String → World → World × Deletions
  reconcile_node node_id reported w = elim (get_node w.fsm node_id) [
    | err _ ↦ (w, [])
    | ok node ↦
        let expected = get_chunks_by_node w.fsm node_id in
        let (w', sent) = evict_stale env node_id node.address expected reported (w, []) in
        (handle_missing node_id reported expected w', sent)
  ]
