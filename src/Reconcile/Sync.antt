-- ===== src/Reconcile/Sync.antt =====
-- What a reconciliation leaves: the state machine and the node agree on the chunks of the node.
use distributed_fs.Common.{
  ℕ, String, Bool, false, not, ◌&&◌, ◌||◌, List, [], ◌∷◌, ◌≡◌, arith, ◌==◌, contains, snoc,
  Bool-cases, inl, inr,
}
use distributed_fs.Fsm.State.{ok, get_node}
use distributed_fs.Fsm.Types.{NodeEntry}
use distributed_fs.Fsm.Propose.{IsProposer}
use distributed_fs.Fsm.Reads.{get_chunks_by_node}
use distributed_fs.Fsm.Scans.{has_replica, get_chunks_by_node_exact}
use distributed_fs.Fsm.Invariant.Log.{IsWellFormed, apply_command-IsWellFormed}
use distributed_fs.Scheduler.State.{World, Env}
use distributed_fs.Scheduler.Schedule.{propose_evict_chunk, schedule_repair_for_chunk}
use distributed_fs.Scheduler.Keeps.{for_chunk-keeps, keeps_proposal}
use distributed_fs.Scheduler.Frame.{
  Commits, Commits-IsProposer, chunks_view, create-chunks, for_chunk-view,
}
use distributed_fs.Scheduler.Evicts.{has_replica-propose_evict}
use distributed_fs.Reconcile.{
  Deletions, propose_eviction, evict_stale_replica, handle_missing_replica, evict_stale,
  handle_missing, reconcile_node,
}

module _ (env : Env) (o : IsProposer env.propose) (rf : ℕ) where
  eviction-IsWellFormed :
      (c n r : String) (w : World)
      → IsWellFormed w.fsm
      → IsWellFormed (propose_eviction env c n r w).0.fsm
  unfolding propose_eviction
  eviction-IsWellFormed c n r w h =
      keeps_proposal env o IsWellFormed apply_command-IsWellFormed _ w h

  missing-IsWellFormed :
      (n c : String) (w : World)
      → IsWellFormed w.fsm
      → IsWellFormed (handle_missing_replica env (schedule_repair_for_chunk env) rf n c w).fsm
  unfolding handle_missing_replica
  missing-IsWellFormed n c w h =
      let keep = for_chunk-keeps env o IsWellFormed apply_command-IsWellFormed in
      grind (arith, keep, eviction-IsWellFormed)

-- Is the chunk in one of the calls?
abbrev pub asked : String → Deletions → Bool
asked c [] = false
asked c ((_, d) ∷ ds) = d == c || asked c ds

asked-snoc :
    (a d : String) (ds : Deletions) (c : String) → asked c (snoc ds (a, d)) ≡ (asked c ds || d == c)
asked-snoc a d [] c = ground arith
asked-snoc a d (x ∷ ds) c = ground (arith, asked-snoc a d ds c)

module _ (env : Env) (all : Commits env.propose) (rf : ℕ) (node : String) where
  abbrev evict_one : String → String → World → World
  evict_one c r w = (propose_eviction env c node r w).0

  has_replica-eviction :
      (c r : String) (w : World)
      → IsWellFormed w.fsm
      → (c' n : String)
      → has_replica c' n (evict_one c r w).fsm
        ≡ (has_replica c' n w.fsm && not (c == c' && node == n))
  unfolding propose_eviction propose_evict_chunk
  has_replica-eviction c r w h c' n = has_replica-propose_evict env all c node r w h.links c' n

  has_replica-missing :
      (c : String) (w : World)
      → IsWellFormed w.fsm
      → (c' n : String)
      → has_replica c' n
          (handle_missing_replica env (schedule_repair_for_chunk env) rf node c w).fsm
        ≡ (has_replica c' n w.fsm && not (c == c' && node == n))
  unfolding handle_missing_replica
  has_replica-missing c w h c' n =
      let same = for_chunk-view env all chunks_view create-chunks in
      grind (arith, same, has_replica-eviction c "missing replica during reconciliation" w h c' n)

  abbrev stale_loop : String → List String → List String → World × Deletions → World × Deletions
  stale_loop = evict_stale env node

  abbrev missing_loop : List String → List String → World → World
  missing_loop = handle_missing env (schedule_repair_for_chunk env) rf node

  stale-IsWellFormed :
      (addr : String) (expected cs : List String) (acc : World × Deletions)
      → IsWellFormed acc.0.fsm
      → IsWellFormed (stale_loop addr expected cs acc).0.fsm
  unfolding evict_stale evict_stale_replica
  stale-IsWellFormed addr expected [] acc h = h
  stale-IsWellFormed addr expected (c ∷ cs) (w, sent) h =
      let keep = eviction-IsWellFormed env (Commits-IsProposer env.propose all) rf c node in
      stale-IsWellFormed addr expected cs _ (grind (arith, keep))

  -- Case 1 evicts the node from the reported chunks that are not expected.
  has_replica-stale :
      (addr : String) (expected cs : List String) (acc : World × Deletions)
      → IsWellFormed acc.0.fsm
      → (c' n : String)
      → has_replica c' n (stale_loop addr expected cs acc).0.fsm ≡ (
          has_replica c' n acc.0.fsm
          && not ((contains cs c' && not (contains expected c')) && node == n))
  unfolding evict_stale evict_stale_replica
  has_replica-stale addr expected [] acc h c' n = ground arith
  has_replica-stale addr expected (c ∷ cs) (w, sent) h c' n =
      elim (Bool-cases (contains expected c)) [
        | inl yes' ↦ ground (arith, yes', has_replica-stale addr expected cs (w, sent) h c' n)
        | inr no' ↦
            let r : String = "stale replica during reconciliation" in
            let h' =
              eviction-IsWellFormed env (Commits-IsProposer env.propose all) rf c node r w h in
            ground (
              arith,
              no',
              has_replica-stale addr expected cs (evict_one c r w, snoc sent (addr, c)) h' c' n,
              has_replica-eviction c r w h c' n,
            )
      ]

  -- Case 2 evicts the node from the expected chunks that are not reported.
  has_replica-missing_loop :
      (reported cs : List String) (w : World)
      → IsWellFormed w.fsm
      → (c' n : String)
      → has_replica c' n (missing_loop reported cs w).fsm ≡ (
          has_replica c' n w.fsm
          && not ((contains cs c' && not (contains reported c')) && node == n))
  unfolding handle_missing
  has_replica-missing_loop reported [] w h c' n = ground arith
  has_replica-missing_loop reported (c ∷ cs) w h c' n = elim (Bool-cases (contains reported c)) [
    | inl yes' ↦ ground (arith, yes', has_replica-missing_loop reported cs w h c' n)
    | inr no' ↦
        let w' = handle_missing_replica env (schedule_repair_for_chunk env) rf node c w in
        let h' = missing-IsWellFormed env (Commits-IsProposer env.propose all) rf node c w h in
        ground (
          arith,
          no',
          has_replica-missing_loop reported cs w' h' c' n,
          has_replica-missing c w h c' n,
        )
  ]

  -- The `DeleteChunk` calls go to the reported chunks that are not expected.
  sent-stale :
      (addr : String) (expected cs : List String) (acc : World × Deletions) (c : String)
      → asked c (stale_loop addr expected cs acc).1
        ≡ (asked c acc.1 || (contains cs c && not (contains expected c)))
  unfolding evict_stale evict_stale_replica
  sent-stale addr expected [] acc c = ground arith
  sent-stale addr expected (d ∷ cs) (w, sent) c = elim (Bool-cases (contains expected d)) [
    | inl yes' ↦ ground (arith, yes', sent-stale addr expected cs (w, sent) c)
    | inr no' ↦ ground (
      arith,
      no',
      sent-stale addr expected cs
          (evict_one d "stale replica during reconciliation" w, snoc sent (addr, d)) c,
      asked-snoc addr d sent c,
    )
  ]

-- `ReconcileNode` of a registered node, if proposals are committed and the state is well formed:
-- the node is taken out of the chunks that it did not report, no other replica changes, and
-- `DeleteChunk` is sent for exactly the reported chunks that did not list it.
pub reconcile_node_exact :
    (env : Env) (rf : ℕ) (node_id : String) (reported : List String) (w : World) (e : NodeEntry)
    → Commits env.propose
    → IsWellFormed w.fsm
    → get_node w.fsm node_id ≡ ok e
    → let r = reconcile_node env (schedule_repair_for_chunk env) rf node_id reported w in
      ((c n : String)
        → has_replica c n r.0.fsm
          ≡ (has_replica c n w.fsm && not (not (contains reported c) && node_id == n)))
      × ((c : String) → asked c r.1 ≡ (contains reported c && not (has_replica c node_id w.fsm)))
unfolding reconcile_node
reconcile_node_exact env rf node_id reported w e all h known =
    let expected = get_chunks_by_node w.fsm node_id in
    let acc : World × Deletions = (w, []) in
    let mid = (evict_stale env node_id e.address expected reported acc).0 in
    let h' = stale-IsWellFormed env all rf node_id e.address expected reported acc h in
    let exact = get_chunks_by_node_exact w.fsm h.keys node_id in
    (
      λ c n. ground (
        arith,
        has_replica-missing_loop env all rf node_id reported expected mid h' c n,
        has_replica-stale env all rf node_id e.address expected reported acc h c n,
        exact c,
      ),
      λ c. ground (arith, sent-stale env all rf node_id e.address expected reported acc c, exact c),
    )

-- After the reconciliation of a registered node, if proposals are committed and the state was well
-- formed, the state machine lists the node for a chunk exactly if the node reported the chunk and
-- was not asked to delete it.
pub reconcile_node_in_sync :
    (env : Env) (rf : ℕ) (node_id : String) (reported : List String) (w : World) (e : NodeEntry)
    → Commits env.propose
    → IsWellFormed w.fsm
    → get_node w.fsm node_id ≡ ok e
    → (c : String)
    → let r = reconcile_node env (schedule_repair_for_chunk env) rf node_id reported w in
      has_replica c node_id r.0.fsm ≡ (contains reported c && not (asked c r.1))
reconcile_node_in_sync env rf node_id reported w e all h known c =
    let (lists, calls) = reconcile_node_exact env rf node_id reported w e all h known in
    ground (arith, lists c node_id, calls c)

-- `ReconcileNode` of a registered node, if proposals are committed and the state is well formed:
-- the node is taken out of the chunks that it did not report, no other replica changes,
-- `DeleteChunk` is sent for exactly the reported chunks that did not list it, and then the state
-- machine lists the node for a chunk exactly if the node reported the chunk and was not asked to
-- delete it.
pub reconcile_node_agrees :
    (env : Env) (rf : ℕ) (node_id : String) (reported : List String) (w : World) (e : NodeEntry)
    (c n : String)
    → Commits env.propose
    → IsWellFormed w.fsm
    → get_node w.fsm node_id ≡ ok e
    → let r = reconcile_node env (schedule_repair_for_chunk env) rf node_id reported w in
      (has_replica c n r.0.fsm
        ≡ (has_replica c n w.fsm && not (not (contains reported c) && node_id == n)))
      × (asked c r.1 ≡ (contains reported c && not (has_replica c node_id w.fsm)))
      × (has_replica c node_id r.0.fsm ≡ (contains reported c && not (asked c r.1)))
reconcile_node_agrees env rf node_id reported w e c n all h known =
    let (lists, calls) = reconcile_node_exact env rf node_id reported w e all h known in
    (lists c n, calls c, reconcile_node_in_sync env rf node_id reported w e all h known c)
