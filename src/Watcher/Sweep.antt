-- ===== src/Watcher/Sweep.antt =====
-- What a sweep does to the nodes and to the replicas.
use distributed_fs.Common.{
  ltb, ◌+◌, ℕ, String, Bool, true, false, not, ◌&&◌, List, [], ◌∷◌, none, some, ◌≡◌, ◌∙◌, arith,
  ◌==◌, contains, Bool-cases, inl, inr,
}
use distributed_fs.Common.Registry.{lookup, lookup-insert, has}
use distributed_fs.Fsm.Types.{NodeEntry}
use distributed_fs.Fsm.Commands.{CommandMarkNodeDead, mark_node_dead}
use distributed_fs.Fsm.State.{MetadataFsm}
use distributed_fs.Fsm.Apply.{apply_command}
use distributed_fs.Fsm.Reads.{is_alive, get_all_nodes}
use distributed_fs.Fsm.Scans.{alive_at, has_replica, pass, scan_exact}
use distributed_fs.Fsm.Propose.{IsProposer, propose-keeps}
use distributed_fs.Fsm.Invariant.Keys.{node_key}
use distributed_fs.Fsm.Invariant.Log.{IsWellFormed, apply_command-IsWellFormed}
use distributed_fs.Scheduler.State.{World, Env}
use distributed_fs.Scheduler.Schedule.{trigger_repair}
use distributed_fs.Scheduler.Keeps.{trigger-keeps}
use distributed_fs.Scheduler.Frame.{Commits, Commits-IsProposer, chunks_view}
use distributed_fs.Scheduler.Evicts.{trigger_repair_evicts, trigger_repair-nodes}
use distributed_fs.Watcher.{is_stale, bury, sweep_nodes, sweep}

module _ (env : Env) (o : IsProposer env.propose) (timeout : ℕ) where
  bury-IsWellFormed :
      (node : NodeEntry) (w : World)
      → IsWellFormed w.fsm
      → IsWellFormed (bury env (some (trigger_repair env)) timeout node w).fsm
  unfolding bury
  bury-IsWellFormed node w h =
      let cmd = mark_node_dead (record { node_id = node.node_id; updated_at = env.now }) in
      let h' = propose-keeps env.propose o IsWellFormed apply_command-IsWellFormed cmd w.fsm h in
      let go = trigger-keeps env o IsWellFormed apply_command-IsWellFormed in grind (arith, go)

abbrev stale_at : ℕ → ℕ → String → MetadataFsm → Bool
stale_at now timeout n s = elim (lookup n s.node_registry) [
  | some e ↦ is_stale now timeout e
  | none ↦ false
]

mark_dead-alive :
    (r : CommandMarkNodeDead) (s : MetadataFsm) (n : String)
    → alive_at n (apply_command (mark_node_dead r) s).0 ≡ (alive_at n s && not (r.node_id == n))
unfolding apply_command
mark_dead-alive r s n = grind (arith, lookup-insert)

mark_dead-chunks :
    (r : CommandMarkNodeDead) (s : MetadataFsm)
    → chunks_view (apply_command (mark_node_dead r) s).0 ≡ chunks_view s
unfolding apply_command
mark_dead-chunks r s = ground arith

-- The node is registered.
abbrev known : String → MetadataFsm → Bool
known n s = has n s.node_registry

mark_dead-ok :
    (r : CommandMarkNodeDead) (s : MetadataFsm)
    → known r.node_id s ≡ true
    → (apply_command (mark_node_dead r) s).1 ≡ none
unfolding apply_command
mark_dead-ok r s k = ground arith

mark_dead-known :
    (r : CommandMarkNodeDead) (s : MetadataFsm) (n : String)
    → known n (apply_command (mark_node_dead r) s).0 ≡ known n s
unfolding apply_command
mark_dead-known r s n = grind (arith, lookup-insert)

module _ (env : Env) (all : Commits env.propose) (timeout : ℕ) where
  abbrev w_bury : NodeEntry → World → World
  w_bury = bury env (some (trigger_repair env)) timeout

  -- Marking a node dead and repairing its chunks.
  alive-bury :
      (node : NodeEntry) (w : World) (n : String)
      → alive_at n (w_bury node w).fsm ≡ (alive_at n w.fsm && not (node.node_id == n))
  unfolding bury
  alive-bury node w n =
      let r : CommandMarkNodeDead = record { node_id = node.node_id; updated_at = env.now } in
      grind (
        arith,
        all (mark_node_dead r) w.fsm,
        mark_dead-alive r w.fsm n,
        trigger_repair-nodes env all,
      )

  has_replica-bury :
      (node : NodeEntry) (w : World)
      → IsWellFormed w.fsm
      → (c n : String) → known node.node_id w.fsm ≡ true
      → has_replica c n (w_bury node w).fsm ≡ (has_replica c n w.fsm && not (node.node_id == n))
  unfolding bury
  has_replica-bury node w h c n k =
      let r : CommandMarkNodeDead = record { node_id = node.node_id; updated_at = env.now } in
      let w' : World = record w { fsm = (apply_command (mark_node_dead r) w.fsm).0 } in
      grind (
        arith,
        all (mark_node_dead r) w.fsm,
        mark_dead-ok r w.fsm,
        mark_dead-chunks r w.fsm,
        trigger_repair_evicts env w' node.node_id all (apply_command-IsWellFormed _ w.fsm h) c n,
      )

  -- The nodes that a sweep finds stale.
  abbrev stale_ids : List NodeEntry → List String
  stale_ids = pass node_key (is_stale env.now timeout)

  bury-known :
      (node : NodeEntry) (w : World) (n : String) → known n (w_bury node w).fsm ≡ known n w.fsm
  unfolding bury
  bury-known node w n =
      let r : CommandMarkNodeDead = record { node_id = node.node_id; updated_at = env.now } in
      grind (
        arith,
        all (mark_node_dead r) w.fsm,
        mark_dead-known r w.fsm n,
        trigger_repair-nodes env all,
      )

  abbrev AllKnown : List NodeEntry → World → Type 0
  AllKnown ns w = (n : String) → contains (stale_ids ns) n ≡ true → known n w.fsm ≡ true

  sweep_nodes_lem :
      (ns : List NodeEntry) (w : World)
      → IsWellFormed w.fsm
      → AllKnown ns w
      → (n : String)
      → (alive_at n (sweep_nodes env (some (trigger_repair env)) timeout ns w).fsm
          ≡ (alive_at n w.fsm && not (contains (stale_ids ns) n)))
        × ((c : String)
            → has_replica c n (sweep_nodes env (some (trigger_repair env)) timeout ns w).fsm
              ≡ (has_replica c n w.fsm && not (contains (stale_ids ns) n)))
  unfolding sweep_nodes pass
  sweep_nodes_lem [] w h k n = (ground arith, λ c. ground arith)
  sweep_nodes_lem (node ∷ ns) w h k n = elim (Bool-cases (is_stale env.now timeout node)) [
    | inl yes' ↦
        let w' = w_bury node w in
        let h' = bury-IsWellFormed env (Commits-IsProposer env.propose all) timeout node w h in
        let seen = k node.node_id (ground arith) in
        let ih = sweep_nodes_lem ns w' h' (λ m i. bury-known node w m ∙ k m (ground arith)) n in
        rw yes' (
          ground (arith, ih.0, alive-bury node w n),
          λ c. ground (arith, ih.1 c, has_replica-bury node w h c n seen),
        )
    | inr no' ↦
        let ih = sweep_nodes_lem ns w h (λ m i. k m (ground arith)) n in
        rw no' (ground (arith, ih.0), λ c. ground (arith, ih.1 c))
  ]

-- An alive node that was last seen more than the timeout ago.
abbrev pub overdue_at : ℕ → ℕ → String → MetadataFsm → Bool
overdue_at now timeout n s = elim (lookup n s.node_registry) [
  | some e ↦ is_alive e.status && ltb (e.last_seen + timeout) now
  | none ↦ false
]

stale_at-overdue_at :
    (now timeout : ℕ) (n : String) (s : MetadataFsm)
    → stale_at now timeout n s ≡ overdue_at now timeout n s
stale_at-overdue_at now timeout n s = ground arith

-- The sweep of a leader whose proposals are committed, in a well-formed state: a node is alive
-- afterwards exactly if it was alive and not overdue, and a chunk lists a node exactly if it did
-- before and that node was not overdue.
pub sweep_exact :
    (env : Env) (timeout : ℕ) (w : World)
    → Commits env.propose
    → IsWellFormed w.fsm
    → (n : String)
    → let w' = sweep env (some (trigger_repair env)) timeout true w in
      (alive_at n w'.fsm ≡ (alive_at n w.fsm && not (overdue_at env.now timeout n w.fsm)))
      × ((c : String)
          → has_replica c n w'.fsm
            ≡ (has_replica c n w.fsm && not (overdue_at env.now timeout n w.fsm)))
unfolding sweep get_all_nodes
sweep_exact env timeout w all h n =
    let stale = scan_exact node_key (is_stale env.now timeout) w.fsm.node_registry in
    let found =
      sweep_nodes_lem env all timeout (get_all_nodes w.fsm) w h
        (λ m i. ground (arith, stale m h.keys.nodes)) n in
    let late = stale_at-overdue_at env.now timeout n w.fsm in
    (
      ground (arith, found.0, stale n h.keys.nodes, late),
      λ c. ground (arith, found.1 c, stale n h.keys.nodes, late),
    )

sweep_nodes-IsWellFormed :
    (env : Env) (timeout : ℕ) (ns : List NodeEntry) (w : World)
    → IsProposer env.propose
    → IsWellFormed w.fsm
    → IsWellFormed (sweep_nodes env (some (trigger_repair env)) timeout ns w).fsm
unfolding sweep_nodes
sweep_nodes-IsWellFormed env timeout [] w o h = h
sweep_nodes-IsWellFormed env timeout (node ∷ ns) w o h =
    sweep_nodes-IsWellFormed env timeout ns _ o
      (ground (arith, bury-IsWellFormed env o timeout node w h))

-- A sweep keeps the state machine well formed, on a leader or not, whatever Raft does.
pub sweep-IsWellFormed :
    (env : Env) (timeout : ℕ) (is_leader : Bool) (w : World)
    → IsProposer env.propose
    → IsWellFormed w.fsm
    → IsWellFormed (sweep env (some (trigger_repair env)) timeout is_leader w).fsm
unfolding sweep
sweep-IsWellFormed env timeout true w o h = sweep_nodes-IsWellFormed env timeout _ w o h
sweep-IsWellFormed env timeout false w o h = h
