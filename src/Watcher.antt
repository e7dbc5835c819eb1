-- ===== src/Watcher.antt =====
-- The sweep of metadata/watcher/node_watcher.go. Leadership, the clock, Raft and the repair are
-- parameters; the clock is read once in a sweep.
use distributed_fs.Common.{
  ℕ, ◌-◌, String, Bool, true, false, ◌&&◌, List, [], ◌∷◌, Option, none, some, ltb, if◌then◌else◌,
}
use distributed_fs.Fsm.Types.{NodeEntry}
use distributed_fs.Fsm.Commands.{mark_node_dead}
use distributed_fs.Fsm.Reads.{is_alive, get_all_nodes}
use distributed_fs.Scheduler.State.{World, Env, propose}
pub mod Sweep
pub mod Restart

-- A node that `sweep` does not pass over: alive, and not seen for more than the timeout. A node
-- seen after `now` has a negative age in Go, and the age 0 here.
abbrev pub is_stale : ℕ → ℕ → NodeEntry → Bool
is_stale now timeout node = is_alive node.status && ltb timeout (now - node.last_seen)

-- `RepairTriggerer`; the watcher may have none.
abbrev pub RepairTriggerer : Type 0
RepairTriggerer = Option (String → World → World)

abbrev pub trigger : RepairTriggerer → String → World → World
trigger none node_id w = w
trigger (some repair) node_id w = repair node_id w

module _ (env : Env) (repair : RepairTriggerer) (timeout : ℕ) where
  -- `CmdMarkNodeDead` and, if that succeeds, the repair.
  unfoldable pub bury : NodeEntry → World → World
  bury node w =
      let (w', e) =
        propose env (mark_node_dead (record { node_id = node.node_id; updated_at = env.now })) w in
      elim e [ some _ ↦ w' | none ↦ trigger repair node.node_id w' ]

  unfoldable pub sweep_nodes : List NodeEntry → World → World
  sweep_nodes [] w = w
  sweep_nodes (node ∷ nodes) w =
      sweep_nodes nodes (if is_stale env.now timeout node then bury node w else w)

  unfoldable pub sweep : Bool → World → World
  sweep is_leader w = if is_leader then sweep_nodes (get_all_nodes w.fsm) w else w
