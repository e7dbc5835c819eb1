-- ===== src/Tests/Repair.antt =====
-- The theorems about repair at the sample cluster.
use distributed_fs.Common.{
  ℕ, zero, suc, String, List, [], ◌∷◌, ◌++◌, ◌≡◌, refl, true, not, ◌&&◌, ◌==◌, some, contains,
}
use distributed_fs.Fsm.Apply.{apply_command}
use distributed_fs.Fsm.Invariant.Log.{IsWellFormed, replay-IsWellFormed}
use distributed_fs.Fsm.Scans.{has_replica, alive_at}
use distributed_fs.Fsm.Types.{NodeEntry, NodeStatus, RepairJob, RepairStatus}
use distributed_fs.Fsm.State.{ok, get_node}
use distributed_fs.Placement.Strategy.{most_free_space_strategy, least_loaded_strategy}
use distributed_fs.Scheduler.State.{World, Env, new_repair_scheduler}
use distributed_fs.Scheduler.Schedule.{trigger_repair, schedule_repair_for_chunk}
use distributed_fs.Scheduler.Jobs.{on_job_complete}
use distributed_fs.Scheduler.Completes.{listed_after, retry_after, on_job_complete_exact}
use distributed_fs.Fsm.Snapshot.{MetadataFsmSnapshot, SnapshotJson, unseen_all, snapshot, restore}
use distributed_fs.Watcher.Restart.{sweep-restore}
use distributed_fs.Common.Registry.{lookup}
use distributed_fs.Common.{false, arith}
use distributed_fs.Scheduler.Frame.{Commits}
use distributed_fs.Scheduler.Evicts.{trigger_repair_evicts}
use distributed_fs.Watcher.{sweep}
use distributed_fs.Watcher.Sweep.{overdue_at, sweep_exact}
use distributed_fs.Reconcile.{reconcile_node, Deletions}
use distributed_fs.Reconcile.Sync.{asked}
use distributed_fs.Tests.Wire.{wire_json}
use distributed_fs.Tests.Sample.{start_log, upload_log, entries, uploaded, fsm_program}
use distributed_fs.Reconcile.Sync.{reconcile_node_agrees}

-- The first UUIDs that are drawn.
abbrev job_name : ℕ → String
job_name zero = "job0"
job_name (suc zero) = "job1"
job_name (suc (suc _)) = "job2"

abbrev env : Env
env = record {
  propose = apply_command;
  source_strategy = least_loaded_strategy;
  target_strategy = most_free_space_strategy;
  uuid = job_name;
  now = 500;
}

abbrev world : World
world = record { fsm = uploaded; rs = new_repair_scheduler 2; drawn = 0 }

env-Commits : Commits apply_command
env-Commits c s = refl

world-IsWellFormed : IsWellFormed uploaded
world-IsWellFormed = replay-IsWellFormed wire_json (entries (start_log ++ upload_log))

trigger_repair_evicts_example :
    has_replica "c0" "n2" (trigger_repair env "n2" world).fsm
    ≡ (has_replica "c0" "n2" uploaded && not ("n2" == "n2"))
trigger_repair_evicts_example =
    trigger_repair_evicts env world "n2" env-Commits world-IsWellFormed "c0" "n2"

-- A job that copies the first chunk from one node to another.
abbrev job : RepairJob
job = record {
  job_id = "job0";
  chunk_id = "c0";
  source_node_id = "n1";
  target_node_id = "n4";
  status = RepairStatus.in_progress;
  created_at = 400;
  updated_at = 400;
  attempts = 0;
  error = "";
  delete_source = false;
}

repaired-IsWellFormed : IsWellFormed (record uploaded { repair_job_registry = ("job0", job) ∷ [] })
unfolding lookup
repaired-IsWellFormed = record {
  keys = record {
    files = world-IsWellFormed.keys.files;
    chunks = world-IsWellFormed.keys.chunks;
    nodes = world-IsWellFormed.keys.nodes;
    jobs = record { keyed = λ k v e. ground (arith, e); unique = (refl, tt) };
    md_nodes = world-IsWellFormed.keys.md_nodes;
  };
  links = record {
    file_chunks = world-IsWellFormed.links.file_chunks;
    chunk_files = world-IsWellFormed.links.chunk_files;
    committed = world-IsWellFormed.links.committed;
    distinct = world-IsWellFormed.links.distinct;
  };
}

abbrev repaired : World
repaired = record world { fsm = record uploaded { repair_job_registry = ("job0", job) ∷ [] } }

-- Every node was last seen at 100, and it is 500.
abbrev swept : World
swept = sweep env (some (trigger_repair env)) 300 true world

sweep_exact_example :
    (alive_at "n2" swept.fsm ≡ (alive_at "n2" uploaded && not (overdue_at 500 300 "n2" uploaded)))
    × ((c : String)
        → has_replica c "n2" swept.fsm
          ≡ (has_replica c "n2" uploaded && not (overdue_at 500 300 "n2" uploaded)))
sweep_exact_example = sweep_exact env 300 world env-Commits world-IsWellFormed "n2"

-- The node holds one chunk that it should, lacks one, and has one that nobody knows.
abbrev held : List String
held = "c1" ∷ "c9" ∷ []

abbrev reconciled : World × Deletions
reconciled = reconcile_node env (schedule_repair_for_chunk env) 2 "n2" held world

abbrev n2 : NodeEntry
n2 = record {
  node_id = "n2";
  address = "h2:9000";
  status = NodeStatus.alive;
  free_space = 70;
  chunk_count = 0;
  last_seen = 100;
  registered_at = 100;
  updated_at = 100;
}

n2-known : get_node uploaded "n2" ≡ ok n2
unfolding fsm_program
n2-known = refl

reconcile_node_agrees_example :
    (has_replica "c0" "n2" reconciled.0.fsm
      ≡ (has_replica "c0" "n2" uploaded && not (not (contains held "c0") && "n2" == "n2")))
    × (asked "c0" reconciled.1 ≡ (contains held "c0" && not (has_replica "c0" "n2" uploaded)))
    × (has_replica "c0" "n2" reconciled.0.fsm
        ≡ (contains held "c0" && not (asked "c0" reconciled.1)))
reconcile_node_agrees_example =
    reconcile_node_agrees env 2 "n2" held world n2 "c0" "n2" env-Commits world-IsWellFormed n2-known

on_job_complete_exact_example :
    let x = on_job_complete env "n1" "job0" true repaired in
    (has_replica "c0" "n4" x.world.fsm ≡ listed_after job true "c0" "n4" repaired.fsm)
    × (x.retry ≡ retry_after job true repaired)
unfolding fsm_program
on_job_complete_exact_example =
    on_job_complete_exact env env-Commits "n1" "job0" true repaired job "c0" "n4"
      repaired-IsWellFormed refl

-- Bytes that hold a snapshot whose nodes were not written with their `LastSeen`.
abbrev plain_json : SnapshotJson MetadataFsmSnapshot
plain_json = record {
  marshal = λ snap. ok (record snap { node_registry = unseen_all snap.node_registry });
  unmarshal = ok;
  size = λ bytes. 10;
}

reads_back :
    (snap bytes : MetadataFsmSnapshot)
    → ok (record snap { node_registry = unseen_all snap.node_registry }) ≡ ok bytes
    → ok bytes ≡ ok (record snap { node_registry = unseen_all snap.node_registry })
reads_back snap bytes e = cc

abbrev saved : MetadataFsmSnapshot
saved =
    let snap = snapshot uploaded in record snap { node_registry = unseen_all snap.node_registry }

abbrev restarted : World
restarted = record world { fsm = (restore plain_json (ok saved) uploaded).0 }

sweep-restore_example :
    let w' = sweep env (some (trigger_repair env)) 300 true restarted in
    (alive_at "n2" w'.fsm ≡ false)
    × ((c : String)
        → has_replica c "n2" w'.fsm ≡ (has_replica c "n2" uploaded && not (alive_at "n2" uploaded)))
sweep-restore_example =
    sweep-restore plain_json reads_back uploaded uploaded saved env 300 restarted world-IsWellFormed
      refl refl env-Commits (omega arith) "n2"
