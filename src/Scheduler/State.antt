-- ===== src/Scheduler/State.antt =====
-- The state of the repair scheduler of metadata/scheduler/repair_scheduler.go, and what it takes
-- from elsewhere. The scheduler changes the state machine only by proposals, so an operation is a
-- function on a `World`: the two states, and the number of UUIDs drawn.
use Prim.Native.String.{◌++◌}
use distributed_fs.Common.{
  ℕ, ◌^◌, snoc, String, List, [], ◌∷◌, Option, ◌==◌, ltb, leb, min, contains, length, remove_first,
  if◌then◌else◌,
}
use distributed_fs.Common.Registry.{Registry}
use distributed_fs.Fsm.Types.{NodeEntry}
use distributed_fs.Fsm.Commands.{Command}
use distributed_fs.Fsm.State.{MetadataFsm, FsmError}
use distributed_fs.Fsm.Propose.{Proposer}
use distributed_fs.Placement.Strategy.{PlacementStrategy}

abbrev pub default_replication_factor : ℕ
default_replication_factor = 3

abbrev pub max_replication_factor : ℕ
max_replication_factor = 10

abbrev pub repair_queue_capacity : ℕ
repair_queue_capacity = 1024

pub record RepairScheduler : Type 0 where
  -- the channel `jobs`, first in, first out
  pub jobs : List String
  pub pending_jobs : Registry (List String)
  pub pending_jobs_set : Registry String
  pub replication_factor : ℕ

pub record World : Type 0 where
  pub fsm : MetadataFsm
  pub rs : RepairScheduler
  pub drawn : ℕ

-- `propose`, the strategies, google/uuid and the clock.
pub record Env : Type 0 where
  pub propose : Proposer
  pub source_strategy : PlacementStrategy
  pub target_strategy : PlacementStrategy
  pub uuid : ℕ → String
  pub now : ℕ

-- `if rf <= 0 { rf = default }` and `min(rf, max)`; an `rf` below 0 is given as 0.
unfoldable pub new_repair_scheduler : ℕ → RepairScheduler
new_repair_scheduler rf =
    let rf' = if leb rf 0 then default_replication_factor else rf in
    record {
      jobs = [];
      pending_jobs = [];
      pending_jobs_set = [];
      replication_factor = min rf' max_replication_factor;
    }

-- `fmt.Sprintf("%v:%v", chunkID, nodeID)`
abbrev pub pair_key : String → String → String
pair_key chunk_id node_id = chunk_id ++ ":" ++ node_id

-- `rs.propose`, on the state machine of the world.
abbrev pub propose : Env → Command → World → World × Option FsmError
propose env c w = let (s, e) = env.propose c w.fsm in (record w { fsm = s }, e)

-- `select { case rs.jobs <- jid: default: }`: a full channel drops the job.
abbrev pub offer_job : String → World → World
offer_job jid w =
    if ltb (length w.rs.jobs) repair_queue_capacity
    then record w { rs = record (w.rs) { jobs = snoc w.rs.jobs jid } }
    else w

unfoldable pub append_unique : List String → String → List String
append_unique values v = if contains values v then values else snoc values v

unfoldable pub remove_job : List String → String → List String
remove_job values target = remove_first target values

unfoldable pub exclude_node : List NodeEntry → String → List NodeEntry
exclude_node [] node_id = []
exclude_node (n ∷ ns) node_id =
    let rest = exclude_node ns node_id in if n.node_id == node_id then rest else n ∷ rest

-- `1<<min(attempt, 6)` seconds, at most 60.
unfoldable pub retry_delay : ℕ → ℕ
retry_delay attempt = let d = 2 ^ min attempt 6 in if ltb 60 d then 60 else d
