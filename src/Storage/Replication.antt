-- ===== src/Storage/Replication.antt =====
-- storage/replication/manager.go: the queue of repairs and the workers. `EnqueueRepair` claims a key,
-- and then offers the job to the queue: other calls and the workers may come between the two.
use Prim.Native.String.{◌++◌}
use distributed_fs.Common.{
  ℕ, zero, suc, ◌+◌, ◌≤◌, String, Bool, true, false, List, [], ◌∷◌, ◌≡◌, refl, Option, none, some,
  arith, snoc, length, ltb, ◌==◌, if◌then◌else◌, Option-cases, Bool-cases, inl, inr,
}
use distributed_fs.Common.Registry.{
  Registry, insert, delete, has, lookup, lookup-insert, lookup-delete,
}
pub mod Tracked

pub record RepairJob : Type 0 where
  pub job_id : String
  pub chunk_id : String
  pub source : String
  pub target : String

-- `claimed` are the jobs between the two halves of `EnqueueRepair`, `working` those of the workers.
pub record ReplicationManager : Type 0 where
  pub inflight : Registry Bool
  pub claimed : List RepairJob
  pub repair_q : List RepairJob
  pub working : List RepairJob

abbrev pub repair_queue_cap : ℕ
repair_queue_cap = 256

abbrev pub num_repair_workers : ℕ
num_repair_workers = 4

abbrev pub job_key : RepairJob → String
job_key job = job.chunk_id ++ ":" ++ job.target

unfoldable pub new_replication_manager : ReplicationManager
new_replication_manager = record { inflight = []; claimed = []; repair_q = []; working = [] }

-- The job at a place, and the others.
unfoldable pub pick {ℓ} : {A : Type ℓ} → ℕ → List A → Option (A × List A)
pick n [] = none
pick zero (x ∷ xs) = some (x, xs)
pick (suc n) (x ∷ xs) = elim (pick n xs) [ none ↦ none | some (y, ys) ↦ some (y, x ∷ ys) ]

-- The half of `EnqueueRepair` before the channel: whether the key was new.
unfoldable pub claim : RepairJob → ReplicationManager → ReplicationManager × Bool
claim job m = if has (job_key job) m.inflight then (m, false) else (
  record m { inflight = insert (job_key job) true m.inflight; claimed = job ∷ m.claimed },
  true,
)

-- The `select` on the channel, of the claimed job at a place: whether it was accepted.
unfoldable pub offer : ℕ → ReplicationManager → ReplicationManager × Bool
offer n m = elim (pick n m.claimed) [
  | none ↦ (m, false)
  | some (job, others) ↦
      if ltb (length m.repair_q) repair_queue_cap
      then (record m { claimed = others; repair_q = snoc m.repair_q job }, true)
      else (record m { claimed = others; inflight = delete (job_key job) m.inflight }, false)
]

unfoldable pub enqueue_repair : RepairJob → ReplicationManager → ReplicationManager × Bool
enqueue_repair job m = let (m', is_new) = claim job m in if is_new then offer 0 m' else (m', true)

-- A worker that is free takes a job.
unfoldable pub start_job : ReplicationManager → ReplicationManager
start_job m = elim (m.repair_q) [
  | [] ↦ m
  | job ∷ q ↦
      if ltb (length m.working) num_repair_workers
      then record m { repair_q = q; working = job ∷ m.working }
      else m
]

-- A worker is done with its job, and has reported it.
unfoldable pub finish_job : ℕ → ReplicationManager → ReplicationManager
finish_job n m = elim (pick n m.working) [
  | none ↦ m
  | some (job, others) ↦ record m { working = others; inflight = delete (job_key job) m.inflight }
]

-- What can happen to a manager.
pub data Event : Type 0 where
  claims : RepairJob → Event
  offers : ℕ → Event
  starts : Event
  finishes : ℕ → Event

unfoldable pub happen : Event → ReplicationManager → ReplicationManager
happen (claims job) m = (claim job m).0
happen (offers n) m = (offer n m).0
happen starts m = start_job m
happen (finishes n) m = finish_job n m

unfoldable pub happen_all : List Event → ReplicationManager → ReplicationManager
happen_all [] m = m
happen_all (e ∷ es) m = happen_all es (happen e m)
