-- ===== src/Storage/Worker.antt =====
-- storage/replication/manager.go: what a repair worker does with a job. What each attempt returns is
-- an input.
use distributed_fs.Common.{ℕ, String, Bool, true, false, ◌≡◌, refl, Option, none, some}
use distributed_fs.Server.Nodes.{ReportRepairResultRequest}
use distributed_fs.Storage.Errors.{StoreError}
use distributed_fs.Storage.Retry.{
  Policy, Attempts, Done, succeeded, stopped, exhausted, policy_do, Last, policy_do-Last,
}
use distributed_fs.Storage.Replication.{RepairJob, ReplicationManager, pick, finish_job}

abbrev is_success : Done StoreError → Bool
is_success succeeded = true
is_success (stopped e) = false
is_success (exhausted e) = false

-- The report of a job, by what `Do` returned for it. An error of the report is only logged.
unfoldable pub report_of :
    Policy → Attempts StoreError → String → RepairJob → ReportRepairResultRequest
report_of p a node_id job = record {
  node_id = node_id;
  job_id = job.job_id;
  job_succeed = is_success (policy_do p a).result;
}

-- A worker is done with the job at a place: its report, and the manager without the key.
unfoldable pub work_job :
    Policy
    → Attempts StoreError
    → String
    → ℕ
    → ReplicationManager
    → ReplicationManager × Option ReportRepairResultRequest
work_job p a node_id n m = elim (pick n m.working) [
  | none ↦ (m, none)
  | some (job, others) ↦ (finish_job n m, some (report_of p a node_id job))
]

-- A job is reported as done only after an attempt, the last, that returned no error.
pub report_of-Last :
    (p : Policy) (a : Attempts StoreError) (node_id : String) (job : RepairJob)
    → (report_of p a node_id job).job_succeed ≡ true
    → Last p a 0 (policy_do p a)
unfolding report_of
report_of-Last p a node_id job h = policy_do-Last p a (succeeds (policy_do p a).result h)
  where
    succeeds : (r : Done StoreError) → is_success r ≡ true → r ≡ succeeded
    succeeds succeeded h = refl
    succeeds (stopped e) h = cc
    succeeds (exhausted e) h = cc
