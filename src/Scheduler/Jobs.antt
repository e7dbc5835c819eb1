-- ===== src/Scheduler/Jobs.antt =====
-- The life of a repair job in the scheduler: handed to a worker, given to its source node by a
-- heartbeat, reported back; and the recovery after a change of leader.
use distributed_fs.Common.{
  ℕ, ◌+◌, String, Bool, true, false, ◌||◌, List, [], ◌∷◌, Option, none, some, ◌==◌, length, snoc,
  if◌then◌else◌,
}
use distributed_fs.Common.Int.{sub_ℕ}
use distributed_fs.Common.Registry.{Registry, lookup, insert, delete}
use distributed_fs.Fsm.Types.{NodeEntry, RepairJob, RepairStatus}
use distributed_fs.Fsm.Commands.{update_repair_job, add_chunk_replica}
use distributed_fs.Fsm.State.{FsmError, ok, err, get_repair_job}
use distributed_fs.Fsm.Reads.{get_chunk_locations, get_jobs_by_status}
use distributed_fs.Scheduler.State.{
  RepairScheduler, World, Env, pair_key, propose, append_unique, remove_job, retry_delay,
}
use distributed_fs.Scheduler.Schedule.{is_positive, schedule_if_missing, propose_evict_chunk}

abbrev pub pending_of : String → RepairScheduler → List String
pending_of node_id rs = elim (lookup node_id rs.pending_jobs) [ some js ↦ js | none ↦ [] ]

-- The two maps, as `executeJob` writes them.
abbrev pub note_pending : RepairJob → String → RepairScheduler → RepairScheduler
note_pending job jid rs = record rs {
  pending_jobs =
      insert job.source_node_id (append_unique (pending_of job.source_node_id rs) jid)
        rs.pending_jobs;
  pending_jobs_set = insert (pair_key job.chunk_id job.target_node_id) jid rs.pending_jobs_set;
}

unfoldable pub get_pending_jobs_for_node : String → World → List String
get_pending_jobs_for_node node_id w = pending_of node_id w.rs

-- `delete` of every key of `pendingJobsSet` whose value is the job.
unfoldable pub forget_job : String → Registry String → Registry String
forget_job jid [] = []
forget_job jid ((k, v) ∷ m) =
    let rest = forget_job jid m in if v == jid then rest else (k, v) ∷ rest

abbrev pub is_nil : List String → Bool
is_nil [] = true
is_nil (_ ∷ _) = false

-- The locked part of `OnJobComplete`.
unfoldable pub clear_pending : String → String → RepairScheduler → RepairScheduler
unfolding forget_job
clear_pending node_id jid rs = elim (lookup node_id rs.pending_jobs) [
  | none ↦ rs
  | some jobs_for_node ↦
      let removed = remove_job jobs_for_node jid in
      record rs {
        pending_jobs_set = forget_job jid rs.pending_jobs_set;
        pending_jobs =
            if is_nil removed
            then delete node_id rs.pending_jobs
            else insert node_id removed rs.pending_jobs;
      }
]

-- A `time.AfterFunc` that was set: the delay in seconds, and the chunk to look at again.
pub record Retry : Type 0 where
  pub delay : ℕ
  pub chunk_id : String

pub record Completed : Type 0 where
  pub world : World
  pub error : Option FsmError
  pub retry : Option Retry

abbrev pub reported : World × Option FsmError → Completed
reported (w, e) = record { world = w; error = e; retry = none }

abbrev pub no_node : List NodeEntry → Bool
no_node [] = true
no_node (_ ∷ _) = false

abbrev pub lists_node : String → List NodeEntry → Bool
lists_node node_id [] = false
lists_node node_id (n ∷ ns) = node_id == n.node_id || lists_node node_id ns

-- `enqueueJob`, with the context not done: a full channel is waited for.
abbrev pub enqueue_job : String → World → World
enqueue_job jid w = record w { rs = record (w.rs) { jobs = snoc w.rs.jobs jid } }

module _ (env : Env) where
  unfoldable pub execute_job : String → World → World
  execute_job jid w = elim (get_repair_job w.fsm jid) [
    | err _ ↦ w
    | ok job ↦
        (propose env
          (update_repair_job (record {
            job_id = jid;
            status = RepairStatus.in_progress;
            source_node = "";
            updated_at = env.now;
            attempts = 0;
            error = "";
          }))
          (record w { rs = note_pending job jid w.rs })).0
  ]

  -- A worker takes the first job off the channel.
  unfoldable pub work : World → World
  work w = elim (w.rs.jobs) [
    | [] ↦ w
    | jid ∷ rest ↦ execute_job jid (record w { rs = record (w.rs) { jobs = rest } })
  ]

  unfoldable pub propose_add_replica : String → String → World → World × Option FsmError
  propose_add_replica chunk_id node_id =
      propose env (add_chunk_replica (record { chunk_id = chunk_id; node_id = node_id }))

  unfoldable pub on_job_complete : String → String → Bool → World → Completed
  on_job_complete node_id jid success w0 =
      let w = record w0 { rs = clear_pending node_id jid w0.rs } in
      elim (get_repair_job w.fsm jid) [
        | err e ↦ reported (w, some e)
        | ok job ↦
            if success
            then (if job.delete_source
                then reported (
                    propose_evict_chunk env job.chunk_id job.source_node_id
                      "over-replicated repair completed" w)
                else reported (propose_add_replica job.chunk_id job.target_node_id w))
            else elim (get_chunk_locations w.fsm job.chunk_id) [
              | err e ↦ reported (w, some e)
              | ok live ↦
                  if is_positive (sub_ℕ w.rs.replication_factor (length live))
                  then record {
                    world = w;
                    error = none;
                    retry = some (record {
                      delay = retry_delay (job.attempts + 1);
                      chunk_id = job.chunk_id;
                    });
                  }
                  else reported (w, none)
            ]
      ]

  -- The function that the timer runs.
  unfoldable pub run_retry : Retry → World → World
  run_retry r w = elim (get_chunk_locations w.fsm r.chunk_id) [
    | err _ ↦ w
    | ok live ↦ schedule_if_missing env r.chunk_id live w
  ]

  -- One round of `RecoverStuckJobs`.
  unfoldable pub recover_job : RepairJob → World → World
  recover_job job w = elim (get_chunk_locations w.fsm job.chunk_id) [
    | err _ ↦ w
    | ok live ↦
        if no_node live
        then w
        else if is_positive (sub_ℕ w.rs.replication_factor (length live))
        then (if lists_node job.source_node_id live
            then enqueue_job job.job_id w
            else let new_source = env.source_strategy.select_primary live in
              let (w', e) =
                propose env
                  (update_repair_job (record {
                    job_id = job.job_id;
                    status = RepairStatus.pending;
                    source_node = new_source.node_id;
                    updated_at = env.now;
                    attempts = 0;
                    error = "";
                  }))
                  w in
              elim e [ some _ ↦ w' | none ↦ enqueue_job job.job_id w' ])
        else w
  ]

  unfoldable pub recover_jobs : List RepairJob → World → World
  recover_jobs [] w = w
  recover_jobs (j ∷ js) w = recover_jobs js (recover_job j w)

  -- With a context that is not done during the run.
  unfoldable pub recover_stuck_jobs : World → World
  recover_stuck_jobs w = recover_jobs (get_jobs_by_status w.fsm RepairStatus.in_progress) w
