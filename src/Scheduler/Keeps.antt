-- ===== src/Scheduler/Keeps.antt =====
-- The scheduler changes the state machine only by proposals, so it keeps what every handler keeps.
use distributed_fs.Common.{zero, suc, String, Bool, true, false, List, [], ◌∷◌, arith}
use distributed_fs.Common.Int.{ℤ, pos, negsuc}
use distributed_fs.Fsm.Types.{NodeEntry, RepairJob}
use distributed_fs.Fsm.Commands.{Command}
use distributed_fs.Fsm.State.{MetadataFsm}
use distributed_fs.Fsm.Apply.{apply_command}
use distributed_fs.Fsm.Propose.{IsProposer, propose-keeps}
use distributed_fs.Fsm.Reads.{get_chunks_by_node}
use distributed_fs.Fsm.Invariant.Log.{IsWellFormed, apply_command-IsWellFormed}
use distributed_fs.Scheduler.State.{World, Env, propose}
use distributed_fs.Scheduler.Schedule.{
  create_job, create_copies, create_deletions, schedule_copies, schedule_deletions,
  schedule_repair_jobs, schedule_if_missing, schedule_repair_for_chunk, propose_evict_chunk,
  repair_chunk, repair_chunks, trigger_repair,
}
use distributed_fs.Scheduler.Jobs.{
  execute_job, work, propose_add_replica, on_job_complete, run_retry, Retry, recover_job,
  recover_jobs, recover_stuck_jobs,
}

module _ (env : Env) (o : IsProposer env.propose) (P : MetadataFsm → Type 0)
    (keep : (c : Command) (s : MetadataFsm) → P s → P (apply_command c s).0) where
  pub keeps_proposal : (c : Command) (w : World) → P w.fsm → P (propose env c w).0.fsm
  keeps_proposal c w h = propose-keeps env.propose o P keep c w.fsm h

  create_job-keeps :
      (c : String) (d : Bool) (s t : String) (w : World)
      → P w.fsm
      → P (create_job env c d s t w).fsm
  unfolding create_job
  create_job-keeps c d s t w h = ground (
    arith,
    propose-keeps env.propose o P keep
        (Command.create_repair_job (record {
          job_id = env.uuid w.drawn;
          created_at = env.now;
          chunk_id = c;
          delete_source = d;
          source_node = s;
          target_node = t;
        }))
        w.fsm h,
  )

  create_copies-keeps :
      (c s : String) (ns : List NodeEntry) (w : World)
      → P w.fsm
      → P (create_copies env c s ns w).fsm
  unfolding create_copies
  create_copies-keeps c s [] w h = h
  create_copies-keeps c s (n ∷ ns) w h =
      create_copies-keeps c s ns _ (ground (arith, create_job-keeps c false s n.node_id w h))

  create_deletions-keeps :
      (c : String) (ns : List NodeEntry) (w : World) → P w.fsm → P (create_deletions env c ns w).fsm
  unfolding create_deletions
  create_deletions-keeps c [] w h = h
  create_deletions-keeps c (n ∷ ns) w h =
      create_deletions-keeps c ns _ (create_job-keeps c true n.node_id "" w h)

  schedule-keeps :
      (c : String) (live : List NodeEntry) (d : ℤ) (w : World)
      → P w.fsm
      → P (schedule_repair_jobs env c live d w).fsm
  unfolding schedule_repair_jobs schedule_copies schedule_deletions
  schedule-keeps c [] (pos (suc d)) w h = h
  schedule-keeps c (r ∷ rs) (pos (suc d)) w h = grind (arith, create_copies-keeps)
  schedule-keeps c live (pos zero) w h = grind (arith, create_deletions-keeps)
  schedule-keeps c live (negsuc n) w h = grind (arith, create_deletions-keeps)

  if_missing-keeps :
      (c : String) (live : List NodeEntry) (w : World)
      → P w.fsm
      → P (schedule_if_missing env c live w).fsm
  unfolding schedule_if_missing
  if_missing-keeps c live w h = grind (arith, schedule-keeps)

  pub for_chunk-keeps :
      (c : String) (w : World) → P w.fsm → P (schedule_repair_for_chunk env c w).fsm
  unfolding schedule_repair_for_chunk
  for_chunk-keeps c w h = grind (arith, if_missing-keeps)

  pub evict-keeps :
      (c n r : String) (w : World) → P w.fsm → P (propose_evict_chunk env c n r w).0.fsm
  unfolding propose_evict_chunk
  evict-keeps c n r w h = keeps_proposal _ w h

  pub repair_chunk-keeps : (n c : String) (w : World) → P w.fsm → P (repair_chunk env n c w).fsm
  unfolding repair_chunk
  repair_chunk-keeps n c w h = grind (arith, if_missing-keeps, evict-keeps)

  repair_chunks-keeps :
      (n : String) (cs : List String) (w : World) → P w.fsm → P (repair_chunks env n cs w).fsm
  unfolding repair_chunks
  repair_chunks-keeps n [] w h = h
  repair_chunks-keeps n (c ∷ cs) w h =
      repair_chunks-keeps n cs (repair_chunk env n c w) (repair_chunk-keeps n c w h)

  pub trigger-keeps : (n : String) (w : World) → P w.fsm → P (trigger_repair env n w).fsm
  unfolding trigger_repair
  trigger-keeps n w h = repair_chunks-keeps n (get_chunks_by_node w.fsm n) w h

  execute_job-keeps : (j : String) (w : World) → P w.fsm → P (execute_job env j w).fsm
  unfolding execute_job
  execute_job-keeps j w h = grind (arith, propose-keeps env.propose o P keep)

  work-keeps : (w : World) → P w.fsm → P (work env w).fsm
  unfolding work
  work-keeps w h = grind (arith, execute_job-keeps)

  add_replica-keeps : (c n : String) (w : World) → P w.fsm → P (propose_add_replica env c n w).0.fsm
  unfolding propose_add_replica
  add_replica-keeps c n w h = keeps_proposal _ w h

  pub complete-keeps :
      (n j : String) (b : Bool) (w : World) → P w.fsm → P (on_job_complete env n j b w).world.fsm
  unfolding on_job_complete
  complete-keeps n j b w h = grind (arith, evict-keeps, add_replica-keeps)

  retry-keeps : (r : Retry) (w : World) → P w.fsm → P (run_retry env r w).fsm
  unfolding run_retry
  retry-keeps r w h = grind (arith, if_missing-keeps)

  recover_job-keeps : (j : RepairJob) (w : World) → P w.fsm → P (recover_job env j w).fsm
  unfolding recover_job
  recover_job-keeps j w h = grind (arith, propose-keeps env.propose o P keep)

  recover_jobs-keeps : (js : List RepairJob) (w : World) → P w.fsm → P (recover_jobs env js w).fsm
  unfolding recover_jobs
  recover_jobs-keeps [] w h = h
  recover_jobs-keeps (j ∷ js) w h =
      recover_jobs-keeps js (recover_job env j w) (recover_job-keeps j w h)

  recover-keeps : (w : World) → P w.fsm → P (recover_stuck_jobs env w).fsm
  unfolding recover_stuck_jobs
  recover-keeps w h = recover_jobs-keeps _ w h

-- What reaches the scheduler, in any order: the watcher and the handlers, its workers, its
-- timers, and log entries that others propose.
pub data Event : Type 0 where
  node_dead : String → Event
  chunk_short : String → Event
  worker : Event
  job_reported : String → String → Bool → Event
  timer : Retry → Event
  recovery : Event
  log_entry : Command → Event

unfoldable pub step : Env → Event → World → World
step env (node_dead n) w = trigger_repair env n w
step env (chunk_short c) w = schedule_repair_for_chunk env c w
step env worker w = work env w
step env (job_reported n j b) w = (on_job_complete env n j b w).world
step env (timer r) w = run_retry env r w
step env recovery w = recover_stuck_jobs env w
step env (log_entry c) w = record w { fsm = (apply_command c w.fsm).0 }

unfoldable pub run : Env → List Event → World → World
run env [] w = w
run env (e ∷ es) w = run env es (step env e w)

step-IsWellFormed :
    (env : Env)
    → IsProposer env.propose
    → (e : Event) (w : World) → IsWellFormed w.fsm
    → IsWellFormed (step env e w).fsm
unfolding step
step-IsWellFormed env o (node_dead n) w h =
    trigger-keeps env o IsWellFormed apply_command-IsWellFormed n w h
step-IsWellFormed env o (chunk_short c) w h =
    for_chunk-keeps env o IsWellFormed apply_command-IsWellFormed c w h
step-IsWellFormed env o worker w h = work-keeps env o IsWellFormed apply_command-IsWellFormed w h
step-IsWellFormed env o (job_reported n j b) w h =
    complete-keeps env o IsWellFormed apply_command-IsWellFormed n j b w h
step-IsWellFormed env o (timer r) w h =
    retry-keeps env o IsWellFormed apply_command-IsWellFormed r w h
step-IsWellFormed env o recovery w h =
    recover-keeps env o IsWellFormed apply_command-IsWellFormed w h
step-IsWellFormed env o (log_entry c) w h = apply_command-IsWellFormed c w.fsm h

-- Whatever reaches the scheduler, in whatever order, and whether its proposals are committed,
-- refused or committed late, the state machine stays well formed.
pub run-IsWellFormed :
    (env : Env) (es : List Event) (w : World)
    → IsProposer env.propose
    → IsWellFormed w.fsm
    → IsWellFormed (run env es w).fsm
unfolding run
run-IsWellFormed env [] w o h = h
run-IsWellFormed env (e ∷ es) w o h =
    run-IsWellFormed env es (step env e w) o (step-IsWellFormed env o e w h)
