-- ===== src/Scheduler/Frame.antt =====
-- What the creation of repair jobs does not touch: any view of the state machine that the creation
-- of a job leaves alone is left alone by the scheduling.
use mathlib.Core.Path.{subst}
use distributed_fs.Common.{
  zero, suc, String, Bool, false, true, List, [], ◌∷◌, ◌≡◌, refl, sym, ◌∙◌, arith,
}
use distributed_fs.Common.Int.{ℤ, pos, negsuc}
use distributed_fs.Common.Registry.{Registry}
use distributed_fs.Fsm.Types.{NodeEntry, ChunkRecord}
use distributed_fs.Fsm.Commands.{Command, CommandCreateRepairJob, create_repair_job}
use distributed_fs.Fsm.State.{MetadataFsm}
use distributed_fs.Fsm.Apply.{apply_command}
use distributed_fs.Fsm.Propose.{Proposer, applied, Outcome, IsProposer}
use distributed_fs.Scheduler.State.{World, Env}
use distributed_fs.Scheduler.Schedule.{
  create_job, create_copies, create_deletions, schedule_copies, schedule_deletions,
  schedule_repair_jobs, schedule_if_missing, schedule_repair_for_chunk,
}

-- Every proposal is committed and applied before it returns.
abbrev pub Commits : Proposer → Type 0
Commits p = (c : Command) (s : MetadataFsm) → p c s ≡ apply_command c s

pub Commits-IsProposer : (p : Proposer) → Commits p → IsProposer p
Commits-IsProposer p h c s = subst (λ r. Outcome c s r) (sym (h c s)) applied

module _ (env : Env) (all : Commits env.propose) {A : Type 0} (view : MetadataFsm → A)
    (same : (r : CommandCreateRepairJob) (s : MetadataFsm)
      → view (apply_command (create_repair_job r) s).0 ≡ view s) where
  create_job-view :
      (c : String) (d : Bool) (s t : String) (w : World)
      → view (create_job env c d s t w).fsm ≡ view w.fsm
  unfolding create_job
  create_job-view c d s t w =
      let r : CommandCreateRepairJob = record {
        job_id = env.uuid w.drawn;
        created_at = env.now;
        chunk_id = c;
        delete_source = d;
        source_node = s;
        target_node = t;
      } in
      ground (arith, all (create_repair_job r) w.fsm, same r w.fsm)

  create_copies-view :
      (c s : String) (ns : List NodeEntry) (w : World)
      → view (create_copies env c s ns w).fsm ≡ view w.fsm
  unfolding create_copies
  create_copies-view c s [] w = refl
  create_copies-view c s (n ∷ ns) w =
      create_copies-view c s ns _ ∙ ground (arith, create_job-view c false s n.node_id w)

  create_deletions-view :
      (c : String) (ns : List NodeEntry) (w : World)
      → view (create_deletions env c ns w).fsm ≡ view w.fsm
  unfolding create_deletions
  create_deletions-view c [] w = refl
  create_deletions-view c (n ∷ ns) w =
      create_deletions-view c ns _ ∙ create_job-view c true n.node_id "" w

  schedule-view :
      (c : String) (live : List NodeEntry) (d : ℤ) (w : World)
      → view (schedule_repair_jobs env c live d w).fsm ≡ view w.fsm
  unfolding schedule_repair_jobs schedule_copies schedule_deletions
  schedule-view c [] (pos (suc d)) w = refl
  schedule-view c (r ∷ rs) (pos (suc d)) w = grind (arith, create_copies-view)
  schedule-view c live (pos zero) w = grind (arith, create_deletions-view)
  schedule-view c live (negsuc n) w = grind (arith, create_deletions-view)

  pub if_missing-view :
      (c : String) (live : List NodeEntry) (w : World)
      → view (schedule_if_missing env c live w).fsm ≡ view w.fsm
  unfolding schedule_if_missing
  if_missing-view c live w = grind (arith, schedule-view)

  pub for_chunk-view :
      (c : String) (w : World) → view (schedule_repair_for_chunk env c w).fsm ≡ view w.fsm
  unfolding schedule_repair_for_chunk
  for_chunk-view c w = grind (arith, if_missing-view)

abbrev pub chunks_view : MetadataFsm → Registry ChunkRecord
chunks_view s = s.chunk_registry

abbrev pub nodes_view : MetadataFsm → Registry NodeEntry
nodes_view s = s.node_registry

pub create-chunks :
    (r : CommandCreateRepairJob) (s : MetadataFsm)
    → chunks_view (apply_command (create_repair_job r) s).0 ≡ chunks_view s
unfolding apply_command
create-chunks r s = ground arith

pub create-nodes :
    (r : CommandCreateRepairJob) (s : MetadataFsm)
    → nodes_view (apply_command (create_repair_job r) s).0 ≡ nodes_view s
unfolding apply_command
create-nodes r s = ground arith
