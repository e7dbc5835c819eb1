-- ===== src/Scheduler/Schedule.antt =====
-- `TriggerRepair`, `ScheduleRepairForChunk` and `scheduleRepairJobs`.
use distributed_fs.Common.{
  ℕ, zero, suc, String, Bool, true, false, List, [], ◌∷◌, Option, none, some, length, if◌then◌else◌,
}
use distributed_fs.Common.Int.{ℤ, pos, negsuc, sub_ℕ}
use distributed_fs.Common.Registry.{has}
use distributed_fs.Fsm.Types.{NodeEntry}
use distributed_fs.Fsm.Commands.{create_repair_job, evict_chunk_from_node}
use distributed_fs.Fsm.State.{FsmError, ok, err, get_chunk}
use distributed_fs.Fsm.Reads.{get_chunk_locations, get_chunks_by_node, get_live_nodes}
use distributed_fs.Scheduler.State.{World, Env, pair_key, propose, offer_job, exclude_node}

abbrev pub is_positive : ℤ → Bool
is_positive (pos (suc _)) = true
is_positive _ = false

module _ (env : Env) where
  -- A job is proposed under a new UUID, and put on the channel if the proposal succeeds.
  unfoldable pub create_job : String → Bool → String → String → World → World
  create_job chunk_id delete_source source target w =
      let jid = env.uuid w.drawn in
      let (w', e) =
        propose env
          (create_repair_job (record {
            job_id = jid;
            created_at = env.now;
            chunk_id = chunk_id;
            delete_source = delete_source;
            source_node = source;
            target_node = target;
          }))
          (record w { drawn = suc (w.drawn) }) in
      elim e [ some _ ↦ w' | none ↦ offer_job jid w' ]

  -- The loop over `newNodes`; a target that a pending job has is skipped.
  unfoldable pub create_copies : String → String → List NodeEntry → World → World
  create_copies chunk_id source [] w = w
  create_copies chunk_id source (node ∷ nodes) w = create_copies chunk_id source nodes (
      if has (pair_key chunk_id node.node_id) w.rs.pending_jobs_set
      then w
      else create_job chunk_id false source node.node_id w)

  -- The loop over `deletingNodes`.
  unfoldable pub create_deletions : String → List NodeEntry → World → World
  create_deletions chunk_id [] w = w
  create_deletions chunk_id (node ∷ nodes) w =
      create_deletions chunk_id nodes (create_job chunk_id true node.node_id "" w)

  unfoldable pub schedule_copies : String → List NodeEntry → ℕ → World → World
  schedule_copies chunk_id [] deficit w = w
  schedule_copies chunk_id (r ∷ rs) deficit w = elim (get_chunk w.fsm chunk_id) [
    | err _ ↦ w
    | ok chunk ↦
        let live = r ∷ rs in
        let picked =
          env.target_strategy.select_nodes (get_live_nodes w.fsm) chunk.size deficit live in
        let source = env.source_strategy.select_primary live in
        elim (picked.1) [ some _ ↦ w | none ↦ create_copies chunk_id source.node_id picked.0 w ]
  ]

  unfoldable pub schedule_deletions : String → List NodeEntry → ℕ → World → World
  schedule_deletions chunk_id live surplus w =
      let picked = env.target_strategy.select_node_reverse live 0 surplus [] in
      elim (picked.1) [ some _ ↦ w | none ↦ create_deletions chunk_id picked.0 w ]

  -- `deficit > 0` copies, and otherwise deletes `-deficit` replicas.
  unfoldable pub schedule_repair_jobs : String → List NodeEntry → ℤ → World → World
  schedule_repair_jobs chunk_id live (pos (suc d)) w = schedule_copies chunk_id live (suc d) w
  schedule_repair_jobs chunk_id live (pos zero) w = schedule_deletions chunk_id live 0 w
  schedule_repair_jobs chunk_id live (negsuc n) w = schedule_deletions chunk_id live (suc n) w

  -- `if deficit <= 0 { return }` before the call.
  unfoldable pub schedule_if_missing : String → List NodeEntry → World → World
  schedule_if_missing chunk_id live w =
      let deficit = sub_ℕ w.rs.replication_factor (length live) in
      if is_positive deficit then schedule_repair_jobs chunk_id live deficit w else w

  unfoldable pub schedule_repair_for_chunk : String → World → World
  schedule_repair_for_chunk chunk_id w = elim (get_chunk_locations w.fsm chunk_id) [
    | err _ ↦ w
    | ok live ↦ schedule_if_missing chunk_id live w
  ]

  -- `proposeEvictChunk`; its error is only logged here.
  unfoldable pub propose_evict_chunk : String → String → String → World → World × Option FsmError
  propose_evict_chunk chunk_id node_id reason = propose env (
      evict_chunk_from_node
        (record { chunk_id = chunk_id; node_id = node_id; evicted_at = env.now; reason = reason }))

  -- One round of `TriggerRepair`.
  unfoldable pub repair_chunk : String → String → World → World
  repair_chunk dead chunk_id w =
      let w' = (propose_evict_chunk chunk_id dead "node marked dead" w).0 in
      elim (get_chunk_locations w'.fsm chunk_id) [
        | err _ ↦ w'
        | ok live ↦ schedule_if_missing chunk_id (exclude_node live dead) w'
      ]

  unfoldable pub repair_chunks : String → List String → World → World
  repair_chunks dead [] w = w
  repair_chunks dead (c ∷ cs) w = repair_chunks dead cs (repair_chunk dead c w)

  unfoldable pub trigger_repair : String → World → World
  trigger_repair dead w = repair_chunks dead (get_chunks_by_node w.fsm dead) w
