-- ===== src/Scheduler/Completes.antt =====
-- What the report of a repair job does to the replica lists, and when the chunk is looked at again.
use distributed_fs.Common.{
  ℕ, suc, zero, ◌+◌, ◌-◌, String, Bool, true, false, not, ◌&&◌, ◌||◌, List, ◌≡◌, refl, Option, none,
  some, arith, ◌==◌, length, ltb, leb, if◌then◌else◌, inl, inr, Bool-cases,
}
use distributed_fs.Common.Int.{sub_ℕ}
use distributed_fs.Common.Registry.{has}
use distributed_fs.Fsm.Types.{RepairJob, NodeEntry}
use distributed_fs.Fsm.Commands.{CommandAddChunkReplica, add_chunk_replica}
use distributed_fs.Fsm.State.{MetadataFsm, Result, ok, err, get_repair_job}
use distributed_fs.Fsm.Reads.{get_chunk_locations}
use distributed_fs.Fsm.Scans.{has_replica}
use distributed_fs.Fsm.Apply.{apply_command}
use distributed_fs.Fsm.Replicas.{has_replica-add}
use distributed_fs.Fsm.Invariant.Log.{IsWellFormed}
use distributed_fs.Scheduler.State.{World, Env, RepairScheduler, retry_delay}
use distributed_fs.Scheduler.Schedule.{is_positive}
use distributed_fs.Scheduler.Jobs.{Retry, clear_pending, propose_add_replica, on_job_complete}
use distributed_fs.Scheduler.Frame.{Commits}
use distributed_fs.Scheduler.Evicts.{has_replica-propose_evict}

-- What becomes of the place of a node in the list of a chunk: a copy adds the target of the job, if its
-- chunk is registered; a deletion takes out the source; a failure changes nothing.
abbrev pub listed_after : RepairJob → Bool → String → String → MetadataFsm → Bool
listed_after job true c n s =
    if job.delete_source
    then has_replica c n s && not (job.chunk_id == c && job.source_node_id == n)
    else has_replica c n s
      || (job.chunk_id == c && (job.target_node_id == n && has c s.chunk_registry))
listed_after job false c n s = has_replica c n s

-- The chunk has fewer live replicas than there should be.
abbrev pub is_short : String → World → Bool
is_short c w = elim (get_chunk_locations w.fsm c) [
  | err _ ↦ false
  | ok live ↦ ltb (length live) w.rs.replication_factor
]

-- The retry that is set: for a failure, of a chunk that is short.
abbrev pub retry_after : RepairJob → Bool → World → Option Retry
retry_after job true w = none
retry_after job false w =
    if is_short job.chunk_id w
    then some (record { delay = retry_delay (job.attempts + 1); chunk_id = job.chunk_id })
    else none

clear_pending-replication_factor :
    (node_id jid : String) (rs : RepairScheduler)
    → (clear_pending node_id jid rs).replication_factor ≡ rs.replication_factor
unfolding clear_pending
clear_pending-replication_factor node_id jid rs = ground arith

positive_iff : (a b : ℕ) → is_positive (sub_ℕ a b) ≡ ltb b a
positive_iff a b = elim (Bool-cases (leb b a)) [
  | inl e ↦ go (a - b) refl e
  | inr e ↦ ground (arith, e)
]
  where
    go : (d : ℕ) → a - b ≡ d → leb b a ≡ true → is_positive (sub_ℕ a b) ≡ ltb b a
    go zero p e = ground (arith, p, e)
    go (suc d) p e = ground (arith, p, e)

module _ (env : Env) (all : Commits env.propose) where
  has_replica-propose_add :
      (c target : String) (w : World) (c' n : String)
      → has_replica c' n (propose_add_replica env c target w).0.fsm
        ≡ (has_replica c' n w.fsm || (c == c' && (target == n && has c' w.fsm.chunk_registry)))
  unfolding propose_add_replica apply_command
  has_replica-propose_add c target w c' n =
      let cmd : CommandAddChunkReplica = record { chunk_id = c; node_id = target } in
      ground (arith, all (add_chunk_replica cmd) w.fsm, has_replica-add cmd w.fsm c' n)

  -- The report of a job that is registered, in a well-formed state and with proposals that are
  -- committed: after a success the chunk of the job lists its target as well, if the chunk is
  -- registered, or for a job that deletes its source lists the source no longer; after a failure no
  -- list changes. No other replica changes. The chunk is looked at again, after the delay for one more
  -- attempt than the job has, exactly after a failure that leaves it with fewer live replicas than the
  -- replication factor.
  pub on_job_complete_exact :
      (node_id jid : String) (success : Bool) (w : World) (job : RepairJob) (c n : String)
      → IsWellFormed w.fsm
      → get_repair_job w.fsm jid ≡ ok job
      → let x = on_job_complete env node_id jid success w in
        (has_replica c n x.world.fsm ≡ listed_after job success c n w.fsm)
        × (x.retry ≡ retry_after job success w)
  unfolding on_job_complete
  on_job_complete_exact node_id jid true w job c n h e =
      let w' : World = record w { rs = clear_pending node_id jid w.rs } in
      (
        ground (
          arith,
          e,
          has_replica-propose_evict env all job.chunk_id job.source_node_id
              "over-replicated repair completed" w' h.links c n,
          has_replica-propose_add job.chunk_id job.target_node_id w' c n,
        ),
        ground (arith, e),
      )
  on_job_complete_exact node_id jid false w job c n h e =
      failed (get_chunk_locations w.fsm job.chunk_id) refl
    where
      failed :
          (r : Result (List NodeEntry))
          → get_chunk_locations w.fsm job.chunk_id ≡ r
          → let x = on_job_complete env node_id jid false w in
            (has_replica c n x.world.fsm ≡ has_replica c n w.fsm)
            × (x.retry ≡ retry_after job false w)
      failed (err x) p = (ground (arith, e, p), ground (arith, e, p))
      failed (ok live) p =
          let rf = clear_pending-replication_factor node_id jid w.rs in
          let short = positive_iff w.rs.replication_factor (length live) in
          (ground (arith, e, p, rf, short), ground (arith, e, p, rf, short))
