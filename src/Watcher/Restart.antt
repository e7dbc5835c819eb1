-- ===== src/Watcher/Restart.antt =====
-- The first sweep after a restart from a snapshot, before any heartbeat.
use mathlib.Core.Path.{subst}
use distributed_fs.Common.{
  ℕ, ◌<◌, String, true, false, not, ◌&&◌, none, some, [], ◌∷◌, ◌≡◌, sym, refl, Option-cases, inl,
  inr, arith, ap, ◌∙◌,
}
use distributed_fs.Common.Registry.{Registry, lookup, HasUniqueKeys}
use distributed_fs.Fsm.Types.{NodeEntry}
use distributed_fs.Fsm.State.{MetadataFsm, ok}
use distributed_fs.Fsm.Scans.{alive_at, has_replica}
use distributed_fs.Fsm.Invariant.Keys.{IsTable, node_key}
use distributed_fs.Fsm.Invariant.Log.{IsWellFormed}
use distributed_fs.Fsm.Snapshot.{
  SnapshotJson, ReadsBack, snapshot, restore, unseen, unseen_all, restore-persist,
}
use distributed_fs.Scheduler.State.{Env, World}
use distributed_fs.Scheduler.Frame.{Commits}
use distributed_fs.Scheduler.Schedule.{trigger_repair}
use distributed_fs.Watcher.{sweep}
use distributed_fs.Watcher.Sweep.{overdue_at, sweep_exact}

lookup-unseen_all :
    (m : Registry NodeEntry) (n : String)
    → lookup n (unseen_all m) ≡ elim (lookup n m) [ none ↦ none | some e ↦ some (unseen e) ]
unfolding unseen_all lookup
lookup-unseen_all [] n = refl
lookup-unseen_all ((k, e) ∷ m) n = ground (arith, lookup-unseen_all m n)

unseen_all-HasUniqueKeys : (m : Registry NodeEntry) → HasUniqueKeys m → HasUniqueKeys (unseen_all m)
unfolding unseen_all
unseen_all-HasUniqueKeys [] h = h
unseen_all-HasUniqueKeys ((k, e) ∷ m) h =
    (ground (arith, h.0, lookup-unseen_all m k), unseen_all-HasUniqueKeys m h.1)

unseen_all-IsTable : (m : Registry NodeEntry) → IsTable node_key m → IsTable node_key (unseen_all m)
unseen_all-IsTable m h = record {
  keyed = λ k v e. elim (Option-cases (lookup k m)) [
    | inl gone ↦ absurd (ground (arith, e, gone, lookup-unseen_all m k))
    | inr (x, there) ↦ ground (arith, e, there, lookup-unseen_all m k, h.keyed k x there)
  ];
  unique = unseen_all-HasUniqueKeys m h.unique;
}

-- A state without the times at which its nodes were last seen.
abbrev forgotten : MetadataFsm → MetadataFsm
forgotten s = record s { node_registry = unseen_all s.node_registry }

forgotten-IsWellFormed : (s : MetadataFsm) → IsWellFormed s → IsWellFormed (forgotten s)
forgotten-IsWellFormed s h = record {
  keys = record {
    files = h.keys.files;
    chunks = h.keys.chunks;
    nodes = unseen_all-IsTable s.node_registry h.keys.nodes;
    jobs = h.keys.jobs;
    md_nodes = h.keys.md_nodes;
  };
  links = record {
    file_chunks = h.links.file_chunks;
    chunk_files = h.links.chunk_files;
    committed = h.links.committed;
    distinct = h.links.distinct;
  };
}

alive_at-forgotten : (s : MetadataFsm) (n : String) → alive_at n (forgotten s) ≡ alive_at n s
alive_at-forgotten s n = ground (arith, lookup-unseen_all s.node_registry n)

overdue_at-forgotten :
    (now timeout : ℕ) (s : MetadataFsm) (n : String)
    → timeout < now
    → overdue_at now timeout n (forgotten s) ≡ alive_at n s
overdue_at-forgotten now timeout s n h = ground (arith, h, lookup-unseen_all s.node_registry n)

-- When a node restarts from the snapshot of a well-formed state, leads, and its proposals are
-- committed, then its first sweep before any heartbeat, at a time that is past the timeout, leaves no
-- node alive, and takes every node that was alive when the snapshot was made out of every replica
-- list; the other nodes stay in theirs. encoding/json does not write `LastSeen`, and reads back
-- everything else.
pub sweep-restore :
    {Bytes : Type 0} (j : SnapshotJson Bytes)
    → ReadsBack j
    → (s s' : MetadataFsm) (bytes : Bytes) (env : Env) (timeout : ℕ) (w : World) → IsWellFormed s
    → j.marshal (snapshot s) ≡ ok bytes
    → w.fsm ≡ (restore j (ok bytes) s').0
    → Commits env.propose
    → timeout < env.now
    → (n : String)
    → let w' = sweep env (some (trigger_repair env)) timeout true w in
      (alive_at n w'.fsm ≡ false)
      × ((c : String) → has_replica c n w'.fsm ≡ (has_replica c n s && not (alive_at n s)))
sweep-restore j back s s' bytes env timeout w well e at' commits late n =
    let same : forgotten s ≡ w.fsm =
      sym (at' ∙ ap (λ r. r.0) (restore-persist j back s s' bytes e)) in
    let exact =
      sweep_exact env timeout w commits (subst IsWellFormed same (forgotten-IsWellFormed s well))
        n in
    let overdue : overdue_at env.now timeout n w.fsm ≡ alive_at n s =
      subst (λ x. overdue_at env.now timeout n x ≡ alive_at n s) same
        (overdue_at-forgotten env.now timeout s n late) in
    let alive : alive_at n w.fsm ≡ alive_at n s =
      subst (λ x. alive_at n x ≡ alive_at n s) same (alive_at-forgotten s n) in
    (
      ground (arith, exact.0, overdue, alive),
      λ c.
          let lists : has_replica c n w.fsm ≡ has_replica c n s =
            subst (λ x. has_replica c n x ≡ has_replica c n s) same refl in
          ground (arith, exact.1 c, overdue, lists),
    )
