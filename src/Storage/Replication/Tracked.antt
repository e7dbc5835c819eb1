-- ===== src/Storage/Replication/Tracked.antt =====
-- The keys in flight are those of the jobs that are claimed, queued or worked on.
use distributed_fs.Common.{
  ℕ, zero, suc, ◌+◌, ◌≤◌, String, true, List, [], ◌∷◌, ◌≡◌, refl, some, arith, snoc, length, ◌==◌,
  if◌then◌else◌, Option-cases, inl, inr, length-append,
}
use distributed_fs.Common.Registry.{lookup, has, lookup-insert, lookup-delete}
use distributed_fs.Storage.Replication.{
  RepairJob, ReplicationManager, job_key, new_replication_manager, pick, claim, offer, start_job,
  finish_job, Event, claims, offers, starts, finishes, happen, happen_all, repair_queue_cap,
  num_repair_workers,
}

-- How many of some jobs have a key.
unfoldable pub count : String → List RepairJob → ℕ
count k [] = 0
count k (job ∷ jobs) = (if job_key job == k then 1 else 0) + count k jobs

count-snoc :
    (k : String) (jobs : List RepairJob) (job : RepairJob)
    → count k (snoc jobs job) ≡ count k (job ∷ jobs)
unfolding count
count-snoc k [] job = refl
count-snoc k (j ∷ jobs) job = ground (arith, count-snoc k jobs job)

count-pick :
    (k : String) (n : ℕ) (jobs : List RepairJob) (job : RepairJob) (others : List RepairJob)
    → pick n jobs ≡ some (job, others)
    → (count k jobs ≡ count k (job ∷ others)) × (length jobs ≡ suc (length others))
unfolding pick count
count-pick k n [] job others e = ground (arith, e)
count-pick k zero (j ∷ jobs) job others e = ground (arith, e)
count-pick k (suc n) (j ∷ jobs) job others e = elim (Option-cases (pick n jobs)) [
  | inl gone ↦ ground (arith, e, gone)
  | inr ((y, ys), there) ↦ ground (arith, e, there, count-pick k n jobs y ys there)
]

-- Every key is in flight with exactly one job, or with none and not in flight; and the queue and the
-- workers keep to their numbers.
pub record IsTracked (m : ReplicationManager) : Type 0 where
  pub once :
      (k : String)
      → count k m.claimed + count k m.repair_q + count k m.working
        ≡ (if has k m.inflight then 1 else 0)
  pub queue : length m.repair_q ≤ repair_queue_cap
  pub workers : length m.working ≤ num_repair_workers

pub claim-IsTracked :
    (job : RepairJob) (m : ReplicationManager) → IsTracked m → IsTracked (claim job m).0
unfolding claim count
claim-IsTracked job m h = record {
  once = λ k. ground (arith, h.once k, lookup-insert (job_key job) true m.inflight k);
  queue = ground (arith, h.queue);
  workers = ground (arith, h.workers);
}

pub offer-IsTracked : (n : ℕ) (m : ReplicationManager) → IsTracked m → IsTracked (offer n m).0
unfolding offer count
offer-IsTracked n m h = elim (Option-cases (pick n m.claimed)) [
  | inl nobody ↦ record {
    once = λ k. ground (arith, nobody, h.once k);
    queue = ground (arith, nobody, h.queue);
    workers = ground (arith, nobody, h.workers);
  }
  | inr ((job, others), there) ↦ record {
    once = λ k. ground (
      arith,
      there,
      h.once k,
      count-pick k n m.claimed job others there,
      count-snoc k m.repair_q job,
      lookup-delete (job_key job) m.inflight k,
    );
    queue = ground (arith, there, h.queue, length-append m.repair_q (job ∷ []));
    workers = ground (arith, there, h.workers);
  }
]

start-IsTracked : (m : ReplicationManager) → IsTracked m → IsTracked (start_job m)
unfolding start_job count
start-IsTracked m h = record {
  once = λ k. ground (arith, h.once k);
  queue = ground (arith, h.queue);
  workers = ground (arith, h.workers);
}

finish-IsTracked : (n : ℕ) (m : ReplicationManager) → IsTracked m → IsTracked (finish_job n m)
unfolding finish_job count
finish-IsTracked n m h = elim (Option-cases (pick n m.working)) [
  | inl nobody ↦ record {
    once = λ k. ground (arith, nobody, h.once k);
    queue = ground (arith, nobody, h.queue);
    workers = ground (arith, nobody, h.workers);
  }
  | inr ((job, others), there) ↦ record {
    once = λ k. ground (
      arith,
      there,
      h.once k,
      count-pick k n m.working job others there,
      lookup-delete (job_key job) m.inflight k,
    );
    queue = ground (arith, there, h.queue);
    workers = ground (arith, there, h.workers, count-pick "" n m.working job others there);
  }
]

happen-IsTracked :
    (es : List Event) (m : ReplicationManager) → IsTracked m → IsTracked (happen_all es m)
unfolding happen_all happen
happen-IsTracked [] m h = h
happen-IsTracked (claims job ∷ es) m h =
    happen-IsTracked es (claim job m).0 (claim-IsTracked job m h)
happen-IsTracked (offers n ∷ es) m h = happen-IsTracked es (offer n m).0 (offer-IsTracked n m h)
happen-IsTracked (starts ∷ es) m h = happen-IsTracked es (start_job m) (start-IsTracked m h)
happen-IsTracked (finishes n ∷ es) m h =
    happen-IsTracked es (finish_job n m) (finish-IsTracked n m h)

-- However the calls and the workers interleave, each chunk and target has at most one job that is
-- claimed, queued or worked on, its key is in flight exactly while it has one, at most 256 jobs are
-- queued and at most four are worked on.
pub happen_all-IsTracked : (es : List Event) → IsTracked (happen_all es new_replication_manager)
unfolding new_replication_manager count lookup
happen_all-IsTracked es =
    happen-IsTracked es new_replication_manager
      (record { once = λ k. ground arith; queue = omega arith; workers = omega arith })
