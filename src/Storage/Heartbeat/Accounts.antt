-- ===== src/Storage/Heartbeat/Accounts.antt =====
-- What becomes of the jobs that a heartbeat brings.
use mathlib.Core.Path.{subst}
use distributed_fs.Common.{
  String_discrete, String, Bool, ltb, sym, ◌++◌, length, ℕ, suc, true, false, List, [], ◌∷◌, ◌≡◌,
  ◌⊎◌, refl, some, arith, snoc, inl, inr, Bool-cases, if◌then◌else◌,
}
use distributed_fs.Common.Registry.{has, insert, lookup-insert, lookup-delete}
use distributed_fs.Common.Orders.{IsIn, IsIn-append-left, IsIn-append-right}
use distributed_fs.Server.Nodes.{RepairInstruction}
use distributed_fs.Storage.Replication.{
  RepairJob, ReplicationManager, job_key, pick, claim, offer, enqueue_repair, repair_queue_cap,
}
use distributed_fs.Storage.Replication.Tracked.{IsTracked, claim-IsTracked, offer-IsTracked}
use distributed_fs.Storage.Heartbeat.{
  Message, NodeInfo, Sender, job_of, dropped, take_jobs, process_heartbeat_response,
}

-- The key of a job is in flight.
abbrev pub InFlight : RepairJob → ReplicationManager → Type 0
InFlight job m = has (job_key job) m.inflight ≡ true

-- What is in flight afterwards was so before, or has the job's key.
enqueue_repair-InFlight :
    (job other : RepairJob) (m : ReplicationManager)
    → InFlight other (enqueue_repair job m).0
    → InFlight other m ⊎ (job_key job ≡ job_key other)
unfolding enqueue_repair claim offer pick
enqueue_repair-InFlight job other m h = elim (String_discrete (job_key job) (job_key other)) [
  | yes p ↦ inr p
  | no n ↦ inl (
      ground (
        arith,
        h,
        n,
        lookup-insert (job_key job) true m.inflight (job_key other),
        lookup-delete (job_key job) (insert (job_key job) true m.inflight) (job_key other),
      ))
]

-- The queue is as it was, or has the job as its last.
data Queued (job : RepairJob) (m : ReplicationManager) (x : ReplicationManager × Bool)
    : Type 0 where
  was_in_flight : InFlight job m → x.0.repair_q ≡ m.repair_q → x.1 ≡ true → Queued job m x
  accepted : x.0.repair_q ≡ snoc m.repair_q job → x.1 ≡ true → Queued job m x
  not_accepted : x.0.repair_q ≡ m.repair_q → x.1 ≡ false → Queued job m x

enqueue_repair-Queued :
    (job : RepairJob) (m : ReplicationManager) → Queued job m (enqueue_repair job m)
unfolding enqueue_repair claim offer pick
enqueue_repair-Queued job m = elim (Bool-cases (has (job_key job) m.inflight)) [
  | inl e ↦ was_in_flight e (ground (arith, e)) (ground (arith, e))
  | inr e ↦ elim (Bool-cases (ltb (length m.repair_q) repair_queue_cap)) [
    | inl e' ↦ accepted (ground (arith, e, e')) (ground (arith, e, e'))
    | inr e' ↦ not_accepted (ground (arith, e, e')) (ground (arith, e, e'))
  ]
]

pub enqueue_repair-IsTracked :
    (job : RepairJob) (m : ReplicationManager) → IsTracked m → IsTracked (enqueue_repair job m).0
unfolding enqueue_repair
enqueue_repair-IsTracked job m t = elim (Bool-cases (claim job m).1) [
  | inl e ↦
      subst IsTracked {x = (offer 0 (claim job m).0).0} {y = (enqueue_repair job m).0}
        (ground (arith, e)) (offer-IsTracked 0 (claim job m).0 (claim-IsTracked job m t))
  | inr e ↦
      subst IsTracked {x = (claim job m).0} {y = (enqueue_repair job m).0} (ground (arith, e))
        (claim-IsTracked job m t)
]

-- The keys of the jobs of instructions.
abbrev pub keys_of : List RepairInstruction → List String
keys_of [] = []
keys_of (v ∷ vs) = job_key (job_of v) ∷ keys_of vs

-- The chunk and target of a job were in flight before, or are those of an earlier instruction.
abbrev pub IsBusy : List RepairInstruction → RepairInstruction → ReplicationManager → Type 0
IsBusy earlier val m = InFlight (job_of val) m ⊎ IsIn (keys_of earlier) (job_key (job_of val))

module _ (ni : NodeInfo) where
  -- The job itself, with its ID, is in the queue, or its failure was reported.
  abbrev pub IsTaken : Sender → RepairInstruction → Type 0
  IsTaken hs val = IsIn hs.replicator.repair_q (job_of val) ⊎ IsIn hs.sent (dropped ni val)

  -- After one job.
  abbrev after : RepairInstruction → Sender → Sender
  after v hs = record {
    replicator = (enqueue_repair (job_of v) hs.replicator).0;
    sent =
        if (enqueue_repair (job_of v) hs.replicator).1
        then hs.sent
        else snoc hs.sent (dropped ni v);
  }

  after-sent :
      (v : RepairInstruction) (hs : Sender) (x : Message)
      → IsIn hs.sent x
      → IsIn (after v hs).sent x
  after-sent v hs x h = elim (Bool-cases (enqueue_repair (job_of v) hs.replicator).1) [
    | inl e ↦ subst (λ sent. IsIn sent x) (ground (arith, e)) h
    | inr e ↦
        subst (λ sent. IsIn sent x) {x = snoc hs.sent (dropped ni v)} (ground (arith, e))
          (IsIn-append-left hs.sent (dropped ni v ∷ []) x h)
  ]

  after-IsTaken :
      (v : RepairInstruction) (hs : Sender) (val : RepairInstruction)
      → IsTaken hs val
      → IsTaken (after v hs) val
  after-IsTaken v hs val (inr h) = inr (after-sent v hs (dropped ni val) h)
  after-IsTaken v hs val (inl h) = inl (go (enqueue_repair-Queued (job_of v) hs.replicator))
    where
      go :
          Queued (job_of v) hs.replicator (enqueue_repair (job_of v) hs.replicator)
          → IsIn (after v hs).replicator.repair_q (job_of val)
      go (was_in_flight f q r) = subst (λ l. IsIn l (job_of val)) (sym q) h
      go (accepted q r) =
          subst (λ l. IsIn l (job_of val)) (sym q)
            (IsIn-append-left hs.replicator.repair_q (job_of v ∷ []) (job_of val) h)
      go (not_accepted q r) = subst (λ l. IsIn l (job_of val)) (sym q) h

  -- A job of its own.
  after_own :
      (v : RepairInstruction) (hs : Sender)
      → IsTaken (after v hs) v ⊎ InFlight (job_of v) hs.replicator
  after_own v hs = go (enqueue_repair-Queued (job_of v) hs.replicator)
    where
      go :
          Queued (job_of v) hs.replicator (enqueue_repair (job_of v) hs.replicator)
          → IsTaken (after v hs) v ⊎ InFlight (job_of v) hs.replicator
      go (was_in_flight f q r) = inr f
      go (accepted q r) = inl (
          inl (
            subst (λ l. IsIn l (job_of v)) (sym q)
              (IsIn-append-right hs.replicator.repair_q (job_of v ∷ []) (job_of v) (inl refl))))
      go (not_accepted q r) = inl (
          inr (
            subst (λ l. IsIn l (dropped ni v)) {x = snoc hs.sent (dropped ni v)} (ground (arith, r))
              (IsIn-append-right hs.sent (dropped ni v ∷ []) (dropped ni v) (inl refl))))

  take_jobs-IsTaken :
      (n : ℕ) (vals : List RepairInstruction) (hs : Sender) (val : RepairInstruction)
      → IsTaken hs val
      → IsTaken (take_jobs ni (λ i. false) n vals hs) val
  unfolding take_jobs
  take_jobs-IsTaken n [] hs val h = h
  take_jobs-IsTaken n (v ∷ vals) hs val h =
      take_jobs-IsTaken (suc n) vals (after v hs) val (after-IsTaken v hs val h)

  take_jobs-IsTracked :
      (n : ℕ) (vals : List RepairInstruction) (hs : Sender)
      → IsTracked hs.replicator
      → IsTracked (take_jobs ni (λ i. false) n vals hs).replicator
  unfolding take_jobs
  take_jobs-IsTracked n [] hs t = t
  take_jobs-IsTracked n (v ∷ vals) hs t =
      take_jobs-IsTracked (suc n) vals (after v hs)
        (enqueue_repair-IsTracked (job_of v) hs.replicator t)

  before_IsBusy :
      (v val : RepairInstruction) (pre : List RepairInstruction) (hs : Sender)
      → IsBusy pre val (after v hs).replicator
      → IsBusy (v ∷ pre) val hs.replicator
  before_IsBusy v val pre hs (inr i) = inr (inr i)
  before_IsBusy v val pre hs (inl f) =
      go (enqueue_repair-InFlight (job_of v) (job_of val) hs.replicator f)
    where
      go :
          InFlight (job_of val) hs.replicator ⊎ (job_key (job_of v) ≡ job_key (job_of val))
          → IsBusy (v ∷ pre) val hs.replicator
      go (inl h) = inl h
      go (inr p) = inr (inl p)

  take_jobs_each :
      (n : ℕ) (pre : List RepairInstruction) (val : RepairInstruction)
      (post : List RepairInstruction) (hs : Sender)
      → IsTaken (take_jobs ni (λ i. false) n (pre ++ val ∷ post) hs) val
        ⊎ IsBusy pre val hs.replicator
  unfolding take_jobs
  take_jobs_each n [] val post hs = go (after_own val hs)
    where
      go :
          IsTaken (after val hs) val ⊎ InFlight (job_of val) hs.replicator
          → IsTaken (take_jobs ni (λ i. false) (suc n) post (after val hs)) val
            ⊎ IsBusy [] val hs.replicator
      go (inl h) = inl (take_jobs-IsTaken (suc n) post (after val hs) val h)
      go (inr f) = inr (inl f)
  take_jobs_each n (v ∷ pre) val post hs = go (take_jobs_each (suc n) pre val post (after v hs))
    where
      go :
          IsTaken (take_jobs ni (λ i. false) (suc n) (pre ++ val ∷ post) (after v hs)) val
            ⊎ IsBusy pre val (after v hs).replicator
          → IsTaken (take_jobs ni (λ i. false) (suc n) (pre ++ val ∷ post) (after v hs)) val
            ⊎ IsBusy (v ∷ pre) val hs.replicator
      go (inl h) = inl h
      go (inr b) = inr (before_IsBusy v val pre hs b)

  -- When the context is not done, each job of a heartbeat's response is itself in the queue afterwards,
  -- with its own ID, or was reported to the metadata service as failed, unless its chunk and target
  -- were in flight before the response or are those of an earlier job of it; of such a job nothing is
  -- said. The replicator still has at most one job for each chunk and target.
  pub process_heartbeat_response-IsTaken :
      (pre : List RepairInstruction) (val : RepairInstruction) (post : List RepairInstruction)
      (hs : Sender)
      → IsTracked hs.replicator
      → let hs' = process_heartbeat_response ni (λ i. false) (some (pre ++ val ∷ post)) hs in
        (IsTaken hs' val ⊎ IsBusy pre val hs.replicator) × IsTracked hs'.replicator
  unfolding process_heartbeat_response
  process_heartbeat_response-IsTaken pre val post hs t =
      (take_jobs_each 0 pre val post hs, take_jobs-IsTracked 0 (pre ++ val ∷ post) hs t)
