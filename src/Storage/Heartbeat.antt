-- ===== src/Storage/Heartbeat.antt =====
-- storage/service: the heartbeats of a storage node, and its registration. What the metadata service
-- answers and whether the context is done are inputs; what is sent to it is kept in order. The jobs
-- of a response are taken in one step, and a report of a job that is dropped is sent at once.
use distributed_fs.Common.{
  ℕ, suc, ◌+◌, ◌-◌, ◌%◌, ◌^◌, String, Bool, true, false, List, [], ◌∷◌, ◌++◌, Option, none, some,
  snoc, ltb, if◌then◌else◌,
}
use distributed_fs.Common.Int.{ℤ, pos, negsuc}
use distributed_fs.Server.{Code, not_found}
use distributed_fs.Server.Nodes.{ReportRepairResultRequest, RepairInstruction}
use distributed_fs.Storage.Errors.{StoreError, Result, ok, err}
use distributed_fs.Storage.Replication.{RepairJob, ReplicationManager, enqueue_repair}
pub mod Accounts

-- What `NodeInfo` answers.
pub record NodeInfo : Type 0 where
  pub free_space : ℕ
  pub node_id : String
  pub chunk_count : ℕ
  pub chunk_list : Result (List String)
  pub grpc_addr : String

-- The conversion of an unsigned number to `w` bits with a sign.
abbrev pub to_signed : ℕ → ℕ → ℤ
to_signed w n = let m = n % 2 ^ w in if ltb m (2 ^ (w - 1)) then pos m else negsuc (2 ^ w - m - 1)

-- What is sent to the metadata service.
pub data Message : Type 0 where
  beat : String → ℤ → ℤ → Message
  register : String → String → ℤ → List String → Message
  deregister : String → Message
  report : ReportRepairResultRequest → Message

-- The answer to a heartbeat; a response may be nil.
pub data BeatAnswer : Type 0 where
  response : Option (List RepairInstruction) → BeatAnswer
  beat_status : Code → BeatAnswer

-- The replicator, and what was sent.
pub record Sender : Type 0 where
  pub replicator : ReplicationManager
  pub sent : List Message

abbrev pub job_of : RepairInstruction → RepairJob
job_of val = record {
  job_id = val.job_id;
  chunk_id = val.chunk_id;
  source = val.source_addr;
  target = val.target_addr;
}

module _ (ni : NodeInfo) where
  -- The report of a job for which the queue has no room.
  abbrev pub dropped : RepairInstruction → Message
  dropped val = report (record { node_id = ni.node_id; job_id = val.job_id; job_succeed = false })

  -- The loop, given whether the context is done before each job.
  unfoldable pub take_jobs : (ℕ → Bool) → ℕ → List RepairInstruction → Sender → Sender
  take_jobs stopped n [] hs = hs
  take_jobs stopped n (val ∷ vals) hs =
      let (m, enqueued) = enqueue_repair (job_of val) hs.replicator in
      let hs' : Sender = record {
        replicator = m;
        sent = if enqueued then hs.sent else snoc hs.sent (dropped val);
      } in
      let rest = take_jobs stopped (suc n) vals hs' in if stopped n then hs else rest

  unfoldable pub process_heartbeat_response :
      (ℕ → Bool) → Option (List RepairInstruction) → Sender → Sender
  process_heartbeat_response stopped none hs = hs
  process_heartbeat_response stopped (some jobs) hs = take_jobs stopped 0 jobs hs

  -- The message, and an error of the store before it.
  unfoldable pub register_with_metadata : Sender → Sender × Option StoreError
  register_with_metadata hs = elim ni.chunk_list [
    | err e ↦ (hs, some e)
    | ok ids ↦ (
      record hs {
        sent = snoc hs.sent (register ni.node_id ni.grpc_addr (to_signed 64 ni.free_space) ids);
      },
      none,
    )
  ]

  unfoldable pub deregister_from_metadata : Sender → Sender
  deregister_from_metadata hs = record hs { sent = snoc hs.sent (deregister ni.node_id) }

  unfoldable pub send_beat : Sender → Sender
  send_beat hs = record hs {
    sent =
        snoc hs.sent (beat ni.node_id (to_signed 64 ni.free_space) (to_signed 32 ni.chunk_count));
  }

  -- A tick, given whether there is a registerer. Errors are only logged.
  unfoldable pub heartbeat_tick : Bool → (ℕ → Bool) → BeatAnswer → Sender → Sender
  heartbeat_tick has_registerer stopped (beat_status not_found) hs =
      if has_registerer then (register_with_metadata (send_beat hs)).0 else send_beat hs
  heartbeat_tick has_registerer stopped (beat_status c) hs = send_beat hs
  heartbeat_tick has_registerer stopped (response res) hs =
      process_heartbeat_response stopped res (send_beat hs)

-- `Start` and `StopAndWait`: the first call of either decides, and a stop cancels what was started.
pub record Lifecycle : Type 0 where
  pub once_done : Bool
  pub started : Bool
  pub cancelled : Bool

unfoldable pub start : Lifecycle → Lifecycle
start c = if c.once_done then c else record { once_done = true; started = true; cancelled = false }

unfoldable pub stop_and_wait : Lifecycle → Lifecycle
stop_and_wait c =
    if c.started
    then record c { once_done = true; cancelled = true }
    else record c { once_done = true }
