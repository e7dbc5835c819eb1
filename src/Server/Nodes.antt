-- ===== src/Server/Nodes.antt =====
-- metadata/server/node_handlers.go and repair_handlers.go.
use distributed_fs.Common.{
  ℕ, suc, ◌%◌, String, Bool, List, [], ◌∷◌, none, some, ◌==◌, length, nat_eq, if◌then◌else◌,
}
use distributed_fs.Common.Registry.{Registry, lookup, insert}
use distributed_fs.Fsm.Types.{RepairStatus}
use distributed_fs.Fsm.Commands.{register_node, deregister_node}
use distributed_fs.Fsm.State.{MetadataFsm, ok, err, get_node, get_repair_job}
use distributed_fs.Fsm.Handlers.Nodes.{update_last_seen}
use distributed_fs.Fsm.Propose.{update_repair_job_status, propose_update_node_space}
use distributed_fs.Scheduler.Schedule.{trigger_repair}
use distributed_fs.Scheduler.Jobs.{get_pending_jobs_for_node, on_job_complete}
use distributed_fs.Server.{
  HandlerDeps, Service, Handler, reply, status, not_found, unknown, on_leader, proposing,
}

pub record RegisterNodeRequest : Type 0 where
  pub node_id : String
  pub address : String
  pub free_space : ℕ
  pub chunk_ids : List String

pub record HeartbeatRequest : Type 0 where
  pub node_id : String
  pub free_space : ℕ
  pub chunk_count : ℕ

pub record ReportRepairResultRequest : Type 0 where
  pub node_id : String
  pub job_id : String
  pub job_succeed : Bool

pub record RepairInstruction : Type 0 where
  pub job_id : String
  pub chunk_id : String
  pub source_node_id : String
  pub source_addr : String
  pub target_node_id : String
  pub target_addr : String
  pub delete_source : Bool

-- The address of a node, or "" for no node or one that is not registered.
unfoldable pub addr_of : MetadataFsm → String → String
addr_of s node_id =
    if node_id == "" then "" else elim (get_node s node_id) [ ok node ↦ node.address | err _ ↦ "" ]

unfoldable pub build_repair_instructions : MetadataFsm → List String → List RepairInstruction
build_repair_instructions s [] = []
build_repair_instructions s (jid ∷ jids) =
    let rest = build_repair_instructions s jids in
    elim (get_repair_job s jid) [
      | err _ ↦ rest
      | ok val ↦
          let ins : RepairInstruction = record {
            job_id = val.job_id;
            chunk_id = val.chunk_id;
            source_node_id = val.source_node_id;
            source_addr = addr_of s val.source_node_id;
            target_node_id = val.target_node_id;
            target_addr = addr_of s val.target_node_id;
            delete_source = val.delete_source;
          } in
          ins ∷ rest
    ]

abbrev pub count_of : String → Registry ℕ → ℕ
count_of k m = elim (lookup k m) [ some n ↦ n | none ↦ 0 ]

module _ (d : HandlerDeps) where
  unfoldable pub serve_register_node : RegisterNodeRequest → Handler String
  serve_register_node req = on_leader d (
      proposing d
        (register_node (record {
          node_id = req.node_id;
          address = req.address;
          free_space = req.free_space;
          chunk_count = length req.chunk_ids;
          created_at = d.env.now;
        }))
        (λ v. (record v { timers = insert req.node_id req.chunk_ids v.timers }, reply req.node_id)))

  unfoldable pub serve_deregister_node : String → Handler Unit
  serve_deregister_node node_id = on_leader d (λ v. elim (get_node v.world.fsm node_id) [
    | err _ ↦ (v, status not_found none)
    | ok _ ↦
        proposing d (deregister_node (record { node_id = node_id; updated_at = d.env.now }))
          (λ v'. (record v' { world = trigger_repair d.env node_id v'.world }, reply tt)) v
  ])

  -- Steps 0 to 2 for a registered node: the count, the time seen, and at every tenth heartbeat the
  -- free space. Errors are only logged.
  unfoldable pub note_heartbeat : HeartbeatRequest → Service → Service
  note_heartbeat req v =
      let count = suc (count_of req.node_id v.heartbeats_count) in
      let seen = (update_last_seen req.node_id d.env.now v.world.fsm).0 in
      let spaced =
        (propose_update_node_space d.env.propose d.env.now req.node_id req.free_space
          req.chunk_count seen).0 in
      record v {
        heartbeats_count = insert req.node_id count v.heartbeats_count;
        world = record (v.world) { fsm = if nat_eq (count % 10) 0 then spaced else seen };
      }

  unfoldable pub serve_heartbeat : HeartbeatRequest → Handler (List RepairInstruction)
  serve_heartbeat req = on_leader d (λ v. elim (get_node v.world.fsm req.node_id) [
    | err _ ↦ (v, status not_found none)
    | ok _ ↦
        let v' = note_heartbeat req v in
        let pending = get_pending_jobs_for_node req.node_id v'.world in
        (v', reply (build_repair_instructions v'.world.fsm pending))
  ])

  -- The errors here are no statuses, which gRPC reports as unknown.
  unfoldable pub serve_report_repair_result : ReportRepairResultRequest → Handler Unit
  serve_report_repair_result req = on_leader d (λ v.
      let outcome = if req.job_succeed then RepairStatus.done else RepairStatus.failed in
      let (s, e) =
        update_repair_job_status d.env.propose d.env.now req.job_id outcome v.world.fsm in
      let w = record (v.world) { fsm = s } in
      elim e [
        | some _ ↦ (record v { world = w }, status unknown none)
        | none ↦
            let r = on_job_complete d.env req.node_id req.job_id req.job_succeed w in
            elim (r.error) [
              | some _ ↦ (record v { world = r.world }, status unknown none)
              | none ↦ (record v { world = r.world }, reply tt)
            ]
      ])
