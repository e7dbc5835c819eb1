-- ===== src/Server/Keeps.antt =====
-- What every request keeps, and what one on a follower does.
use distributed_fs.Common.{
  ℕ, String, Bool, false, ◌≡◌, some, ◌==◌, arith, inl, inr, Option-cases, if◌then◌else◌,
}
use distributed_fs.Common.Registry.{Registry, lookup, insert}
use distributed_fs.Fsm.Types.{NodeEntry}
use distributed_fs.Fsm.Commands.{Command}
use distributed_fs.Fsm.State.{MetadataFsm}
use distributed_fs.Fsm.Propose.{
  IsProposer, propose-keeps, update_repair_job_status, propose_update_node_space,
}
use distributed_fs.Fsm.Handlers.Nodes.{update_last_seen}
use distributed_fs.Fsm.Invariant.Keys.{IsTable, insert-IsTable, node_key}
use distributed_fs.Fsm.Invariant.Log.{IsWellFormed, apply_command-IsWellFormed}
use distributed_fs.Scheduler.State.{World}
use distributed_fs.Scheduler.Schedule.{trigger_repair, schedule_repair_for_chunk}
use distributed_fs.Scheduler.Jobs.{on_job_complete}
use distributed_fs.Scheduler.Keeps.{trigger-keeps, for_chunk-keeps, complete-keeps}
use distributed_fs.Server.{
  HandlerDeps, Service, unavailable, failed_precondition, leader_redirect, on_leader, proposing,
}
use distributed_fs.Server.Nodes.{
  serve_register_node, serve_deregister_node, serve_heartbeat, serve_report_repair_result,
  note_heartbeat, HeartbeatRequest,
}
use distributed_fs.Server.Files.{
  serve_create_file, serve_get_file, serve_delete_file, serve_list_files, serve_commit_file,
}
use distributed_fs.Server.Chunks.{
  serve_commit_chunk, serve_get_chunk_locations, serve_report_corruption,
}
use distributed_fs.Server.Requests.{
  Request, serve, register_node_request, deregister_node_request, heartbeat_request,
  report_repair_result_request, create_file_request, get_file_request, delete_file_request,
  list_files_request, commit_file_request, commit_chunk_request, get_chunk_locations_request,
  report_corruption_request,
}

-- A request to a node that does not lead changes nothing, and its code tells whether a leader is
-- known.
pub serve_follower :
    (d : HandlerDeps) (r : Request) (v : Service)
    → d.is_leader ≡ false
    → serve d r v ≡ (v, some (if d.leader_address == "" then unavailable else failed_precondition))
unfolding serve on_leader leader_redirect serve_register_node serve_deregister_node serve_heartbeat
    serve_report_repair_result serve_create_file serve_get_file serve_delete_file serve_list_files
    serve_commit_file serve_commit_chunk serve_get_chunk_locations serve_report_corruption
serve_follower d (register_node_request r) v h = ground arith
serve_follower d (deregister_node_request n) v h = ground arith
serve_follower d (heartbeat_request r) v h = ground arith
serve_follower d (report_repair_result_request r) v h = ground arith
serve_follower d (create_file_request r) v h = ground arith
serve_follower d (get_file_request f) v h = ground arith
serve_follower d (delete_file_request f) v h = ground arith
serve_follower d list_files_request v h = ground arith
serve_follower d (commit_file_request r) v h = ground arith
serve_follower d (commit_chunk_request r) v h = ground arith
serve_follower d (get_chunk_locations_request c) v h = ground arith
serve_follower d (report_corruption_request c n) v h = ground arith

-- The invariant asks of the nodes only that they are a table.
renode-IsWellFormed :
    (m : Registry NodeEntry) (s : MetadataFsm)
    → IsTable node_key m
    → IsWellFormed s
    → IsWellFormed (record s { node_registry = m })
renode-IsWellFormed m s t h = record {
  keys = record {
    files = h.keys.files;
    chunks = h.keys.chunks;
    nodes = t;
    jobs = h.keys.jobs;
    md_nodes = h.keys.md_nodes;
  };
  links = record {
    file_chunks = h.links.file_chunks;
    chunk_files = h.links.chunk_files;
    committed = h.links.committed;
    distinct = h.links.distinct;
  };
}

-- The time at which a node was seen is no part of the invariant.
update_last_seen-IsWellFormed :
    (n : String) (t : ℕ) (s : MetadataFsm)
    → IsWellFormed s
    → IsWellFormed (update_last_seen n t s).0
unfolding update_last_seen
update_last_seen-IsWellFormed n t s h = elim (Option-cases (lookup n s.node_registry)) [
  | inl e ↦ rw (e, update_last_seen) h
  | inr (node, e) ↦
      let node' = record node { last_seen = t } in
      let table =
        insert-IsTable node_key n node' s.node_registry (h.keys.nodes.keyed n node e)
          h.keys.nodes in
      rw (e, update_last_seen) (renode-IsWellFormed (insert n node' s.node_registry) s table h)
]

module _ (d : HandlerDeps) (o : IsProposer d.env.propose) where
  proposal : (c : Command) (s : MetadataFsm) → IsWellFormed s → IsWellFormed (d.env.propose c s).0
  proposal = propose-keeps d.env.propose o IsWellFormed apply_command-IsWellFormed

  heartbeat-IsWellFormed :
      (r : HeartbeatRequest) (v : Service)
      → IsWellFormed v.world.fsm
      → IsWellFormed (note_heartbeat d r v).world.fsm
  unfolding note_heartbeat propose_update_node_space
  heartbeat-IsWellFormed r v h =
      grind (arith, proposal, update_last_seen-IsWellFormed r.node_id d.env.now v.world.fsm h)

  repair :
      (n : String) (w : World) → IsWellFormed w.fsm → IsWellFormed (trigger_repair d.env n w).fsm
  repair = trigger-keeps d.env o IsWellFormed apply_command-IsWellFormed

  schedule :
      (c : String) (w : World)
      → IsWellFormed w.fsm
      → IsWellFormed (schedule_repair_for_chunk d.env c w).fsm
  schedule = for_chunk-keeps d.env o IsWellFormed apply_command-IsWellFormed

  complete :
      (n j : String) (b : Bool) (w : World)
      → IsWellFormed w.fsm
      → IsWellFormed (on_job_complete d.env n j b w).world.fsm
  complete = complete-keeps d.env o IsWellFormed apply_command-IsWellFormed

-- Every request keeps the state machine well formed, whatever Raft does with its proposals.
pub serve-IsWellFormed :
    (d : HandlerDeps) (r : Request) (v : Service)
    → IsProposer d.env.propose
    → IsWellFormed v.world.fsm
    → IsWellFormed (serve d r v).0.world.fsm
unfolding serve on_leader proposing leader_redirect serve_register_node serve_deregister_node
    serve_heartbeat serve_report_repair_result serve_create_file serve_get_file serve_delete_file
    serve_list_files serve_commit_file serve_commit_chunk serve_get_chunk_locations
    serve_report_corruption update_repair_job_status
serve-IsWellFormed d (register_node_request r) v o h = grind (arith, proposal d o)
serve-IsWellFormed d (deregister_node_request n) v o h = grind (arith, proposal d o, repair d o)
serve-IsWellFormed d (heartbeat_request r) v o h = grind (arith, heartbeat-IsWellFormed d o r v h)
serve-IsWellFormed d (report_repair_result_request r) v o h =
    grind (arith, proposal d o, complete d o)
serve-IsWellFormed d (create_file_request r) v o h = grind (arith, proposal d o)
serve-IsWellFormed d (get_file_request f) v o h = grind arith
serve-IsWellFormed d (delete_file_request f) v o h = grind (arith, proposal d o)
serve-IsWellFormed d list_files_request v o h = grind arith
serve-IsWellFormed d (commit_file_request r) v o h = grind (arith, proposal d o)
serve-IsWellFormed d (commit_chunk_request r) v o h = grind (arith, proposal d o, schedule d o)
serve-IsWellFormed d (get_chunk_locations_request c) v o h = grind arith
serve-IsWellFormed d (report_corruption_request c n) v o h =
    grind (arith, proposal d o, schedule d o)
