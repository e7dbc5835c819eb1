-- ===== src/Fsm/Handlers/Jobs.antt =====
-- The handlers of the repair-job commands.
use distributed_fs.Common.{Option, none, some, ◌==◌, if◌then◌else◌}
use distributed_fs.Common.Registry.{lookup, insert}
use distributed_fs.Fsm.Types.{RepairJob, RepairStatus}
use distributed_fs.Fsm.Commands.{CommandCreateRepairJob, CommandUpdateRepairJob}
use distributed_fs.Fsm.State.{MetadataFsm, FsmError, err_job_not_found, new_error, join}

abbrev pub new_job : CommandCreateRepairJob → RepairJob
new_job req = record {
  job_id = req.job_id;
  chunk_id = req.chunk_id;
  error = "";
  delete_source = req.delete_source;
  source_node_id = req.source_node;
  target_node_id = req.target_node;
  status = RepairStatus.pending;
  attempts = 0;
  created_at = req.created_at;
  updated_at = req.created_at;
}

unfoldable pub handle_create_repair_job :
    CommandCreateRepairJob → MetadataFsm → MetadataFsm × Option FsmError
handle_create_repair_job req s = elim (lookup req.job_id s.repair_job_registry) [
  | some _ ↦ (s, some (new_error "cmdCreateRepairJob: job already exists"))
  | none ↦ (
    record s { repair_job_registry = insert req.job_id (new_job req) s.repair_job_registry },
    none,
  )
]

unfoldable pub handle_update_repair_job :
    CommandUpdateRepairJob → MetadataFsm → MetadataFsm × Option FsmError
handle_update_repair_job req s = elim (lookup req.job_id s.repair_job_registry) [
  | none ↦ (s, some (join "cmdUpdateRepairJob: " err_job_not_found))
  | some job ↦
      let job' = record job {
        status = req.status;
        updated_at = req.updated_at;
        error = req.error;
        attempts = req.attempts;
        source_node_id = if req.source_node == "" then job.source_node_id else req.source_node;
      } in
      (record s { repair_job_registry = insert req.job_id job' s.repair_job_registry }, none)
]
