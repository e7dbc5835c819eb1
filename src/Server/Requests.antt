-- ===== src/Server/Requests.antt =====
-- A request to the metadata service, and the handler that serves it.
use distributed_fs.Common.{String, Option, none, some}
use distributed_fs.Fsm.Commands.{CommandCommitFile, CommandCommitChunk}
use distributed_fs.Server.{HandlerDeps, Service, Reply, reply, status, Code}
use distributed_fs.Server.Nodes.{
  RegisterNodeRequest, HeartbeatRequest, ReportRepairResultRequest, serve_register_node,
  serve_deregister_node, serve_heartbeat, serve_report_repair_result,
}
use distributed_fs.Server.Files.{
  CreateFileRequest, serve_create_file, serve_get_file, serve_delete_file, serve_list_files,
  serve_commit_file,
}
use distributed_fs.Server.Chunks.{
  serve_commit_chunk, serve_get_chunk_locations, serve_report_corruption,
}

pub data Request : Type 0 where
  register_node_request : RegisterNodeRequest → Request
  deregister_node_request : String → Request
  heartbeat_request : HeartbeatRequest → Request
  report_repair_result_request : ReportRepairResultRequest → Request
  create_file_request : CreateFileRequest → Request
  get_file_request : String → Request
  delete_file_request : String → Request
  list_files_request : Request
  commit_file_request : CommandCommitFile → Request
  commit_chunk_request : CommandCommitChunk → Request
  get_chunk_locations_request : String → Request
  report_corruption_request : String → String → Request

-- The code of a status, or none for a response.
abbrev pub outcome : {A : Type 0} → Service × Reply A → Service × Option Code
outcome (v, reply _) = (v, none)
outcome (v, status c _) = (v, some c)

unfoldable pub serve : HandlerDeps → Request → Service → Service × Option Code
serve d (register_node_request r) v = outcome (serve_register_node d r v)
serve d (deregister_node_request n) v = outcome (serve_deregister_node d n v)
serve d (heartbeat_request r) v = outcome (serve_heartbeat d r v)
serve d (report_repair_result_request r) v = outcome (serve_report_repair_result d r v)
serve d (create_file_request r) v = outcome (serve_create_file d r v)
serve d (get_file_request f) v = outcome (serve_get_file d f v)
serve d (delete_file_request f) v = outcome (serve_delete_file d f v)
serve d list_files_request v = outcome (serve_list_files d v)
serve d (commit_file_request r) v = outcome (serve_commit_file d r v)
serve d (commit_chunk_request r) v = outcome (serve_commit_chunk d r v)
serve d (get_chunk_locations_request c) v = outcome (serve_get_chunk_locations d c v)
serve d (report_corruption_request c n) v = outcome (serve_report_corruption d c n v)
