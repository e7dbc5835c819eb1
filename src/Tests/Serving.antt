-- ===== src/Tests/Serving.antt =====
-- The theorems about the gRPC handlers at the sample cluster.
use distributed_fs.Common.{
  All, suc, String, true, false, not, ◌&&◌, [], ◌∷◌, ◌++◌, ◌≡◌, refl, some, ◌==◌, length, contains,
  String_discrete,
}
use distributed_fs.Common.Registry.{lookup, has}
use distributed_fs.Fsm.Types.{FileRecord, FileStatus}
use distributed_fs.Fsm.Commands.{commit_file}
use distributed_fs.Fsm.State.{MetadataFsm, new_empty_metadata_fsm}
use distributed_fs.Fsm.Apply.{apply_command, replay}
use distributed_fs.Fsm.Scans.{has_replica, alive_at}
use distributed_fs.Fsm.Invariant.Log.{IsWellFormed, replay-IsWellFormed}
use distributed_fs.Placement.Sorting.{sort, insert_sorted}
use distributed_fs.Placement.Strategy.{
  most_free_space_strategy, least_loaded_strategy, more_free, less_free, filter_nodes,
  filter_by_min_space, select_by, keep_spacious,
}
use distributed_fs.Placement.Primary.{most_free_space-IsStrategy}
use distributed_fs.Fsm.Reads.{live, get_live_nodes}
use distributed_fs.Scheduler.State.{Env, new_repair_scheduler}
use distributed_fs.Scheduler.Frame.{Commits}
use distributed_fs.Server.{HandlerDeps, Service, reply, unavailable, on_leader, proposing}
use distributed_fs.Server.Nodes.{serve_deregister_node}
use distributed_fs.Server.Files.{
  CreateFileRequest, CreateFileResponse, transform, place_all, resolved_addrs, serve_create_file,
  GetFileResponse, serve_get_file,
}
use distributed_fs.Server.Requests.{serve, deregister_node_request}
use distributed_fs.Server.Keeps.{serve_follower}
use distributed_fs.Server.Available.{info_ids, serve_get_file_answers, serve_deregister_node_exact}
use distributed_fs.Server.Placed.{placed_ids, serve_create_file_placed}
use distributed_fs.Tests.Wire.{wire_json}
use distributed_fs.Tests.Sample.{
  start_log, upload_log, join_node, finish_data, entries, uploaded, fsm_program,
}

abbrev env : Env
env = record {
  propose = apply_command;
  source_strategy = least_loaded_strategy;
  target_strategy = most_free_space_strategy;
  uuid = λ n. "job";
  now = 500;
}

abbrev pub deps : HandlerDeps
deps = record {
  env = env;
  is_leader = true;
  leader_address = "";
  target_placement = most_free_space_strategy;
  replication_factor = 2;
  new_file_id = "f9";
}

abbrev pub service_of : MetadataFsm → Service
service_of s = record {
  world = record { fsm = s; rs = new_repair_scheduler 2; drawn = 0 };
  heartbeats_count = [];
  timers = [];
}

all-Commits : Commits apply_command
all-Commits c s = refl

uploaded-IsWellFormed : IsWellFormed uploaded
uploaded-IsWellFormed = replay-IsWellFormed wire_json (entries (start_log ++ upload_log))

abbrev follower : HandlerDeps
follower = record deps { is_leader = false }

serve_follower_example :
    serve follower (deregister_node_request "n2") (service_of uploaded)
    ≡ (service_of uploaded, some unavailable)
unfolding String_discrete
serve_follower_example =
    serve_follower follower (deregister_node_request "n2") (service_of uploaded) refl

-- The whole upload.
abbrev finished : MetadataFsm
finished =
    replay wire_json (entries (start_log ++ upload_log ++ commit_file finish_data ∷ []))
      new_empty_metadata_fsm

abbrev data_file : FileRecord
data_file = record {
  file_id = "f1";
  filename = "data.csv";
  file_size = 6;
  chunk_size = 4;
  checksum = 9 ∷ [];
  chunk_ids = "c0" ∷ "c1" ∷ [];
  status = FileStatus.complete;
  created_at = 200;
  updated_at = 0;
}

finished-file : lookup "f1" finished.file_index ≡ some data_file
unfolding fsm_program
finished-file = refl

n2-registered : has "n2" uploaded.node_registry ≡ true
unfolding fsm_program
n2-registered = refl

serve_deregister_node_exact_example :
    let r = serve_deregister_node deps "n2" (service_of uploaded) in
    (r.1 ≡ reply tt)
    × ((n : String) → alive_at n r.0.world.fsm ≡ (alive_at n uploaded && not ("n2" == n)))
    × ((c n : String)
        → has_replica c n r.0.world.fsm ≡ (has_replica c n uploaded && not ("n2" == n)))
serve_deregister_node_exact_example =
    serve_deregister_node_exact deps "n2" (service_of uploaded) refl all-Commits
      uploaded-IsWellFormed n2-registered

n2-resolved : contains (resolved_addrs uploaded ("n2" ∷ [])) "h2:9000" ≡ true
unfolding fsm_program resolved_addrs
n2-resolved = refl

-- Three nodes with room for a chunk of the least size.
abbrev roomy : MetadataFsm
roomy =
    replay wire_json
      (entries (
        join_node "n1" "h1:9000" 70000
        ∷ join_node "n2" "h2:9000" 90000
        ∷ join_node "n3" "h3:9000" 80000
        ∷ []))
      new_empty_metadata_fsm

abbrev new_log : CreateFileRequest
new_log = record {
  file_id = "";
  file_name = "app.log";
  file_size = 65536;
  chunk_size = 65536;
  chunk_ids = "x0" ∷ [];
}

abbrev offered : CreateFileResponse
offered = record {
  file_id = "f9";
  placements =
      record {
        chunk_id = "x0";
        primary = record { node_id = "n2"; address = "h2:9000"; free_space = 90000 };
        replicas = record { node_id = "n3"; address = "h3:9000"; free_space = 80000 } ∷ [];
      }
      ∷ [];
}

create-offered : (serve_create_file deps new_log (service_of roomy)).1 ≡ reply offered
unfolding fsm_program serve_create_file on_leader proposing place_all transform select_by sort
    insert_sorted filter_nodes filter_by_min_space keep_spacious live get_live_nodes
create-offered = refl

serve_create_file_placed_example :
    (placed_ids offered.placements ≡ "x0" ∷ [])
    × All (λ q. suc (length q.replicas) ≡ 2) offered.placements
serve_create_file_placed_example =
    serve_create_file_placed deps more_free less_free new_log (service_of roomy) offered
      most_free_space-IsStrategy create-offered

serve_get_file_answers_example :
    (r : GetFileResponse) × (serve_get_file deps "f1" (service_of finished)
      ≡ (service_of finished, reply r))
    × (r.file ≡ data_file)
    × (info_ids r.chunks ≡ "c0" ∷ "c1" ∷ [])
serve_get_file_answers_example =
    serve_get_file_answers deps "f1" (service_of finished) data_file refl
      (replay-IsWellFormed wire_json
        (entries (start_log ++ upload_log ++ commit_file finish_data ∷ [])))
      finished-file refl
