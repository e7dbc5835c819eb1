-- ===== src/Tests/Services.antt =====
-- The theorems about heartbeats, connections, the names of files and configurations, at small inputs.
use distributed_fs.Common.{
  ◌⊎◌, ℕ, String, List, [], ◌∷◌, ◌≡◌, refl, none, some, true, false, ◌==◌, if◌then◌else◌,
  String_discrete, inl,
}
use distributed_fs.Common.Registry.{lookup, insert, delete}
use distributed_fs.Common.Settings.{Environment}
use distributed_fs.Fsm.Types.{FileRecord, FileStatus}
use distributed_fs.Fsm.State.{new_empty_metadata_fsm}
use distributed_fs.Server.{Service}
use distributed_fs.Server.Nodes.{RepairInstruction}
use distributed_fs.Storage.Errors.{ok}
use distributed_fs.Storage.Replication.{new_replication_manager, happen_all}
use distributed_fs.Storage.Replication.Tracked.{IsTracked, happen_all-IsTracked}
use distributed_fs.Storage.Heartbeat.{NodeInfo, Sender, process_heartbeat_response}
use distributed_fs.Storage.Heartbeat.Accounts.{IsTaken, IsBusy, process_heartbeat_response-IsTaken}
use distributed_fs.Storage.PeerDialer.{
  PoolEvent, gets, removes, new_peer_dialer, get_cached, close_stale, get_or_redial, remove_peer,
  pool_step, pool_run,
}
use distributed_fs.Storage.PeerDialer.Kept.{IsKept, pool_run-IsKept}
use distributed_fs.Storage.Config.{
  default_config, set_defaults, apply_env, validate, load_config_default_flow,
}
use distributed_fs.Storage.Config.Valid.{IsUsable, load_config_default_flow-IsUsable}
use distributed_fs.Client.MetadataClient.{client_get_file, client_get_file_by_name}
use distributed_fs.Client.MetadataClient.Named.{at_node, client_get_file_by_name-order}
use distributed_fs.Tests.Serving.{deps, service_of}

abbrev node : NodeInfo
node = record {
  free_space = 100;
  node_id = "n1";
  chunk_count = 1;
  chunk_list = ok ("c0" ∷ []);
  grpc_addr = "h1:9000";
}

abbrev instruction : String → RepairInstruction
instruction c = record {
  job_id = "job";
  chunk_id = c;
  source_node_id = "n1";
  source_addr = "h1:9000";
  target_node_id = "n2";
  target_addr = "h2:9000";
  delete_source = false;
}

abbrev sender : Sender
sender = record { replicator = new_replication_manager; sent = [] }

process_heartbeat_response-IsTaken_example :
    let jobs = instruction "c0" ∷ instruction "c1" ∷ instruction "c0" ∷ [] in
    let hs' = process_heartbeat_response node (λ i. false) (some jobs) sender in
    (IsTaken node hs' (instruction "c1")
      ⊎ IsBusy (instruction "c0" ∷ []) (instruction "c1") sender.replicator)
    × IsTracked hs'.replicator
unfolding new_replication_manager happen_all
process_heartbeat_response-IsTaken_example =
    process_heartbeat_response-IsTaken node (instruction "c0" ∷ []) (instruction "c1")
      (instruction "c0" ∷ []) sender (happen_all-IsTracked [])

-- Connections are numbers. The first is found unhealthy and dialed again, then removed.
abbrev calls : List (PoolEvent ℕ)
calls =
    gets (λ c. true) (ok 7) "h1"
    ∷ gets (λ c. false) (ok 8) "h1"
    ∷ gets (λ c. true) (ok 9) "h2"
    ∷ removes "h1"
    ∷ []

pool_run-IsKept_example : IsKept (pool_run calls new_peer_dialer) 9
unfolding pool_run pool_step remove_peer close_stale get_or_redial get_cached new_peer_dialer lookup
    insert delete String_discrete
pool_run-IsKept_example = pool_run-IsKept calls 9 (inl refl)

abbrev named_file : String → FileRecord
named_file id = record {
  file_id = id;
  filename = "data.csv";
  file_size = 4;
  chunk_size = 4;
  chunk_ids = [];
  checksum = [];
  status = FileStatus.complete;
  created_at = 100;
  updated_at = 100;
}

abbrev two_files : FileRecord → FileRecord → Service
two_files a b =
    service_of (record new_empty_metadata_fsm { file_index = (a.file_id, a) ∷ (b.file_id, b) ∷ [] })

client_get_file_by_name-order_example :
    (client_get_file_by_name
        (at_node deps)
        "data.csv"
        (two_files (named_file "f1") (named_file "f2"))
      ≡ client_get_file (at_node deps) "f1" (two_files (named_file "f1") (named_file "f2")))
    × (client_get_file_by_name
          (at_node deps)
          "data.csv"
          (two_files (named_file "f2") (named_file "f1"))
        ≡ client_get_file (at_node deps) "f2" (two_files (named_file "f2") (named_file "f1")))
client_get_file_by_name-order_example =
    client_get_file_by_name-order deps (two_files (named_file "f1") (named_file "f2"))
      (two_files (named_file "f2") (named_file "f1")) "data.csv" (named_file "f1") (named_file "f2")
      refl (refl, refl, refl, refl) refl refl

-- Only the data directory is set.
abbrev environment : Environment
environment = record {
  getenv = λ key. if key == "STORAGE_DATA_DIR" then "/srv/data" else "";
  parse_duration = λ s. none;
  atoi = λ s. none;
  parse_uint = λ s. none;
  parse_bool = λ s. none;
  split = λ s. s ∷ [];
}

load_config_default_flow-IsUsable_example :
    IsUsable (record default_config { data_dir = "/srv/data" })
unfolding load_config_default_flow apply_env validate default_config set_defaults String_discrete
load_config_default_flow-IsUsable_example =
    load_config_default_flow-IsUsable environment none
      (record default_config { data_dir = "/srv/data" }) refl
