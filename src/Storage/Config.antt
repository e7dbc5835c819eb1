-- ===== src/Storage/Config.antt =====
-- storage/config.go: `StorageNodeConfig`. Durations are nanoseconds. The file that is read, as the
-- object that encoding/json makes of it, and the environment are inputs.
use distributed_fs.Common.{
  ℕ, ◌*◌, ◌^◌, String, Bool, true, false, not, List, [], ◌∷◌, Option, none, some, ◌==◌, length, leb,
  ltb, if◌then◌else◌,
}
use distributed_fs.Common.Int.{ℤ, pos, negsuc}
use distributed_fs.Common.Settings.{
  Environment, Loaded, loaded, refused_setting, ◌>>=◌, is_positive, milliseconds, or_text,
  or_positive, set_text, set_parsed, take_value, take_parsed, lt_int,
}
pub mod Valid

pub record StorageNodeConfig : Type 0 where
  pub node_id : String
  pub grpc_addr : String
  pub advertise_addr : String
  pub metadata_addrs : List String
  pub timeout : ℤ
  pub heartbeat_interval : ℤ
  pub data_dir : String
  pub replication_factor : ℤ
  pub rpc_timeout : ℤ
  pub retry_max_attempts : ℤ
  pub retry_base_backoff : ℤ
  pub retry_max_backoff : ℤ

-- The object of a configuration file.
pub record RawConfig : Type 0 where
  pub raw_node_id : Option String
  pub raw_grpc_addr : Option String
  pub raw_advertise_addr : Option String
  pub raw_metadata_addrs : Option (List String)
  pub raw_timeout : Option String
  pub raw_heartbeat_interval : Option String
  pub raw_data_dir : Option String
  pub raw_replication_factor : Option ℤ
  pub raw_rpc_timeout : Option String
  pub raw_retry_max_attempts : Option ℤ
  pub raw_retry_base_backoff : Option String
  pub raw_retry_max_backoff : Option String

unfoldable pub set_defaults : StorageNodeConfig → StorageNodeConfig
set_defaults c = record c {
  grpc_addr = or_text c.grpc_addr ":4000";
  metadata_addrs = if leb (length c.metadata_addrs) 0 then ":3000" ∷ [] else c.metadata_addrs;
  timeout = or_positive c.timeout (milliseconds 120000);
  heartbeat_interval = or_positive c.heartbeat_interval (milliseconds 3000);
  data_dir = or_text c.data_dir "./data";
  replication_factor = or_positive c.replication_factor (pos 3);
  rpc_timeout = or_positive c.rpc_timeout (milliseconds 10000);
  retry_max_attempts = or_positive c.retry_max_attempts (pos 5);
  retry_base_backoff = or_positive c.retry_base_backoff (milliseconds 100);
  retry_max_backoff = or_positive c.retry_max_backoff (milliseconds 5000);
}

unfoldable pub default_config : StorageNodeConfig
default_config = set_defaults (record {
  node_id = "";
  grpc_addr = "";
  advertise_addr = "";
  metadata_addrs = [];
  timeout = pos 0;
  heartbeat_interval = pos 0;
  data_dir = "";
  replication_factor = pos 0;
  rpc_timeout = pos 0;
  retry_max_attempts = pos 0;
  retry_base_backoff = pos 0;
  retry_max_backoff = pos 0;
})

module _ (e : Environment) where
  -- `ApplyJSON`, of a file that can be read and parsed.
  unfoldable pub apply_json : RawConfig → StorageNodeConfig → Loaded StorageNodeConfig
  apply_json raw c0 =
      let c1 = take_value raw.raw_node_id (λ v c. record c { node_id = v }) c0 in
      let c2 = take_value raw.raw_grpc_addr (λ v c. record c { grpc_addr = v }) c1 in
      let c3 = take_value raw.raw_advertise_addr (λ v c. record c { advertise_addr = v }) c2 in
      let c4 = take_value raw.raw_metadata_addrs (λ v c. record c { metadata_addrs = v }) c3 in
      let c5 = take_value raw.raw_data_dir (λ v c. record c { data_dir = v }) c4 in
      let c6 =
        take_value raw.raw_replication_factor (λ v c. record c { replication_factor = v }) c5 in
      let c7 =
        take_value raw.raw_retry_max_attempts (λ v c. record c { retry_max_attempts = v }) c6 in
      take_parsed "timeout" e.parse_duration raw.raw_timeout (λ v c. record c { timeout = v }) c7
      >>= take_parsed "heartbeat_interval" e.parse_duration raw.raw_heartbeat_interval
          (λ v c. record c { heartbeat_interval = v })
      >>= take_parsed "rpc_timeout" e.parse_duration raw.raw_rpc_timeout
          (λ v c. record c { rpc_timeout = v })
      >>= take_parsed "retry_base_backoff" e.parse_duration raw.raw_retry_base_backoff
          (λ v c. record c { retry_base_backoff = v })
      >>= take_parsed "retry_max_backoff" e.parse_duration raw.raw_retry_max_backoff
          (λ v c. record c { retry_max_backoff = v })

  unfoldable pub apply_env : StorageNodeConfig → Loaded StorageNodeConfig
  apply_env c0 =
      let c1 = set_text e "STORAGE_NODE_ID" (λ v c. record c { node_id = v }) c0 in
      let c2 = set_text e "STORAGE_GRPC_ADDR" (λ v c. record c { grpc_addr = v }) c1 in
      let c3 = set_text e "STORAGE_ADVERTISE_ADDR" (λ v c. record c { advertise_addr = v }) c2 in
      let c4 =
        set_text e "STORAGE_METADATA_ADDRS" (λ v c. record c { metadata_addrs = e.split v }) c3 in
      let c5 = set_text e "STORAGE_DATA_DIR" (λ v c. record c { data_dir = v }) c4 in
      set_parsed e "STORAGE_REPLICATION_FACTOR" e.atoi (λ v c. record c { replication_factor = v })
        c5
      >>= set_parsed e "STORAGE_RETRY_MAX_ATTEMPTS" e.atoi
          (λ v c. record c { retry_max_attempts = v })
      >>= set_parsed e "STORAGE_TIMEOUT" e.parse_duration (λ v c. record c { timeout = v })
      >>= set_parsed e "STORAGE_HEARTBEAT_INTERVAL" e.parse_duration
          (λ v c. record c { heartbeat_interval = v })
      >>= set_parsed e "STORAGE_RPC_TIMEOUT" e.parse_duration (λ v c. record c { rpc_timeout = v })
      >>= set_parsed e "STORAGE_RETRY_BASE_BACKOFF" e.parse_duration
          (λ v c. record c { retry_base_backoff = v })
      >>= set_parsed e "STORAGE_RETRY_MAX_BACKOFF" e.parse_duration
          (λ v c. record c { retry_max_backoff = v })

-- The field that is refused.
unfoldable pub validate : StorageNodeConfig → Option String
validate c =
    if c.grpc_addr == ""
    then some "GRPCAddr"
    else if leb (length c.metadata_addrs) 0
    then some "MetadataAddrs"
    else if c.data_dir == ""
    then some "DataDir"
    else if lt_int c.replication_factor (pos 1)
    then some "ReplicationFactor"
    else if lt_int c.retry_max_attempts (pos 1)
    then some "RetryMaxAttempts"
    else if not (is_positive c.retry_base_backoff)
    then some "RetryBaseBackoff"
    else if lt_int c.retry_max_backoff c.retry_base_backoff
    then some "RetryMaxBackoff"
    else if not (is_positive c.rpc_timeout)
    then some "RPCTimeout"
    else none

-- `LoadConfigDefaultFlow`, given the object of the file if one is named: it may not be read.
unfoldable pub load_config_default_flow :
    Environment → Option (Loaded RawConfig) → Loaded StorageNodeConfig
load_config_default_flow e file =
    let from_file : Loaded StorageNodeConfig = elim file [
      | none ↦ loaded default_config
      | some r ↦ r >>= λ raw. apply_json e raw default_config
    ] in
    from_file >>= apply_env e >>= λ c. elim (validate c) [
      | none ↦ loaded c
      | some field ↦ refused_setting field
    ]

-- `LoadFromJSON`
unfoldable pub load_from_json : Environment → Loaded RawConfig → Loaded StorageNodeConfig
load_from_json e file = file >>= λ raw. apply_json e raw default_config

-- `LoadOrGenerateNodeID`, given what the file holds, if it can be read, and a new UUID: the ID, and
-- the file afterwards. An error of a write ends the process.
unfoldable pub load_or_generate_node_id : Option String → String → String × Option String
load_or_generate_node_id none fresh = (fresh, some fresh)
load_or_generate_node_id (some text) fresh =
    if text == "" then (fresh, some fresh) else (text, some text)
