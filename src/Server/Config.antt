-- ===== src/Server/Config.antt =====
-- metadata/config.go: `NodeConfig`. Durations are nanoseconds. The file that is read, as the object
-- that encoding/json makes of it, the environment, and the functions of strings are inputs.
use distributed_fs.Common.{
  ℕ, String, Bool, false, List, [], ◌∷◌, Option, none, some, ◌==◌, leb, if◌then◌else◌,
}
use distributed_fs.Common.Int.{ℤ, pos}
use distributed_fs.Common.Registry.{Registry, insert}
use distributed_fs.Common.Settings.{
  Environment, Loaded, loaded, refused_setting, ◌>>=◌, milliseconds, or_text, or_positive, set_text,
  set_parsed, take_value, take_parsed,
}

-- `peer_addrs` is `none` where the map is nil.
pub record NodeConfig : Type 0 where
  pub node_id : String
  pub grpc_addr : String
  pub raft_addr : String
  pub raft_advertise : String
  pub raft_dir : String
  pub peer_addrs : Option (Registry String)
  pub bootstrap : Bool
  pub replication_factor : ℤ
  pub suspect_timeout : ℤ
  pub dead_timeout : ℤ
  pub watcher_interval : ℤ
  pub reconcile_delay : ℤ
  pub heartbeat_timeout : ℤ
  pub election_timeout : ℤ
  pub snapshot_interval : ℤ
  pub snapshot_threshold : ℕ
  pub snapshot_retain : ℤ

-- The object of a configuration file. A duration that is absent or null is `none`; a file with one
-- that is neither null nor a string is refused as one that cannot be parsed.
pub record RawNodeConfig : Type 0 where
  pub raw_node_id : Option String
  pub raw_grpc_addr : Option String
  pub raw_raft_addr : Option String
  pub raw_raft_dir : Option String
  pub raw_peer_addrs : Option (Registry String)
  pub raw_bootstrap : Option Bool
  pub raw_replication_factor : Option ℤ
  pub raw_suspect_timeout : Option String
  pub raw_dead_timeout : Option String
  pub raw_watcher_interval : Option String
  pub raw_reconcile_delay : Option String
  pub raw_heartbeat_timeout : Option String
  pub raw_election_timeout : Option String
  pub raw_snapshot_interval : Option String
  pub raw_snapshot_threshold : Option ℕ
  pub raw_snapshot_retain : Option ℤ

-- strings.TrimSpace, and strings.SplitN at the first colon.
pub record Texts : Type 0 where
  pub trim_space : String → String
  pub cut_colon : String → Option (String × String)

unfoldable pub default_node_config : NodeConfig
default_node_config = record {
  node_id = "node-1";
  grpc_addr = ":4001";
  raft_addr = "127.0.0.1:5001";
  raft_advertise = "";
  raft_dir = "./data/metadata/raft";
  peer_addrs = none;
  bootstrap = false;
  replication_factor = pos 3;
  suspect_timeout = milliseconds 10000;
  dead_timeout = milliseconds 30000;
  watcher_interval = milliseconds 5000;
  reconcile_delay = milliseconds 30000;
  heartbeat_timeout = milliseconds 1000;
  election_timeout = milliseconds 5000;
  snapshot_interval = milliseconds 30000;
  snapshot_threshold = 8192;
  snapshot_retain = pos 2;
}

unfoldable pub set_node_defaults : NodeConfig → NodeConfig
set_node_defaults c = record c {
  node_id = or_text c.node_id "node-1";
  grpc_addr = or_text c.grpc_addr ":4001";
  raft_addr = or_text c.raft_addr "127.0.0.1:5001";
  raft_dir = or_text c.raft_dir "./data/metadata/raft";
  replication_factor = or_positive c.replication_factor (pos 3);
  suspect_timeout = or_positive c.suspect_timeout (milliseconds 10000);
  dead_timeout = or_positive c.dead_timeout (milliseconds 30000);
  watcher_interval = or_positive c.watcher_interval (milliseconds 5000);
  reconcile_delay = or_positive c.reconcile_delay (milliseconds 30000);
  heartbeat_timeout = or_positive c.heartbeat_timeout (milliseconds 1000);
  election_timeout = or_positive c.election_timeout (milliseconds 5000);
  snapshot_interval = or_positive c.snapshot_interval (milliseconds 30000);
  snapshot_threshold = if leb c.snapshot_threshold 0 then 8192 else c.snapshot_threshold;
  snapshot_retain = or_positive c.snapshot_retain (pos 2);
}

unfoldable pub replication_count : NodeConfig → ℤ
replication_count c = or_positive c.replication_factor (pos 3)

-- The field that is refused; `mkdir_all` is whether the directory can be made.
unfoldable pub validate_node : Bool → NodeConfig → Option String
validate_node mkdir_all c =
    if c.node_id == ""
    then some "NodeID"
    else if c.grpc_addr == ""
    then some "GRPCAddr"
    else if c.raft_addr == ""
    then some "RaftAddr"
    else if c.raft_dir == ""
    then some "RaftDir"
    else if mkdir_all
    then none
    else some "raft dir"

module _ (t : Texts) where
  -- A pair `id:address` of the list.
  unfoldable pub add_peer : String → Registry String → Registry String
  add_peer pair peers =
      let pair = t.trim_space pair in
      if pair == "" then peers else elim (t.cut_colon pair) [
        | none ↦ peers
        | some (id, addr) ↦
            if t.trim_space id == ""
            then peers
            else if t.trim_space addr == ""
            then peers
            else insert (t.trim_space id) (t.trim_space addr) peers
      ]

  unfoldable pub add_peers : List String → Registry String → Registry String
  add_peers [] peers = peers
  add_peers (pair ∷ pairs) peers = add_peers pairs (add_peer pair peers)

  unfoldable pub parse_peer_addrs : List String → Option (Registry String)
  parse_peer_addrs pairs = elim (add_peers pairs []) [ [] ↦ none | p ∷ ps ↦ some (p ∷ ps) ]

  module _ (e : Environment) where
    -- `ApplyJSON`, of a file that can be read and parsed.
    unfoldable pub apply_node_json : RawNodeConfig → NodeConfig → Loaded NodeConfig
    apply_node_json raw c0 =
        let c1 = take_value raw.raw_node_id (λ v c. record c { node_id = v }) c0 in
        let c2 = take_value raw.raw_grpc_addr (λ v c. record c { grpc_addr = v }) c1 in
        let c3 = take_value raw.raw_raft_addr (λ v c. record c { raft_addr = v }) c2 in
        let c4 = take_value raw.raw_raft_dir (λ v c. record c { raft_dir = v }) c3 in
        let c5 = take_value raw.raw_peer_addrs (λ v c. record c { peer_addrs = some v }) c4 in
        let c6 = take_value raw.raw_bootstrap (λ v c. record c { bootstrap = v }) c5 in
        let c7 =
          take_value raw.raw_replication_factor (λ v c. record c { replication_factor = v }) c6 in
        let c8 =
          take_value raw.raw_snapshot_threshold (λ v c. record c { snapshot_threshold = v }) c7 in
        let c9 = take_value raw.raw_snapshot_retain (λ v c. record c { snapshot_retain = v }) c8 in
        take_parsed "suspect_timeout" e.parse_duration raw.raw_suspect_timeout
          (λ v c. record c { suspect_timeout = v }) c9
        >>= take_parsed "dead_timeout" e.parse_duration raw.raw_dead_timeout
            (λ v c. record c { dead_timeout = v })
        >>= take_parsed "watcher_interval" e.parse_duration raw.raw_watcher_interval
            (λ v c. record c { watcher_interval = v })
        >>= take_parsed "reconcile_delay" e.parse_duration raw.raw_reconcile_delay
            (λ v c. record c { reconcile_delay = v })
        >>= take_parsed "heartbeat_timeout" e.parse_duration raw.raw_heartbeat_timeout
            (λ v c. record c { heartbeat_timeout = v })
        >>= take_parsed "election_timeout" e.parse_duration raw.raw_election_timeout
            (λ v c. record c { election_timeout = v })
        >>= take_parsed "snapshot_interval" e.parse_duration raw.raw_snapshot_interval
            (λ v c. record c { snapshot_interval = v })

    unfoldable pub apply_node_env : NodeConfig → Loaded NodeConfig
    apply_node_env c0 =
        let c1 = set_text e "METADATA_NODE_ID" (λ v c. record c { node_id = v }) c0 in
        let c2 = set_text e "METADATA_GRPC_ADDR" (λ v c. record c { grpc_addr = v }) c1 in
        let c3 = set_text e "METADATA_RAFT_ADDR" (λ v c. record c { raft_addr = v }) c2 in
        let c4 = set_text e "METADATA_RAFT_ADVERTISE" (λ v c. record c { raft_advertise = v }) c3 in
        let c5 = set_text e "METADATA_RAFT_DIR" (λ v c. record c { raft_dir = v }) c4 in
        let c6 =
          set_text e "METADATA_PEER_ADDRS"
            (λ v c. record c { peer_addrs = parse_peer_addrs (e.split v) }) c5 in
        set_parsed e "METADATA_BOOTSTRAP" e.parse_bool (λ v c. record c { bootstrap = v }) c6
        >>= set_parsed e "METADATA_REPLICATION_FACTOR" e.atoi
            (λ v c. record c { replication_factor = v })
        >>= set_parsed e "METADATA_SUSPECT_TIMEOUT" e.parse_duration
            (λ v c. record c { suspect_timeout = v })
        >>= set_parsed e "METADATA_DEAD_TIMEOUT" e.parse_duration
            (λ v c. record c { dead_timeout = v })
        >>= set_parsed e "METADATA_WATCHER_INTERVAL" e.parse_duration
            (λ v c. record c { watcher_interval = v })
        >>= set_parsed e "METADATA_RECONCILE_DELAY" e.parse_duration
            (λ v c. record c { reconcile_delay = v })
        >>= set_parsed e "METADATA_HEARTBEAT_TIMEOUT" e.parse_duration
            (λ v c. record c { heartbeat_timeout = v })
        >>= set_parsed e "METADATA_ELECTION_TIMEOUT" e.parse_duration
            (λ v c. record c { election_timeout = v })
        >>= set_parsed e "METADATA_SNAPSHOT_INTERVAL" e.parse_duration
            (λ v c. record c { snapshot_interval = v })
        >>= set_parsed e "METADATA_SNAPSHOT_THRESHOLD" e.parse_uint
            (λ v c. record c { snapshot_threshold = v })
        >>= set_parsed e "METADATA_SNAPSHOT_RETAIN" e.atoi (λ v c. record c { snapshot_retain = v })

    -- `LoadConfigDefaultFlow`, given the object of the file if one is named: it may not be read.
    unfoldable pub load_node_config : Bool → Option (Loaded RawNodeConfig) → Loaded NodeConfig
    load_node_config mkdir_all file =
        let from_file : Loaded NodeConfig = elim file [
          | none ↦ loaded default_node_config
          | some r ↦ r >>= λ raw. apply_node_json raw default_node_config
        ] in
        from_file >>= apply_node_env >>= λ c. elim (validate_node mkdir_all c) [
          | none ↦ loaded c
          | some field ↦ refused_setting field
        ]

    -- `LoadFromJSON`
    unfoldable pub load_node_json : Loaded RawNodeConfig → Loaded NodeConfig
    load_node_json file = file >>= λ raw.
        apply_node_json raw default_node_config >>= λ c. loaded (set_node_defaults c)
