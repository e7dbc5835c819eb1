-- ===== src/Storage/Config/Valid.antt =====
-- What a configuration that is loaded can be relied on for, and what not.
use distributed_fs.Common.{
  ℕ, ◌<◌, ◌≤◌, String, true, false, ◌≡◌, ◌≢◌, refl, Option, none, some, arith, length, ◌==◌,
  Option-cases, inl, inr, String_discrete, ne_of_test, leb,
}
use distributed_fs.Common.Int.{ℤ, pos, negsuc}
use distributed_fs.Common.Settings.{
  Environment, Loaded, loaded, refused_setting, ◌>>=◌, is_positive, lt_int,
}
use distributed_fs.Storage.Config.{
  StorageNodeConfig, RawConfig, set_defaults, default_config, apply_json, apply_env, validate,
  load_config_default_flow,
}

-- At least so much.
abbrev pub IsAtLeast : ℕ → ℤ → Type 0
IsAtLeast k (pos n) = k ≤ n
IsAtLeast k (negsuc n) = ⊥

-- One number is not less than the other.
abbrev pub IsOrdered : ℤ → ℤ → Type 0
IsOrdered (pos a) (pos b) = a ≤ b
IsOrdered a b = ⊥

-- What a storage node is started with.
pub record IsUsable (c : StorageNodeConfig) : Type 0 where
  pub address : c.grpc_addr ≢ ""
  pub metadata : 0 < length c.metadata_addrs
  pub directory : c.data_dir ≢ ""
  pub replicas : IsAtLeast 1 c.replication_factor
  pub attempts : IsAtLeast 1 c.retry_max_attempts
  pub backoffs :
      IsAtLeast 1 c.retry_base_backoff × IsOrdered c.retry_base_backoff c.retry_max_backoff
  pub deadline : IsAtLeast 1 c.rpc_timeout

-- Every test of `Validate`.
abbrev Passes : StorageNodeConfig → Type 0
Passes c =
    ((c.grpc_addr == "") ≡ false)
    × (leb (length c.metadata_addrs) 0 ≡ false)
    × ((c.data_dir == "") ≡ false)
    × (lt_int c.replication_factor (pos 1) ≡ false)
    × (lt_int c.retry_max_attempts (pos 1) ≡ false)
    × (is_positive c.retry_base_backoff ≡ true)
    × (lt_int c.retry_max_backoff c.retry_base_backoff ≡ false)
    × (is_positive c.rpc_timeout ≡ true)

validate-Passes : (c : StorageNodeConfig) → validate c ≡ none → Passes c
unfolding validate
validate-Passes c h = ground (arith, h)

one_or_more : (n : ℤ) → lt_int n (pos 1) ≡ false → IsAtLeast 1 n
one_or_more (pos n) h = ground (arith, h)
one_or_more (negsuc n) h = cc

positive : (n : ℤ) → is_positive n ≡ true → IsAtLeast 1 n
positive (pos n) h = ground (arith, h)
positive (negsuc n) h = cc

ordered : (a b : ℤ) → is_positive a ≡ true → lt_int b a ≡ false → IsOrdered a b
ordered (pos a) (pos b) p h = ground (arith, h)
ordered (pos a) (negsuc b) p h = cc
ordered (negsuc a) b p h = cc

validate-IsUsable : (c : StorageNodeConfig) → validate c ≡ none → IsUsable c
validate-IsUsable c h =
    let (address, metadata, directory, replicas, attempts, base, longest, deadline) =
      validate-Passes c h in
    record {
      address = ne_of_test c.grpc_addr "" address;
      metadata = ground (arith, metadata);
      directory = ne_of_test c.data_dir "" directory;
      replicas = one_or_more c.replication_factor replicas;
      attempts = one_or_more c.retry_max_attempts attempts;
      backoffs = (
        positive c.retry_base_backoff base,
        ordered c.retry_base_backoff c.retry_max_backoff base longest,
      );
      deadline = positive c.rpc_timeout deadline;
    }

-- What is validated.
abbrev before : Environment → Option (Loaded RawConfig) → Loaded StorageNodeConfig
before e file =
    let from_file : Loaded StorageNodeConfig = elim file [
      | none ↦ loaded default_config
      | some r ↦ r >>= λ raw. apply_json e raw default_config
    ] in
    from_file >>= apply_env e

-- A configuration that `LoadConfigDefaultFlow` gives, whatever the file and the environment say, has
-- an address, a metadata address, a directory, at least one replica and one attempt, a positive first
-- delay that is not above the longest, and a positive deadline of a call.
pub load_config_default_flow-IsUsable :
    (e : Environment) (file : Option (Loaded RawConfig)) (c : StorageNodeConfig)
    → load_config_default_flow e file ≡ loaded c
    → IsUsable c
unfolding load_config_default_flow
load_config_default_flow-IsUsable e file c h = from (before e file) (split (before e file) h)
  where
    split :
        (r : Loaded StorageNodeConfig)
        → (r >>= λ c'. elim (validate c') [ none ↦ loaded c' | some field ↦ refused_setting field ])
          ≡ loaded c
        → (r ≡ loaded c) × (validate c ≡ none)
    split (refused_setting k) p = cc
    split (loaded c') p = elim (Option-cases (validate c')) [
      | inl ok ↦ ground (arith, p, ok)
      | inr (field, bad) ↦ ground (arith, p, bad)
    ]

    from : (r : Loaded StorageNodeConfig) → (r ≡ loaded c) × (validate c ≡ none) → IsUsable c
    from r (q, v) = validate-IsUsable c v

-- An environment in which only the heartbeat interval is set.
abbrev IsOnlyHeartbeat : Environment → String → ℤ → Type 0
IsOnlyHeartbeat e text n =
    ((key : String) → (key == "STORAGE_HEARTBEAT_INTERVAL") ≡ false → e.getenv key ≡ "")
    × (e.getenv "STORAGE_HEARTBEAT_INTERVAL" ≡ text)
    × ((text == "") ≡ false)
    × (e.parse_duration text ≡ some n)

unset :
    (e : Environment) (text : String) (n : ℤ) (key : String)
    → IsOnlyHeartbeat e text n
    → (key == "STORAGE_HEARTBEAT_INTERVAL") ≡ false
    → (e.getenv key == "") ≡ true
unset e text n key (others, here, given, parsed) h = ground (arith, others key h)

abbrev IsUnset : Environment → String → Type 0
IsUnset e key = (e.getenv key == "") ≡ true

others_blank :
    (e : Environment) (text : String) (n : ℤ)
    → IsOnlyHeartbeat e text n
    → IsUnset e "STORAGE_NODE_ID"
      × IsUnset e "STORAGE_GRPC_ADDR"
      × IsUnset e "STORAGE_ADVERTISE_ADDR"
      × IsUnset e "STORAGE_METADATA_ADDRS"
      × IsUnset e "STORAGE_DATA_DIR"
      × IsUnset e "STORAGE_REPLICATION_FACTOR"
      × IsUnset e "STORAGE_RETRY_MAX_ATTEMPTS"
      × IsUnset e "STORAGE_TIMEOUT"
      × IsUnset e "STORAGE_RPC_TIMEOUT"
      × IsUnset e "STORAGE_RETRY_BASE_BACKOFF"
      × IsUnset e "STORAGE_RETRY_MAX_BACKOFF"
unfolding String_discrete
others_blank e text n only = (
  unset e text n "STORAGE_NODE_ID" only refl,
  unset e text n "STORAGE_GRPC_ADDR" only refl,
  unset e text n "STORAGE_ADVERTISE_ADDR" only refl,
  unset e text n "STORAGE_METADATA_ADDRS" only refl,
  unset e text n "STORAGE_DATA_DIR" only refl,
  unset e text n "STORAGE_REPLICATION_FACTOR" only refl,
  unset e text n "STORAGE_RETRY_MAX_ATTEMPTS" only refl,
  unset e text n "STORAGE_TIMEOUT" only refl,
  unset e text n "STORAGE_RPC_TIMEOUT" only refl,
  unset e text n "STORAGE_RETRY_BASE_BACKOFF" only refl,
  unset e text n "STORAGE_RETRY_MAX_BACKOFF" only refl,
)

apply_env-heartbeat :
    (e : Environment) (text : String) (n : ℤ) (c : StorageNodeConfig)
    → IsOnlyHeartbeat e text n
    → apply_env e c ≡ loaded (record c { heartbeat_interval = n })
unfolding apply_env
apply_env-heartbeat e text n c only =
    ground (arith, only.1, only.2, only.3, others_blank e text n only)

validate-heartbeat : (n : ℤ) → validate (record default_config { heartbeat_interval = n }) ≡ none
unfolding validate default_config set_defaults String_discrete
validate-heartbeat n = refl

-- Every heartbeat interval that can be parsed is accepted, also one that is zero or negative, which
-- the ticker of the heartbeats refuses by a panic.
load_config_default_flow-heartbeat :
    (e : Environment) (text : String) (n : ℤ)
    → IsOnlyHeartbeat e text n
    → load_config_default_flow e none ≡ loaded (record default_config { heartbeat_interval = n })
unfolding load_config_default_flow
load_config_default_flow-heartbeat e text n only =
    ground (arith, apply_env-heartbeat e text n default_config only, validate-heartbeat n)
