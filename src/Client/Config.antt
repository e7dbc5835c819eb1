-- ===== src/Client/Config.antt =====
-- client/internal/dfsclientconfig/config.go. Durations are nanoseconds; strconv.ParseInt with 64 bits is
-- what `atoi` is where an int has 64 bits.
use distributed_fs.Common.{
  ◌*◌, String, Bool, not, ◌||◌, List, [], ◌∷◌, Option, none, some, if◌then◌else◌,
}
use distributed_fs.Common.Int.{ℤ, pos}
use distributed_fs.Common.Settings.{
  Environment, is_positive, lt_int, milliseconds, set_text, try_parsed,
}

pub record Config : Type 0 where
  pub metadata_addrs : List String
  pub chunk_size : ℤ
  pub max_parallel_uploads : ℤ
  pub max_parallel_downloads : ℤ
  pub manifest_dir : String
  pub output_dir : String
  pub retry_attempts : ℤ
  pub frame_size : ℤ
  pub retry_base_backoff : ℤ
  pub retry_max_backoff : ℤ
  pub rpc_timeout : ℤ

unfoldable pub default_client_config : Config
default_client_config = record {
  metadata_addrs = "localhost:50050" ∷ [];
  chunk_size = pos (4 * 1024 * 1024);
  max_parallel_uploads = pos 4;
  max_parallel_downloads = pos 4;
  manifest_dir = "./manifests_logs";
  output_dir = "./downloads_logs";
  retry_attempts = pos 5;
  frame_size = pos (32 * 1024);
  retry_base_backoff = milliseconds 100;
  retry_max_backoff = milliseconds 5000;
  rpc_timeout = milliseconds 10000;
}

abbrev is_outside : ℤ → ℤ → ℤ → Bool
is_outside low high n = lt_int n low || lt_int high n

-- The setting that is refused.
unfoldable pub validate_client : Config → Option String
validate_client c =
    if is_outside (pos (64 * 1024)) (pos (64 * 1024 * 1024)) c.chunk_size
    then some "chunk_size"
    else if is_outside (pos (4 * 1024)) (pos (4 * 1024 * 1024)) c.frame_size
    then some "frame_size"
    else if lt_int c.retry_attempts (pos 1)
    then some "RetryAttempts"
    else if not (is_positive c.retry_base_backoff)
    then some "RetryBaseBackoff"
    else if lt_int c.retry_max_backoff c.retry_base_backoff
    then some "RetryMaxBackoff"
    else if not (is_positive c.rpc_timeout)
    then some "RPCTimeout"
    else none

unfoldable pub load_from_env : Environment → Config
load_from_env e =
    let c0 = default_client_config in
    let c1 = set_text e "METADATA_ADDRS" (λ v c. record c { metadata_addrs = e.split v }) c0 in
    let c2 = try_parsed e "CHUNK_SIZE" e.atoi (λ v c. record c { chunk_size = v }) c1 in
    let c3 =
      try_parsed e "MAX_PARALLEL_UPLOADS" e.atoi (λ v c. record c { max_parallel_uploads = v })
        c2 in
    let c4 =
      try_parsed e "MAX_PARALLEL_DOWNLOADS" e.atoi (λ v c. record c { max_parallel_downloads = v })
        c3 in
    let c5 = set_text e "MANIFEST_DIR" (λ v c. record c { manifest_dir = v }) c4 in
    let c6 = set_text e "OUTPUT_DIR" (λ v c. record c { output_dir = v }) c5 in
    let c7 = try_parsed e "RETRY_ATTEMPTS" e.atoi (λ v c. record c { retry_attempts = v }) c6 in
    let c8 = try_parsed e "FRAME_SIZE" e.atoi (λ v c. record c { frame_size = v }) c7 in
    let c9 =
      try_parsed e "RETRY_BASE_BACKOFF" e.parse_duration
        (λ v c. record c { retry_base_backoff = v }) c8 in
    let c10 =
      try_parsed e "RETRY_MAX_BACKOFF" e.parse_duration (λ v c. record c { retry_max_backoff = v })
        c9 in
    try_parsed e "RPC_TIMEOUT" e.parse_duration (λ v c. record c { rpc_timeout = v }) c10
