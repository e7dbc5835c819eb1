-- ===== src/Client/Errors.antt =====
-- The errors of client/internal, and results. The texts that the errors carry beside a cause are not
-- kept.
use distributed_fs.Common.{ℕ, String, Option, none, some}

pub data ClientError : Type 0 where
  -- Of the context, of the system, and of a metadata or storage client.
  stopped : String → ClientError
  system : String → ClientError
  remote : String → ClientError
  -- Of encoding/json; and the assignment to a nil map, which panics.
  malformed : ClientError
  nil_map : ClientError
  empty_file : ClientError
  end_of_file : ClientError
  -- Of the chunker.
  not_chunked : ClientError
  file_not_found : ClientError
  no_chunks : ClientError
  no_replicas : ClientError
  checksum_mismatch : ClientError
  all_replicas_failed : ClientError
  exhausted : ClientError
  chunks_failed : ℕ → ℕ → ClientError
  -- An error and its cause.
  wrapped : ClientError → ClientError → ClientError

-- `fmt.Errorf` with `%w`, whose cause may be nil.
abbrev pub with_cause : ClientError → Option ClientError → ClientError
with_cause e none = e
with_cause e (some c) = wrapped e c

pub data Reply (A : Type 0) : Type 0 where
  done : A → Reply A
  failed : ClientError → Reply A
