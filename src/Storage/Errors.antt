-- ===== src/Storage/Errors.antt =====
-- The errors of internal/errors/errors.go, storage/store and storage/chunk, and results.
use distributed_fs.Common.{String}

-- `fault` is an error of the operating system or of bbolt, with its text.
pub data StoreError : Type 0 where
  invalid_chunk_id : StoreError
  chunk_not_found : StoreError
  checksum_mismatch : StoreError
  insufficient_space : StoreError
  failed_to_delete : StoreError
  verify_failed : StoreError
  database_not_opened : StoreError
  database_already_opened : StoreError
  key_not_found : StoreError
  empty_key : StoreError
  operation_aborted : StoreError
  writer_closed : StoreError
  fault : String → StoreError

pub data Result {ℓ} (A : Type ℓ) : Type ℓ where
  ok : A → Result A
  err : StoreError → Result A
