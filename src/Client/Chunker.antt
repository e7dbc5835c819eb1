-- ===== src/Client/Chunker.antt =====
-- client/internal/chunker/chunker.go. The size of the file, the UUID, the chunk IDs and the rounding
-- up of a quotient of two floats are parameters; an `int64` is a natural number, as no value here is
-- negative.
use distributed_fs.Common.{ℕ, zero, suc, ◌+◌, ◌-◌, ◌*◌, String, List, [], ◌∷◌, ltb, if◌then◌else◌}
use distributed_fs.Storage.Errors.{Result, ok, err}
pub mod Pieces

pub record ChunkDescriptor : Type 0 where
  pub chunk_id : String
  pub file_id : String
  pub chunk_index : ℕ
  pub offset : ℕ
  pub size : ℕ

-- uuid.New, checksum.ComputeChunkID, and math.Ceil of the quotient of two floats.
pub record Chunking : Type 0 where
  pub new_id : String
  pub compute_chunk_id : String → ℕ → String
  pub ceil_quotient : ℕ → ℕ → ℕ

module _ (k : Chunking) where
  -- The loop, over so many chunks from chunk `i` on.
  unfoldable pub descriptors_from : ℕ → ℕ → ℕ → ℕ → List ChunkDescriptor
  descriptors_from total chunk_size zero i = []
  descriptors_from total chunk_size (suc left) i =
      let offset = i * chunk_size in
      record {
        chunk_id = k.compute_chunk_id k.new_id i;
        file_id = k.new_id;
        chunk_index = i;
        offset = offset;
        size = if ltb total (offset + chunk_size) then total - offset else chunk_size;
      }
      ∷ descriptors_from total chunk_size left (suc i)

  -- `GenerateDescriptors`, given the size of the file or the error of os.Stat.
  unfoldable pub generate_descriptors : Result ℕ → ℕ → Result (List ChunkDescriptor)
  generate_descriptors (err e) chunk_size = err e
  generate_descriptors (ok total) chunk_size =
      ok (descriptors_from total chunk_size (k.ceil_quotient total chunk_size) 0)
