-- ===== src/Tests/Sample.antt =====
-- A cluster of four nodes, a file of two chunks, and the log that makes them.
use distributed_fs.Common.{ℕ, String, List, [], ◌∷◌, ◌++◌}
use distributed_fs.Common.Registry.{lookup, insert, delete, values}
use distributed_fs.Common.{String_discrete}
use distributed_fs.Fsm.Commands.{
  Command, register_node, create_file, commit_chunk, CommandCreateFile, CommandCommitChunk,
  CommandCommitFile,
}
use distributed_fs.Fsm.State.{MetadataFsm, new_empty_metadata_fsm}
use distributed_fs.Fsm.Handlers.Files.{
  build_chunk_records, has_collision, insert_all, validate_chunks,
}
use distributed_fs.Fsm.Handlers.Chunks.{
  resolve_address, normalize_entry, normalize_from, normalize_replica_node_ids,
}
use distributed_fs.Fsm.Apply.{apply_command, dispatch, apply, encode, replay}
use distributed_fs.Tests.Wire.{Wire, wire_json}

-- Every function that a run calls.
unfoldable pub fsm_program : Unit {0}
unfolding lookup insert delete values String_discrete build_chunk_records has_collision insert_all
    validate_chunks resolve_address normalize_entry normalize_from normalize_replica_node_ids
    apply_command dispatch apply encode replay
fsm_program = tt

abbrev pub join_node : String → String → ℕ → Command
join_node id address space = register_node (record {
  node_id = id;
  address = address;
  free_space = space;
  chunk_count = 0;
  created_at = 100;
})

abbrev pub new_data : CommandCreateFile
new_data = record {
  file_id = "f1";
  file_name = "data.csv";
  chunk_ids = "c0" ∷ "c1" ∷ [];
  file_size = 6;
  chunk_size = 4;
  checksum = [];
  created_at = 200;
}

abbrev pub store_chunk : String → List String → CommandCommitChunk
store_chunk c nodes = record { chunk_id = c; node_ids = nodes; checksum = 7 ∷ 8 ∷ [] }

abbrev pub finish_data : CommandCommitFile
finish_data = record { file_id = "f1"; file_size = 6; checksum = 9 ∷ [] }

abbrev pub start_log : List Command
start_log =
    join_node "n1" "h1:9000" 50
    ∷ join_node "n2" "h2:9000" 70
    ∷ join_node "n3" "h3:9000" 60
    ∷ join_node "n4" "h4:9000" 90
    ∷ []

abbrev pub upload_log : List Command
upload_log =
    create_file new_data
    ∷ commit_chunk (store_chunk "c0" ("n1" ∷ "h2:9000" ∷ "n1" ∷ []))
    ∷ commit_chunk (store_chunk "c1" ("n2" ∷ "n3" ∷ []))
    ∷ []

-- The entries on the wire.
abbrev pub entries : List Command → List Wire
entries [] = []
entries (c ∷ cs) = encode wire_json c ∷ entries cs

-- The nodes have joined.
abbrev pub started : MetadataFsm
started = replay wire_json (entries start_log) new_empty_metadata_fsm

-- The chunks are stored, and the file is not yet committed.
abbrev pub uploaded : MetadataFsm
uploaded = replay wire_json (entries (start_log ++ upload_log)) new_empty_metadata_fsm
