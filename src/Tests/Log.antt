-- ===== src/Tests/Log.antt =====
-- The theorems about the Raft log at the sample cluster.
use distributed_fs.Common.{List, [], ◌∷◌, ◌++◌, ◌≡◌, ◌≢◌, refl, some}
use distributed_fs.Common.Registry.{lookup}
use distributed_fs.Fsm.Types.{ChunkRecord, ChunkStatus, NodeEntry, NodeStatus}
use distributed_fs.Fsm.Commands.{Command, create_file, commit_chunk, mark_chunk_lost}
use distributed_fs.Fsm.State.{new_empty_metadata_fsm, new_error}
use distributed_fs.Fsm.Apply.{apply, encode, replay}
use distributed_fs.Fsm.Invariant.Log.{IsWellFormed, replay-IsWellFormed}
use distributed_fs.Fsm.Invariant.Atomic.{apply_error_unchanged}
use distributed_fs.Fsm.Invariant.Checksum.{checksum_at, replay-checksum}
use distributed_fs.Tests.Wire.{wire_json}
use distributed_fs.Tests.Sample.{fsm_program, new_data, start_log, upload_log, entries, uploaded}
use distributed_fs.Fsm.History.{replay-chunk_size, replay_never_suspect, replay-file_updated_at}
use distributed_fs.Fsm.Types.{FileRecord}
use distributed_fs.Fsm.Handlers.Files.{new_file}

-- An address is resolved to its node, and a repeated node is listed once.
uploaded_replicas :
    (ck : ChunkRecord) × (lookup "c0" uploaded.chunk_registry ≡ some ck)
    × (ck.replicas ≡ "n1" ∷ "n2" ∷ [])
    × (ck.status ≡ ChunkStatus.complete)
unfolding fsm_program
uploaded_replicas = (_, refl, refl, refl)

replay-IsWellFormed_example :
    IsWellFormed (replay wire_json (entries (start_log ++ upload_log)) new_empty_metadata_fsm)
replay-IsWellFormed_example = replay-IsWellFormed wire_json (entries (start_log ++ upload_log))

apply_error_unchanged_example :
    (apply wire_json (encode wire_json (create_file new_data)) uploaded).0 ≡ uploaded
unfolding fsm_program
apply_error_unchanged_example =
    apply_error_unchanged wire_json (encode wire_json (create_file new_data)) uploaded
      (new_error "CmdCreateFile: fileID already exists in our systems, cannot override") refl

abbrev late_log : List Command
late_log =
    mark_chunk_lost (record { chunk_id = "c0" })
    ∷ commit_chunk (record { chunk_id = "c0"; node_ids = []; checksum = 1 ∷ [] })
    ∷ []

replay-checksum_example :
    checksum_at "c0" (replay wire_json (entries late_log) uploaded) ≡ checksum_at "c0" uploaded
unfolding fsm_program
replay-checksum_example = replay-checksum wire_json (entries late_log) uploaded "c0" refl

abbrev c0 : ChunkRecord
c0 = record {
  chunk_id = "c0";
  file_id = "f1";
  chunk_index = 0;
  size = 0;
  checksum = 7 ∷ 8 ∷ [];
  replicas = "n1" ∷ "n2" ∷ [];
  status = ChunkStatus.complete;
  version = 0;
}

abbrev n1 : NodeEntry
n1 = record {
  node_id = "n1";
  address = "h1:9000";
  status = NodeStatus.alive;
  free_space = 50;
  chunk_count = 0;
  last_seen = 100;
  registered_at = 100;
  updated_at = 100;
}

abbrev f1 : FileRecord
f1 = new_file new_data

replay-chunk_size_example : c0.size ≡ 0
unfolding fsm_program
replay-chunk_size_example =
    replay-chunk_size wire_json (entries (start_log ++ upload_log)) "c0" c0 refl

-- No file and no chunk is needed.
replay_never_suspect_example : n1.status ≢ NodeStatus.suspect
unfolding fsm_program
replay_never_suspect_example = replay_never_suspect wire_json (entries start_log) "n1" n1 refl

replay-file_updated_at_example : f1.updated_at ≡ 0
unfolding fsm_program
replay-file_updated_at_example =
    replay-file_updated_at wire_json (entries (start_log ++ upload_log)) "f1" f1 refl
