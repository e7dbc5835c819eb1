-- ===== src/Tests/Files.antt =====
-- The theorems about files and replicas at the sample cluster.
use distributed_fs.Common.{
  List, [], ◌∷◌, ◌≡◌, ◌↔◌, ◌||◌, refl, none, some, true, false, arith, ne_of_test,
}
use distributed_fs.Common.Registry.{has}
use distributed_fs.Fsm.Types.{FileRecord, ChunkRecord, FileStatus, NodeEntry, NodeStatus}
use distributed_fs.Fsm.State.{MetadataFsm, ok, get_file, new_empty_metadata_fsm}
use distributed_fs.Fsm.Apply.{apply_command, replay}
use distributed_fs.Fsm.Commands.{CommandCommitChunk, commit_chunk}
use distributed_fs.Fsm.Reads.{get_file_chunks}
use distributed_fs.Fsm.Handlers.Files.{handle_create_file, handle_commit_file, handle_delete_file}
use distributed_fs.Fsm.Handlers.Chunks.{handle_commit_chunk}
use distributed_fs.Fsm.Uploads.{
  any_taken, can_commit, HasStatus, IsDeclared, IsNumbered, handle_create_file-get_file_chunks,
  handle_commit_file_revives,
}
use distributed_fs.Fsm.Replicas.{is_open}
use distributed_fs.Fsm.Resolve.{
  SameMap, HasUniqueAddresses, two_nodes, with_nodes, replicas_of, commit_chunk_order_dependent,
}
use distributed_fs.Tests.Wire.{wire_json}
use distributed_fs.Tests.Sample.{
  fsm_program, join_node, new_data, store_chunk, finish_data, entries, started, uploaded,
}
use distributed_fs.Fsm.Accepts.{upload_ok_iff}

handle_create_file-get_file_chunks_example :
    let s' = (handle_create_file new_data started).0 in
    ((f : FileRecord) × (get_file s' "f1" ≡ ok f) × IsDeclared new_data f)
    × ((cks : List ChunkRecord) × (get_file_chunks s' "f1" ≡ ok cks)
        × IsNumbered "f1" 0 ("c0" ∷ "c1" ∷ []) cks)
unfolding fsm_program
handle_create_file-get_file_chunks_example =
    handle_create_file-get_file_chunks new_data started (refl, (refl, tt)) refl

handle_commit_file_revives_example :
    let gone = (handle_delete_file (record { file_id = "f1" }) uploaded).0 in
    HasStatus FileStatus.deleted "f1" gone
    × ((handle_commit_file finish_data gone).1 ≡ none)
    × HasStatus FileStatus.complete "f1" (handle_commit_file finish_data gone).0
unfolding fsm_program
handle_commit_file_revives_example =
    handle_commit_file_revives (record { file_id = "f1" }) finish_data uploaded refl refl

abbrev allocated_file : MetadataFsm
allocated_file = (handle_create_file new_data started).0

abbrev old_node : NodeEntry
old_node = record {
  node_id = "n8";
  address = "h:9000";
  status = NodeStatus.dead;
  free_space = 50;
  chunk_count = 0;
  last_seen = 100;
  registered_at = 100;
  updated_at = 100;
}

abbrev new_node : NodeEntry
new_node = record old_node { node_id = "n9"; status = NodeStatus.alive }

-- The file is created, and its first chunk is committed by its node's address.
abbrev shared_address : CommandCommitChunk
shared_address = record { chunk_id = "c0"; node_ids = "h:9000" ∷ []; checksum = 7 ∷ 8 ∷ [] }

commit_chunk_order_dependent_example :
    SameMap
      (two_nodes old_node new_node started.node_registry)
      (two_nodes new_node old_node started.node_registry)
    × (replicas_of "c0"
          (apply_command
            (commit_chunk shared_address)
            (with_nodes (two_nodes old_node new_node started.node_registry) allocated_file)).0
        ≡ some ("n8" ∷ []))
    × (replicas_of "c0"
          (apply_command
            (commit_chunk shared_address)
            (with_nodes (two_nodes new_node old_node started.node_registry) allocated_file)).0
        ≡ some ("n9" ∷ []))
unfolding fsm_program
commit_chunk_order_dependent_example =
    commit_chunk_order_dependent old_node new_node started.node_registry allocated_file
      shared_address "h:9000" refl refl refl (ne_of_test "n8" "n9" refl)
      (ne_of_test "n8" "h:9000" refl) (ne_of_test "n9" "h:9000" refl) (ne_of_test "n8" "" refl)
      (ne_of_test "n9" "" refl) refl refl

-- Two replicas whose maps are visited in different orders.
abbrev forth : MetadataFsm
forth =
    replay wire_json (entries (join_node "n1" "h1" 5 ∷ join_node "n2" "h2" 6 ∷ []))
      new_empty_metadata_fsm

abbrev back : MetadataFsm
back =
    replay wire_json (entries (join_node "n2" "h2" 6 ∷ join_node "n1" "h1" 5 ∷ []))
      new_empty_metadata_fsm

same_nodes : SameMap forth.node_registry back.node_registry
unfolding fsm_program
same_nodes k = ground (arith, ne_of_test "n1" "n2" refl)

unique_addresses : HasUniqueAddresses forth.node_registry
unfolding fsm_program
unique_addresses k k' e e' p q a =
    ground (arith, ne_of_test "n1" "n2" refl, ne_of_test "h1" "h2" refl)

upload_ok_iff_example :
    (((handle_create_file new_data started).1 ≡ none) ↔ (
      (has "f1" started.file_index || any_taken started.chunk_registry new_data.chunk_ids) ≡ false))
    × (((handle_commit_chunk (store_chunk "c0" []) started).1 ≡ none)
        ↔ (is_open "c0" started ≡ true))
    × (((handle_commit_file finish_data started).1 ≡ none)
        ↔ (can_commit finish_data started ≡ true))
upload_ok_iff_example = upload_ok_iff new_data (store_chunk "c0" []) finish_data started
