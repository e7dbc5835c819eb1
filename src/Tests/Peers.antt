-- ===== src/Tests/Peers.antt =====
-- The theorems about frames, replication, retries and the checksum index, at small inputs.
use distributed_fs.Common.{
  take, ◌≤◌, String, [], ◌∷◌, ◌≡◌, refl, none, some, true, false, Bytes, arith, if◌then◌else◌, ◌==◌,
  length, String_discrete, ne_of_test, ltb, ◌*◌,
}
use distributed_fs.Common.Registry.{lookup}
use distributed_fs.Storage.Errors.{ok}
use distributed_fs.Storage.Index.{Codec}
use distributed_fs.Storage.Disk.{fine, exists, temp_path, new_disk_store}
use distributed_fs.Storage.Serve.{eof, answered}
use distributed_fs.Storage.Peer.{
  ReplicateChunkRequest, closed, replicate_chunk, replicate_chunk-truncated,
}
use distributed_fs.Storage.Retry.{Policy, Attempts, succeeded, policy_do, policy_do-succeeds}
use distributed_fs.Storage.Replication.{
  RepairJob, claims, offers, starts, finishes, happen_all, new_replication_manager,
}
use distributed_fs.Storage.Replication.Tracked.{IsTracked, happen_all-IsTracked}
use distributed_fs.Tests.Storage.{layout, storage_program}
use distributed_fs.Common.{List, map, ◌*◌, ◌↔◌, ◌<◌}
use distributed_fs.Storage.Disk.{DiskStore, read}
use distributed_fs.Storage.Serve.{Answer}
use distributed_fs.Storage.Peer.{Finish, final_response}
use distributed_fs.Storage.Sender.{Reported, replica, replicate_to_nodes}
use distributed_fs.Storage.Sender.Copies.{arriving}
use distributed_fs.Storage.Sender.Transfer.{replicated, replicate_chunk-copies}
use distributed_fs.Storage.Sender.Quorum.{in_time, good_of, replicate_to_nodes-quorum}
use distributed_fs.Tests.Storage.{layout-IsJoin}
use distributed_fs.Common.{◌+◌, ◌-◌, ◌/◌}
use distributed_fs.Client.Chunker.{ChunkDescriptor, Chunking, descriptors_from}
use distributed_fs.Leader
use distributed_fs.Leader.{LeaderCache, Network, status, failed_precondition, invoke}
use distributed_fs.Leader.Redirects.{invoke-redirect}

abbrev plain : Codec Bytes
plain = record { marshal = ok; unmarshal = ok }

-- The third frame cannot be sent.
abbrev half_sent : ReplicateChunkRequest
half_sent = record { chunk_id = "abcd"; data_bytes = 1 ∷ 2 ∷ []; is_first = true; is_last = false }

replicate_chunk-truncated_example :
    let x =
      replicate_chunk layout
        (record { frame = half_sent; os = fine; can_ack = true } ∷ [])
        eof
        fine
        none
        (new_disk_store [] []) in
    (x.1 ≡ answered closed)
    × (exists layout "abcd" x.0 ≡ exists layout "abcd" (new_disk_store [] []))
    × (lookup (temp_path layout "abcd") x.0.files ≡ some (1 ∷ 2 ∷ []))
unfolding storage_program
replicate_chunk-truncated_example =
    replicate_chunk-truncated layout "abcd" "abcd" (1 ∷ 2 ∷ []) fine (new_disk_store [] []) refl
      (ne_of_test "abcd" "" refl) (omega arith)

-- `DefaultPolicy`, and a function that fails twice.
abbrev policy : Policy
policy = record { max_attempts = 5; base = 100; max = 5000; scaled = λ d. d * 2 }

abbrev twice_failing : Attempts String
twice_failing = record {
  cancelled = λ _. none;
  called = λ i. if ltb i 2 then some "unavailable" else none;
  cancelled_asleep = λ _. none;
  random = λ attempt bound. 1;
}

policy_do-succeeds_example :
    ((policy_do policy twice_failing).result ≡ succeeded)
    × ((policy_do policy twice_failing).calls ≡ 3)
policy_do-succeeds_example =
    policy_do-succeeds policy twice_failing 2 (λ _. refl) (λ _. refl) (omega arith)
      (λ n h. ground (arith, h)) refl

abbrev repair : String → RepairJob
repair c = record { job_id = "j"; chunk_id = c; source = "n1"; target = "n2:1" }

happen_all-IsTracked_example : IsTracked (
    happen_all
      (claims (repair "c0") ∷ offers 0 ∷ starts ∷ claims (repair "c0") ∷ finishes 0 ∷ [])
      new_replication_manager)
happen_all-IsTracked_example =
    happen_all-IsTracked
      (claims (repair "c0") ∷ offers 0 ∷ starts ∷ claims (repair "c0") ∷ finishes 0 ∷ [])

-- A source with one chunk of three bytes, and an empty peer.
abbrev source : DiskStore
source = record {
  files = ("abcd.chunk", 1 ∷ 2 ∷ 3 ∷ []) ∷ [];
  checksum_store = ("abcd", 7 ∷ 1 ∷ 2 ∷ 3 ∷ []) ∷ [];
  used_space = 3;
}

abbrev peer_after : DiskStore × Answer Finish
peer_after =
    replicate_chunk layout
      (map arriving (replicated layout layout layout-IsJoin "abcd" (new_disk_store [] []) source).0)
      eof fine none (new_disk_store [] [])

replicate_chunk-copies_example :
    ((replicated layout layout layout-IsJoin "abcd" (new_disk_store [] []) source).1 ≡ true)
    × (peer_after.1 ≡ answered (final_response "abcd" (7 ∷ 1 ∷ 2 ∷ 3 ∷ [])))
    × (read layout fine "abcd" peer_after.0 ≡ (
        if "abcd" == "abcd"
        then ok (1 ∷ 2 ∷ 3 ∷ [])
        else read layout fine "abcd" (new_disk_store [] [])))
unfolding storage_program
replicate_chunk-copies_example =
    replicate_chunk-copies layout layout layout-IsJoin "abcd" (new_disk_store [] []) source
      (1 ∷ 2 ∷ 3 ∷ []) "abcd" refl (omega arith) refl refl

abbrev reports : List Reported
reports = replica "h2:1" true ∷ replica "h3:1" false ∷ replica "h4:1" true ∷ []

replicate_to_nodes-quorum_example :
    let x = replicate_to_nodes ("h2:1" ∷ "h3:1" ∷ "h4:1" ∷ []) reports in
    let good = good_of (take 3 (in_time reports)) in
    (x.0 ≡ good) × ((x.1 ≡ true) ↔ ((3 ≤ length (in_time reports)) × (3 < 2 * length good)))
replicate_to_nodes-quorum_example =
    replicate_to_nodes-quorum ("h2:1" ∷ "h3:1" ∷ "h4:1" ∷ []) reports (omega arith)

abbrev chunking : Chunking
chunking = record {
  new_id = "f1";
  compute_chunk_id = λ file_id i. file_id;
  ceil_quotient = λ a b. (a + b - 1) / b;
}

abbrev cut_file : Bytes
cut_file = 1 ∷ 2 ∷ 3 ∷ 4 ∷ 5 ∷ []

abbrev cut_of_file : List ChunkDescriptor
cut_of_file = descriptors_from chunking 5 2 3 0

-- The node at h1 follows, and the one at h2 leads.
abbrev network : Network
network = record {
  dials = λ addr. true;
  calls =
      λ i addr. if addr == "h2" then Leader.answered else status failed_precondition (some "h2");
}

abbrev cache : LeaderCache
cache = record {
  current_addr = "h1";
  seed_addrs = "h1" ∷ "h2" ∷ [];
  next_idx = 0;
  conn = some "h1";
}

invoke-redirect_example :
    let x = invoke network policy twice_failing cache in
    (x.1.1 ≡ Leader.ok)
    × (x.1.0 ≡ (if "h1" == "h2" then "h2" ∷ [] else "h1" ∷ "h2" ∷ []))
    × (x.0.conn ≡ some "h2")
unfolding String_discrete
invoke-redirect_example =
    invoke-redirect network policy twice_failing "h2" "h1" cache (λ _. refl) (λ _. refl)
      (λ i f other. ground (arith, other)) refl refl refl (omega arith)
