-- ===== src/Tests/Client.antt =====
-- The theorems about the client, at a file of five bytes in chunks of two.
use distributed_fs.Common.{
  ℕ, String, [], ◌∷◌, ◌≡◌, refl, Option, none, some, Bytes, arith, map, String_discrete, ◌==◌,
  if◌then◌else◌, bytes_equal,
}
use distributed_fs.Common.Registry.{Registry, lookup, insert, delete}
use distributed_fs.Common.Orders.{Perm-tagged, Perm-same}
use distributed_fs.Common.Positions.{write_at}
use distributed_fs.Client.Errors.{ClientError, done, failed, remote}
use distributed_fs.Client.Download.{
  FileInfo, ChunkInfo, Transfer, Schedule, System, is_accepted, try_replica, fetch_from,
  download_chunk_with_failover, download_one, download_all, download,
}
use distributed_fs.Client.Download.Failover.{
  Fetched, first_usable, download_chunk_with_failover-first,
}
use distributed_fs.Client.Download.Writes.{chunk_at}
use distributed_fs.Client.Download.Whole.{IsSchedule, download-whole}

abbrev file : Bytes
file = 1 ∷ 2 ∷ 3 ∷ 4 ∷ 5 ∷ []

abbrev sha256 : Bytes → Bytes
sha256 b = b

abbrev info : FileInfo
info = record {
  file_id = "f1";
  file_name = "data.bin";
  file_size = 5;
  chunk_size = 2;
  chunk_ids = "c0" ∷ "c1" ∷ "c2" ∷ [];
  status = "complete";
  created_at = 0;
}

abbrev chunk : String → ℕ → ℕ → ChunkInfo
chunk c i n = record {
  chunk_id = c;
  file_id = "f1";
  chunk_index = i;
  size = n;
  checksum = chunk_at file 2 i;
  replicas = "h1" ∷ "h2" ∷ "h3" ∷ [];
}

-- The first replica is down, and the second has other bytes.
abbrev meets : ChunkInfo → Transfer
meets c = record {
  fetch = λ n a. record {
    cancelled = none;
    got =
        if a == "h1"
        then failed (remote "unavailable")
        else if a == "h2"
        then done (9 ∷ [])
        else done (chunk_at file 2 c.chunk_index);
  };
  write = none;
}

abbrev schedule : Schedule
schedule = record { sort_slice = λ cs. cs; finished = λ cs. map (λ c. (c, meets c)) cs }

schedule-IsSchedule : IsSchedule sha256 file 2 schedule
schedule-IsSchedule = record { sorts = Perm-same; finishes = Perm-tagged meets }

abbrev no_error : System
no_error = record { create = none; truncate = none; remove = none }

unfoldable client_program : Unit {0}
unfolding is_accepted try_replica fetch_from download_chunk_with_failover download_one download_all
    download write_at lookup insert delete String_discrete bytes_equal
client_program = tt

abbrev outcome : Bytes × Option ClientError
outcome =
    download_chunk_with_failover sha256 (chunk "c1" 1 2) 2 (meets (chunk "c1" 1 2))
      (0 ∷ 0 ∷ 0 ∷ 0 ∷ 0 ∷ [])

outcome_written : outcome ≡ (0 ∷ 0 ∷ 3 ∷ 4 ∷ 0 ∷ [], none)
unfolding client_program
outcome_written = refl

download_chunk_with_failover-first_example :
    Fetched sha256
      (chunk "c1" 1 2)
      (meets (chunk "c1" 1 2))
      2
      (0 ∷ 0 ∷ 0 ∷ 0 ∷ 0 ∷ [])
      (first_usable sha256 (chunk "c1" 1 2) (meets (chunk "c1" 1 2)) 0 ("h1" ∷ "h2" ∷ "h3" ∷ []))
      outcome
download_chunk_with_failover-first_example =
    download_chunk_with_failover-first sha256 (chunk "c1" 1 2) (meets (chunk "c1" 1 2)) 2
      (0 ∷ 0 ∷ 0 ∷ 0 ∷ 0 ∷ []) (λ i a. refl) refl

abbrev downloaded : Registry Bytes
downloaded =
    (download sha256 schedule no_error
      (done (info, chunk "c2" 2 1 ∷ chunk "c0" 0 2 ∷ chunk "c1" 1 2 ∷ [])) "out" []).0

download-whole_example :
    lookup "out" downloaded ≡ (if "out" == "out" then some file else lookup {V = Bytes} "out" [])
unfolding client_program
download-whole_example =
    download-whole sha256 file 2 (omega arith) (λ i b e. e) schedule no_error info (chunk "c2" 2 1)
      (chunk "c0" 0 2 ∷ chunk "c1" 1 2 ∷ []) "out" [] "out" schedule-IsSchedule
      (record {
        file_size = refl;
        same_chunk_size = refl;
        chunks = ((omega arith, refl), ((omega arith, refl), ((omega arith, refl), tt)));
        covers = λ i h. ground (arith, h);
      })
      refl
