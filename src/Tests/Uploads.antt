-- ===== src/Tests/Uploads.antt =====
-- The theorems about an upload, at a file of five bytes in chunks of two.
use distributed_fs.Common.{
  ℕ, ◌+◌, ◌-◌, ◌/◌, ◌*◌, ◌≢◌, String, List, [], ◌∷◌, ◌≡◌, refl, Option, none, some, Bytes, arith,
  map, flatten, nat_eq, String_discrete, ◌==◌, if◌then◌else◌, bytes_equal, contains, ltb,
}
use distributed_fs.Common.Registry.{lookup, insert, delete}
use distributed_fs.Common.Orders.{tagged-Perm}
use distributed_fs.Storage.Errors.{ok}
use distributed_fs.Storage.Disk.{new_disk_store}
use distributed_fs.Storage.Retry.{policy_do, try_from}
use distributed_fs.Storage.Serve.{StorageServerHandler}
use distributed_fs.Client.Errors.{done, remote}
use distributed_fs.Client.Chunker.{
  ChunkDescriptor, Chunking, descriptors_from, generate_descriptors,
}
use distributed_fs.Client.Chunker.Pieces.{piece}
use distributed_fs.Client.Manifest.{
  UploadManifest, Manager, manifest_path, write_locked, create, load, mark_chunk_done,
  delete_manifest, get_pending_chunks,
}
use distributed_fs.Client.Manifest.Pending.{no_fault, IsJson}
use distributed_fs.Client.Transfers.{
  Placement, Work, UploadService, placement_map, calls_from, upload_chunk_with_retry, upload_one,
  upload_all,
}
use distributed_fs.Client.Upload.{
  Inputs, World, new_status, finish_upload, upload_placed, upload_descriptors, upload_chunked,
  upload,
}
use distributed_fs.Client.Upload.Commits.{IsCommitted, upload-IsCommitted}
use distributed_fs.Client.Upload.Resumes.{is_missing, upload-resumable}
use distributed_fs.Client.StorageClient.{Header, GrpcClient, client_put_chunk}
use distributed_fs.Client.StorageClient.Roundtrip.{Holds, node, to_node, client_put_chunk-get}
use distributed_fs.Tests.Storage.{layout, layout-IsJoin, storage_program}

abbrev file : Bytes
file = 1 ∷ 2 ∷ 3 ∷ 4 ∷ 5 ∷ []

abbrev chunking : Chunking
chunking = record {
  new_id = "f1";
  compute_chunk_id = λ file_id i. if nat_eq i 0 then "c0" else if nat_eq i 1 then "c1" else "c2";
  ceil_quotient = λ a b. (a + b - 1) / b;
}

-- The manifests are kept as they are.
abbrev manager : Manager (Option UploadManifest)
manager = record {
  manifest_dir = "manifests";
  join = λ dir name. name;
  marshal = λ m. some m;
  unmarshal = λ d. d;
}

manager-IsJson : IsJson manager
manager-IsJson manifest status e u = (manifest, status, refl, refl, e, u, λ c. refl)

-- A metadata service that keeps the list of its calls.
abbrev service : UploadService (Option UploadManifest) (List String)
service = record {
  chunk_size = 2;
  policy = record { max_attempts = 3; base = 100; max = 5000; scaled = λ d. d * 2 };
  chunking = chunking;
  sha256 = λ b. b;
  metadata = record {
    create_file = λ file_id name total size ids calls. (
      "CreateFile" ∷ calls,
      done ("f1", map (λ c. record { chunk_id = c; primary = "h1"; replicas = "h2" ∷ [] }) ids),
    );
    commit_file = λ file_id total calls. ("CommitFile" ∷ calls, none);
  };
  manifests = manager;
}

-- So many attempts fail.
abbrev failing : ℕ → Work (Option UploadManifest)
failing n = record {
  read = none;
  attempts = record {
    cancelled = λ _. none;
    called = λ i. if ltb i n then some (remote "unavailable") else none;
    cancelled_asleep = λ _. none;
    random = λ attempt bound. 1;
  };
  mark = no_fault;
}

-- The chunk `c` is refused so often, the others once.
abbrev inputs : String → ℕ → Inputs (Option UploadManifest)
inputs c n = record {
  stat = done 5;
  described = ok 5;
  create = no_fault;
  open_file = none;
  finished = λ ds. map (λ d. (d, if d.chunk_id == c then failing n else failing 1)) ds;
  delete = no_fault;
}

abbrev empty_world : World (Option UploadManifest) (List String)
empty_world = record { files = []; meta = []; puts = [] }

unfoldable upload_program : Unit {0}
unfolding descriptors_from generate_descriptors manifest_path write_locked create load
    mark_chunk_done delete_manifest get_pending_chunks placement_map calls_from
    upload_chunk_with_retry upload_one upload_all new_status finish_upload upload_placed
    upload_descriptors upload_chunked upload policy_do try_from lookup insert delete String_discrete
    bytes_equal
upload_program = tt

abbrev uploaded : World (Option UploadManifest) (List String)
uploaded = (upload service file (inputs "c1" 2) "data.bin" empty_world).0

uploaded_calls : uploaded.meta ≡ "CommitFile" ∷ "CreateFile" ∷ []
unfolding upload_program
uploaded_calls = refl

upload-IsCommitted_example :
    (d : ChunkDescriptor) × (ds : List ChunkDescriptor) × (flatten (map (piece file) (d ∷ ds))
      ≡ file)
    × IsCommitted service file (inputs "c1" 2) "data.bin" empty_world 5 d.file_id (d ∷ ds) uploaded
unfolding upload_program
upload-IsCommitted_example =
    upload-IsCommitted service file (inputs "c1" 2) "data.bin" empty_world (refl, refl)
      (omega arith) (record { enough = omega arith; least = omega arith })
      (tagged-Perm (λ d. if d.chunk_id == "c1" then failing 2 else failing 1)) refl

abbrev cut : List ChunkDescriptor
cut = descriptors_from chunking 5 2 3 0

abbrev first : ChunkDescriptor
first = record { chunk_id = "c0"; file_id = "f1"; chunk_index = 0; offset = 0; size = 2 }

abbrev others : List ChunkDescriptor
others =
    record { chunk_id = "c1"; file_id = "f1"; chunk_index = 1; offset = 2; size = 2 }
    ∷ record { chunk_id = "c2"; file_id = "f1"; chunk_index = 2; offset = 4; size = 1 }
    ∷ []

abbrev stopped : World (Option UploadManifest) (List String)
stopped = (upload service file (inputs "c1" 3) "data.bin" empty_world).0

abbrev placed : List Placement
placed =
    map (λ c. record { chunk_id = c; primary = "h1"; replicas = "h2" ∷ [] })
      ("c0" ∷ "c1" ∷ "c2" ∷ [])

upload-resumable_example :
    ((upload service file (inputs "c1" 3) "data.bin" empty_world).1.1 ≢ none)
    × (stopped.meta ≡ "CreateFile" ∷ [])
    × (ps : List String) × (get_pending_chunks manager no_fault "f1" stopped.files ≡ done ps)
    × ((c : String)
        → contains ps c
          ≡ is_missing service file
              (inputs "c1" 3)
              "data.bin"
              empty_world
              placed
              (first ∷ others)
              c)
unfolding upload_program
upload-resumable_example =
    upload-resumable service file (inputs "c1" 3) "data.bin" empty_world 5 first others "f1" placed
      manager-IsJson refl refl refl refl refl (refl, (refl, (refl, tt))) refl

abbrev handler : StorageServerHandler (List String)
handler = record {
  node_id = "n1";
  replicator = none;
  meta_client = some (λ r told. (r.chunk_id ∷ told, none));
}

abbrev header : Header
header = record { chunk_id = "abcd"; checksum = 7 ∷ 1 ∷ 2 ∷ 3 ∷ []; replicate_to = "h2" ∷ [] }

abbrev connection : String
connection = "conn"

abbrev pool : GrpcClient String
pool = record { conns = []; frame_size = 2 }

client_put_chunk-get_example :
    let x =
      client_put_chunk
        (to_node layout layout-IsJoin (new_disk_store [] []) handler [] connection)
        "h1"
        header
        (1 ∷ 2 ∷ 3 ∷ [])
        pool in
    Holds layout layout-IsJoin
      (new_disk_store [] [])
      handler
      []
      connection
      header
      (1 ∷ 2 ∷ 3 ∷ [])
      x.1
      (node layout layout-IsJoin (new_disk_store [] []) handler [] connection x.0.1)
unfolding storage_program
client_put_chunk-get_example =
    client_put_chunk-get layout layout-IsJoin (new_disk_store [] []) handler [] connection "h1"
      header (1 ∷ 2 ∷ 3 ∷ []) pool (omega arith) refl refl refl
