-- ===== src/Tests/Storage.antt =====
-- The theorems about a storage node, at a store of a hundred bytes.
use distributed_fs.Common.{
  String, Bool, List, [], ◌∷◌, ◌≡◌, refl, none, some, true, false, Bytes, arith, String_discrete,
  ◌-◌, bytes_equal,
}
use distributed_fs.Common.Registry.{lookup, insert, delete}
use distributed_fs.Storage.Errors.{ok, invalid_chunk_id}
use distributed_fs.Storage.Disk.{
  Layout, DiskStore, Os, fine, u64_mod, is_valid, shards, chunk_path, path_for_chunk, temp_path,
  temp_dir_for, exists, write, rename, read, delete_chunk, verify, free_space, new_disk_store, size,
}
use distributed_fs.Storage.Disk.Paths.{IsJoin}
use distributed_fs.Storage.Disk.Steps.{IsSafe, IsCommitting}
use distributed_fs.Storage.Disk.Sound.{IsSound}
use distributed_fs.Storage.Disk.Runs.{
  Step, written, renamed, staged, step, run, run-IsSound, step-failed,
}
use distributed_fs.Storage.Disk.Reads.{write-restart}
use distributed_fs.Storage.Chunk.{
  new_chunk_writer, append_frame, abort, computed_checksum, finalize,
}
use distributed_fs.Storage.Serve.{
  PutChunkRequest, eof, Answer, StorageServerHandler, addresses, open_upload, accept_frame, receive,
  store_stream, publish, put_chunk,
}
use distributed_fs.Storage.Chunk.{default_frame_size}
use distributed_fs.Storage.Streams.{serve_get_chunk}
use distributed_fs.Storage.Streams.Frames.{Framed}
use distributed_fs.Storage.Streams.Gets.{serve_get_chunk-put_chunk}
use distributed_fs.Storage.Serve.Puts.{put_chunk-answered}

-- Every function that an upload calls.
unfoldable pub storage_program : Unit {0}
unfolding is_valid shards chunk_path path_for_chunk temp_path temp_dir_for exists write rename read
    delete_chunk verify free_space new_disk_store step run new_chunk_writer append_frame abort
    computed_checksum finalize addresses open_upload accept_frame receive store_stream publish
    put_chunk lookup insert delete String_discrete bytes_equal
storage_program = tt

abbrev pub layout : Layout
layout = record {
  root_dir = "/data";
  temp_dir = "/data/tmp";
  split_level = 1;
  total_space = 100;
  join = λ dirs name. name;
  sha256 = λ d. 7 ∷ d;
}

pub layout-IsJoin : IsJoin layout
layout-IsJoin = record {
  base = λ path. path;
  chunk_base = λ ds c v. refl;
  temp_base = λ ds c v. refl;
}

fine-IsCommitting : IsCommitting fine
fine-IsCommitting = record { stat_dest = refl; read_file = refl; index_put = refl }

fine-IsSafe : IsSafe fine
fine-IsSafe = record {
  commits = fine-IsCommitting;
  write_file = refl;
  stat = refl;
  index_delete = refl;
}

abbrev calls : List (Os × Step)
calls =
    (fine, written "abcd" (1 ∷ 2 ∷ 3 ∷ []))
    ∷ (fine, staged "wxyz" (4 ∷ []))
    ∷ (fine, renamed "wxyz" "wxyz")
    ∷ (fine, written "abcd" (5 ∷ []))
    ∷ []

abbrev filled : DiskStore
filled = run layout calls (new_disk_store [] [])

filled_size : (size filled ≡ 2) × (read layout fine "abcd" filled ≡ ok (5 ∷ []))
unfolding storage_program
filled_size = (refl, refl)

run-IsSound_example : IsSound layout filled
unfolding storage_program
run-IsSound_example =
    run-IsSound layout layout-IsJoin (omega arith) calls
      ((fine-IsSafe, refl), ((fine-IsSafe, refl), ((fine-IsSafe, refl), ((fine-IsSafe, refl), tt))))

step-failed_example : (step layout fine (written "../x" (1 ∷ [])) filled).0 ≡ filled
unfolding storage_program
step-failed_example =
    step-failed layout fine (written "../x" (1 ∷ [])) filled invalid_chunk_id fine-IsSafe refl

-- A store that starts again over one chunk of three bytes.
abbrev restarted : DiskStore
restarted =
    (write layout fine "abcd" (5 ∷ [])
      (new_disk_store (("abcd.chunk", 1 ∷ 2 ∷ 3 ∷ []) ∷ []) (("abcd", 7 ∷ 1 ∷ 2 ∷ 3 ∷ []) ∷ []))).0

write-restart_example : (size restarted ≡ u64_mod - 2) × (free_space layout restarted ≡ 0)
unfolding storage_program
write-restart_example =
    write-restart layout "abcd" (5 ∷ []) (1 ∷ 2 ∷ 3 ∷ []) (("abcd.chunk", 1 ∷ 2 ∷ 3 ∷ []) ∷ [])
      (("abcd", 7 ∷ 1 ∷ 2 ∷ 3 ∷ []) ∷ []) (omega arith) refl refl refl (omega arith)

-- A handler whose peers and metadata service keep the list of the chunks that they are told of.
abbrev handler : StorageServerHandler (List String)
handler = record {
  node_id = "n1";
  replicator = some (λ c targets told. (c ∷ told, targets));
  meta_client = some (λ r told. (r.chunk_id ∷ told, none));
}

abbrev frame : Bytes → Bytes → Bool → PutChunkRequest
frame d sum last = record {
  chunk_id = "ijkl";
  data_bytes = d;
  checksum = sum;
  is_last = last;
  replicate_to = some "h2:9000" ∷ none ∷ [];
}

abbrev two_frames : List (Os × PutChunkRequest)
two_frames =
    (fine, frame (1 ∷ 2 ∷ []) [] false) ∷ (fine, frame (3 ∷ []) (7 ∷ 1 ∷ 2 ∷ 3 ∷ []) true) ∷ []

abbrev uploaded_chunk : (DiskStore × List String) × Answer (String × Bytes)
uploaded_chunk = put_chunk handler layout two_frames eof fine (filled, [])

upload_told : uploaded_chunk.0.1 ≡ "ijkl" ∷ "ijkl" ∷ []
unfolding storage_program
upload_told = refl

abbrev new_id : String
new_id = "ijkl"

put_chunk-answered_example :
    (new_id ≡ new_id)
    × (7 ∷ 1 ∷ 2 ∷ 3 ∷ [] ≡ layout.sha256 (1 ∷ 2 ∷ 3 ∷ []))
    × (read layout fine "ijkl" uploaded_chunk.0.0 ≡ ok (1 ∷ 2 ∷ 3 ∷ []))
unfolding storage_program
put_chunk-answered_example =
    put_chunk-answered layout layout-IsJoin handler fine (frame (1 ∷ 2 ∷ []) [] false)
      ((fine, frame (3 ∷ []) (7 ∷ 1 ∷ 2 ∷ 3 ∷ []) true) ∷ []) eof fine filled [] "ijkl"
      (7 ∷ 1 ∷ 2 ∷ 3 ∷ []) "ijkl" (refl, (refl, tt)) refl fine-IsCommitting refl

abbrev cut_off : (DiskStore × List String) × Answer (String × Bytes)
cut_off = put_chunk handler layout ((fine, frame (1 ∷ 2 ∷ []) [] false) ∷ []) eof fine (filled, [])

serve_get_chunk-put_chunk_example :
    Framed layout default_frame_size
      (1 ∷ 2 ∷ 3 ∷ [])
      (serve_get_chunk layout fine (λ _. fine) (λ _. true) "ijkl" uploaded_chunk.0.0)
unfolding storage_program
serve_get_chunk-put_chunk_example =
    serve_get_chunk-put_chunk layout layout-IsJoin handler fine (frame (1 ∷ 2 ∷ []) [] false)
      ((fine, frame (3 ∷ []) (7 ∷ 1 ∷ 2 ∷ 3 ∷ []) true) ∷ []) eof fine filled [] "ijkl"
      (7 ∷ 1 ∷ 2 ∷ 3 ∷ []) (refl, (refl, tt)) refl fine-IsCommitting refl
