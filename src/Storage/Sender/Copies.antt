-- ===== src/Storage/Sender/Copies.antt =====
-- What a peer has after it was sent a chunk.
use distributed_fs.Common.{
  ◌-◌, ◌<◌, String, Bool, true, false, List, [], ◌∷◌, ◌++◌, ◌≡◌, refl, Option, none, some, Bytes,
  arith, bytes_equal_iff, length, ltb, ◌==◌,
}
use distributed_fs.Common.Registry.{lookup, insert, delete, lookup-insert}
use distributed_fs.Storage.Errors.{StoreError, ok}
use distributed_fs.Storage.Disk.{
  Layout, DiskStore, fine, is_valid, temp_path, temp_dir_for, old_size, unused, rename,
}
use distributed_fs.Storage.Disk.Paths.{IsJoin}
use distributed_fs.Storage.Disk.Steps.{stored}
use distributed_fs.Storage.Chunk.{
  ChunkWriter, new_chunk_writer, append_frame, finalize, computed_checksum,
}
use distributed_fs.Storage.Serve.{answered, eof}
use distributed_fs.Storage.Serve.Uploads.{
  old_size-IsStaging, stored-IsStaging, IsStaging, Appended, append-IsStaging,
}
use distributed_fs.Storage.Peer.{
  ReplicateChunkRequest, Received, final_response, open_first, take_data, finish_chunk,
  replicate_chunk,
}

-- A request that the peer receives while nothing fails there.
abbrev pub arriving : ReplicateChunkRequest → Received
arriving req = record { frame = req; os = fine; can_ack = true }

module _ (l : Layout) (j : IsJoin l) (c : String) (base : DiskStore) where
  pub append-fine :
      (w : ChunkWriter) (b d : Bytes) (s : DiskStore)
      → IsStaging l base w c b s
      → (append_frame l fine d (w, s)).1 ≡ none
        × IsStaging l base
            (append_frame l fine d (w, s)).0.0
            c
            (b ++ d)
            (append_frame l fine d (w, s)).0.1
  unfolding append_frame
  append-fine w b d s h =
      go (append_frame l fine d (w, s)) (append-IsStaging l fine d base w c b s h)
        (ground (arith, h.going))
    where
      go :
          (x : (ChunkWriter × DiskStore) × Option StoreError)
          → Appended l base c (b ++ d) x
          → x.1 ≡ none
          → (x.1 ≡ none) × IsStaging l base x.0.0 c (b ++ d) x.0.1
      go ((w', t), none) a e = (refl, a)
      go ((w', t), some _) a e = absurd (cc)

  -- There is room for the chunk.
  abbrev pub HasRoom : Bytes → Type 0
  HasRoom b = ltb (unused l base) (length b - old_size l none c base) ≡ false

  rename-fine :
      (src : String) (v : Bytes) (s : DiskStore)
      → is_valid l c ≡ true
      → lookup src s.files ≡ some v
      → ltb (unused l s) (length v - old_size l none c s) ≡ false
      → rename l fine src c s ≡ (stored l c v (delete src s.files) s, none)
  unfolding rename
  rename-fine src v s valid file room = ground (arith, valid, file, room)

  -- The writer ends with the checksum of what it has written.
  pub finalize-fine :
      (w : ChunkWriter) (b : Bytes) (s : DiskStore)
      → IsStaging l base w c b s
      → HasRoom b
      → let x = finalize l fine (l.sha256 b) (w, s) in
        (x.1 ≡ none) × (x.0.1 ≡ stored l c b (delete (temp_path l c) base.files) base)
  unfolding finalize computed_checksum
  finalize-fine w b s h room =
      let file : lookup (temp_path l c) s.files ≡ some b =
        ground (arith, h.files, lookup-insert (temp_path l c) b base.files (temp_path l c)) in
      let roomy : ltb (unused l s) (length b - old_size l none c s) ≡ false =
        ground (arith, room, h.files, old_size-IsStaging l j base w c b s h) in
      let done : rename l fine w.filepath w.chunk_id s
          ≡ (stored l c b (delete (temp_path l c) base.files) base, none) =
        ground (
          arith,
          h.path,
          h.id,
          rename-fine (temp_path l c) b s h.valid file roomy,
          stored-IsStaging l j base w c b s h,
        ) in
      let same = (bytes_equal_iff (l.sha256 w.hashed) (l.sha256 w.hashed)).1 refl in
      ground (arith, done, same, h.going, h.hashed)

  finish-fine :
      (w : ChunkWriter) (b : Bytes) (s : DiskStore)
      → IsStaging l base w c b s
      → HasRoom b
      → finish_chunk l fine (w, c) s ≡ (
        stored l c b (delete (temp_path l c) base.files) base,
        answered (final_response c (l.sha256 b)),
      )
  unfolding finish_chunk computed_checksum
  finish-fine w b s h room =
      let (ended, left) = finalize-fine w b s h room in ground (arith, ended, left, h.hashed)

  -- The request with some data, by whether it is the first and the last.
  abbrev pub request : Bytes → Bool → Bool → ReplicateChunkRequest
  request d is_first is_last = record {
    chunk_id = c;
    data_bytes = d;
    is_first = is_first;
    is_last = is_last;
  }

  take-fine :
      (d : Bytes) (is_first is_last : Bool) (w : ChunkWriter) (b : Bytes) (s : DiskStore)
      → 0 < length d
      → IsStaging l base w c b s
      → let x = append_frame l fine d (w, s) in
        take_data l (arriving (request d is_first is_last)) (w, c) s ≡ (x.0.1, answered (x.0.0, c))
  unfolding take_data
  take-fine d is_first is_last w b s p h = ground (arith, p, (append-fine w b d s h).0)

  pub receive-more :
      (d : Bytes) (xs : List Received) (w : ChunkWriter) (b : Bytes) (s : DiskStore)
      → 0 < length d
      → IsStaging l base w c b s
      → let x = append_frame l fine d (w, s) in
        replicate_chunk l (arriving (request d false false) ∷ xs) eof fine (some (w, c)) s
        ≡ replicate_chunk l xs eof fine (some (x.0.0, c)) x.0.1
  unfolding replicate_chunk open_first
  receive-more d xs w b s p h = ground (arith, take-fine d false false w b s p h)

  pub receive-last :
      (d : Bytes) (xs : List Received) (w : ChunkWriter) (b : Bytes) (s : DiskStore)
      → 0 < length d
      → IsStaging l base w c b s
      → HasRoom (b ++ d)
      → replicate_chunk l (arriving (request d false true) ∷ xs) eof fine (some (w, c)) s ≡ (
        stored l c (b ++ d) (delete (temp_path l c) base.files) base,
        answered (final_response c (l.sha256 (b ++ d))),
      )
  unfolding replicate_chunk open_first
  receive-last d xs w b s p h room =
      let x = append_frame l fine d (w, s) in
      ground (
        arith,
        take-fine d false true w b s p h,
        finish-fine x.0.0 (b ++ d) x.0.1 (append-fine w b d s h).1 room,
      )

  abbrev pub first_writer : ChunkWriter
  first_writer = record { filepath = temp_path l c; chunk_id = c; is_done = false; hashed = [] }

  abbrev pub first_store : DiskStore
  first_store = record base { files = insert (temp_path l c) [] base.files }

  pub valid-named : is_valid l c ≡ true → (c == "") ≡ false
  unfolding is_valid
  valid-named v = ground (arith, v)

  pub first-opened :
      is_valid l c ≡ true → new_chunk_writer l fine c base ≡ (first_store, ok first_writer)
  unfolding new_chunk_writer temp_dir_for
  first-opened v = ground (arith, v, valid-named v)

  open-first_frame :
      (d : Bytes) (is_last : Bool)
      → is_valid l c ≡ true
      → open_first l (arriving (request d true is_last)) none base
        ≡ (first_store, answered (first_writer, c))
  unfolding open_first
  open-first_frame d is_last v = ground (arith, first-opened v, valid-named v)

  open-next_frame :
      (d : Bytes) (is_last : Bool)
      → open_first l (arriving (request d false is_last)) (some (first_writer, c)) first_store
        ≡ (first_store, answered (first_writer, c))
  unfolding open_first
  open-next_frame d is_last = refl

  take-first_frame :
      (d : Bytes) (is_last : Bool)
      → take_data l (arriving (request d true is_last)) (first_writer, c) first_store
        ≡ take_data l (arriving (request d false is_last)) (first_writer, c) first_store
  unfolding take_data
  take-first_frame d is_last = refl

  pub receive-first :
      (d : Bytes) (is_last : Bool) (xs : List Received)
      → is_valid l c ≡ true
      → replicate_chunk l (arriving (request d true is_last) ∷ xs) eof fine none base
        ≡ replicate_chunk l
            (arriving (request d false is_last) ∷ xs)
            eof
            fine
            (some (first_writer, c))
            first_store
  unfolding replicate_chunk
  receive-first d is_last xs v =
      ground
        (arith, open-first_frame d is_last v, open-next_frame d is_last, take-first_frame d is_last)

  pub first-IsStaging : is_valid l c ≡ true → IsStaging l base first_writer c [] first_store
  first-IsStaging v = record {
    path = refl;
    id = refl;
    going = refl;
    hashed = refl;
    valid = v;
    files = refl;
  }
