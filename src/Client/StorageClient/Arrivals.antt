-- ===== src/Client/StorageClient/Arrivals.antt =====
-- What a storage node makes of the requests for a chunk.
use mathlib.Core.Path.{subst}
use distributed_fs.Common.{
  ℕ, zero, suc, ◌+◌, ◌<◌, String, Bool, true, false, List, [], ◌∷◌, ◌++◌, ◌≡◌, refl, sym, ap, ◌∙◌,
  none, some, Bytes, arith, length, map, take, drop, take-append-drop, leb, Bool-cases, inl, inr,
}
use distributed_fs.Common.Registry.{delete}
use distributed_fs.Storage.Disk.{Layout, DiskStore, Os, fine, is_valid, temp_path}
use distributed_fs.Storage.Disk.Paths.{IsJoin}
use distributed_fs.Storage.Disk.Steps.{stored}
use distributed_fs.Storage.Chunk.{append_frame}
use distributed_fs.Storage.Serve.{
  PutChunkRequest, Answer, answered, eof, Upload, addresses, open_upload, accept_frame, receive,
  store_stream,
}
use distributed_fs.Storage.Serve.Uploads.{IsStaging}
use distributed_fs.Storage.Sender.Copies.{
  HasRoom, append-fine, finalize-fine, first_writer, first_store, first-IsStaging, first-opened,
}
use distributed_fs.Client.StorageClient.{Header, put_frame, frames_from, put_frames}
use distributed_fs.Client.StorageClient.Frames.{
  take-add, frames_from-last, frames_from-more, put_frames-cons,
}

-- Requests that the node receives while nothing fails there.
abbrev pub arriving : List PutChunkRequest → List (Os × PutChunkRequest)
arriving rs = map (λ r. (fine, r)) rs

module _ (l : Layout) (j : IsJoin l) (base : DiskStore) (h : Header) where
  -- The upload after a frame that is accepted.
  abbrev continued : PutChunkRequest → Upload → DiskStore → Upload
  continued frame up s = record up {
    writer = (append_frame l fine frame.data_bytes (up.writer, s)).0.0;
    last_frame = some frame;
  }

  receive-one :
      (frame : PutChunkRequest) (xs : List (Os × PutChunkRequest)) (up : Upload) (b : Bytes)
      (s : DiskStore)
      → frame.chunk_id ≡ h.chunk_id
      → up.registered ≡ h.chunk_id
      → IsStaging l base up.writer h.chunk_id b s
      → receive l ((fine, frame) ∷ xs) eof fine up s
        ≡ receive l xs eof fine
            (continued frame up s)
            (append_frame l fine frame.data_bytes (up.writer, s)).0.1
  unfolding receive accept_frame
  receive-one frame xs up b s p q st =
      ground (arith, p, q, (append-fine l j h.chunk_id base up.writer b frame.data_bytes s st).0)

  -- The chunk is stored with these bytes, and the last request is answered for.
  abbrev pub Stored :
      Bytes → List String → DiskStore × Answer (PutChunkRequest × List String) → Type 0
  Stored b targets x =
      (last : PutChunkRequest) × (last.chunk_id ≡ h.chunk_id)
      × (last.checksum ≡ h.checksum)
      × (x ≡ (
        stored l h.chunk_id b (delete (temp_path l h.chunk_id) base.files) base,
        answered (last, targets),
      ))

  receive-end :
      (f : PutChunkRequest) (up : Upload) (b : Bytes) (s : DiskStore)
      → up.last_frame ≡ some f
      → f.is_last ≡ true
      → f.checksum ≡ l.sha256 b
      → IsStaging l base up.writer h.chunk_id b s
      → HasRoom l j h.chunk_id base b
      → receive l [] eof fine up s ≡ (
        stored l h.chunk_id b (delete (temp_path l h.chunk_id) base.files) base,
        answered (f, up.targets),
      )
  unfolding receive
  receive-end f up b s e last sum st room =
      let (ended, left) = finalize-fine l j h.chunk_id base up.writer b s st room in
      ground (arith, e, last, sum, ended, left)

  receive-last :
      (d : Bytes) (up : Upload) (b : Bytes) (s : DiskStore)
      → up.registered ≡ h.chunk_id
      → IsStaging l base up.writer h.chunk_id b s
      → HasRoom l j h.chunk_id base (b ++ d)
      → h.checksum ≡ l.sha256 (b ++ d)
      → Stored (b ++ d) up.targets (receive l ((fine, put_frame h d true) ∷ []) eof fine up s)
  receive-last d up b s q st room sum =
      let f = put_frame h d true in
      let x = append_frame l fine d (up.writer, s) in
      let st' = (append-fine l j h.chunk_id base up.writer b d s st).1 in
      (
        f,
        refl,
        refl,
        receive-one f [] up b s refl q st
            ∙ receive-end f (continued f up s) (b ++ d) x.0.1 refl refl sum st' room,
      )

  receive-frames :
      (bytes : Bytes) (n fuel i : ℕ) (up : Upload) (s : DiskStore)
      → 0 < n
      → i < length bytes
      → length bytes < i + fuel + 1
      → up.registered ≡ h.chunk_id
      → IsStaging l base up.writer h.chunk_id (take i bytes) s
      → HasRoom l j h.chunk_id base bytes
      → h.checksum ≡ l.sha256 bytes
      → Stored bytes up.targets (receive l (arriving (frames_from h bytes n fuel i)) eof fine up s)
  receive-frames bytes n zero i up s z p f q st room sum = absurd (omega arith)
  receive-frames bytes n (suc fuel) i up s z p f q st room sum =
      elim (Bool-cases (leb (length bytes) (i + n))) [
        | inl one ↦
            let whole = take-append-drop i bytes in
            let frames = frames_from-last h bytes n fuel i p (ground (arith, one)) in
            subst
              (λ b.
                Stored b up.targets
                  (receive l (arriving (frames_from h bytes n (suc fuel) i)) eof fine up s))
              whole
              (subst
                (λ rs.
                  Stored (take i bytes ++ drop i bytes) up.targets
                    (receive l (arriving rs) eof fine up s))
                (sym frames)
                (receive-last (drop i bytes) up (take i bytes) s q st
                  (subst (HasRoom l j h.chunk_id base) (sym whole) room)
                  (sum ∙ ap l.sha256 (sym whole))))
        | inr more ↦
            let inside : i + n < length bytes = ground (arith, more) in
            let frames = frames_from-more h bytes n fuel i inside in
            let frame = put_frame h (take n (drop i bytes)) false in
            let x = append_frame l fine frame.data_bytes (up.writer, s) in
            let st' =
              subst (λ b. IsStaging l base x.0.0 h.chunk_id b x.0.1) (sym (take-add i n bytes))
                (append-fine l j h.chunk_id base up.writer (take i bytes) frame.data_bytes s
                  st).1 in
            let rest =
              receive-frames bytes n fuel (i + n) (continued frame up s) x.0.1 z inside
                (omega arith) q st' room sum in
            let step =
              ap (λ rs. receive l (arriving rs) eof fine up s) frames
              ∙ receive-one frame (arriving (frames_from h bytes n fuel (i + n))) up (take i bytes)
                  s refl q st in
            subst (Stored bytes up.targets) (sym step) rest
      ]

  abbrev started : Upload
  started = record {
    writer = first_writer l j h.chunk_id base;
    registered = h.chunk_id;
    targets = addresses (map (λ a. some a) h.replicate_to);
    last_frame = none;
  }

  open-started :
      (d : Bytes) (is_last : Bool)
      → is_valid l h.chunk_id ≡ true
      → open_upload l fine (put_frame h d is_last) base
        ≡ (first_store l j h.chunk_id base, answered started)
  unfolding open_upload
  open-started d is_last v = ground (arith, first-opened l j h.chunk_id base v)

  stream-started :
      (f : PutChunkRequest) (fs : List PutChunkRequest) (d : Bytes) (is_last : Bool)
      → f ≡ put_frame h d is_last
      → is_valid l h.chunk_id ≡ true
      → store_stream l (arriving (f ∷ fs)) eof fine base
        ≡ receive l (arriving (f ∷ fs)) eof fine started (first_store l j h.chunk_id base)
  unfolding store_stream
  stream-started f fs d is_last e v = ground (arith, e, open-started d is_last v)

  stream-frames :
      (bytes : Bytes) (n fuel : ℕ)
      → 0 < length bytes
      → is_valid l h.chunk_id ≡ true
      → let rs = arriving (frames_from h bytes n (suc fuel) 0) in
        store_stream l rs eof fine base
        ≡ receive l rs eof fine started (first_store l j h.chunk_id base)
  stream-frames bytes n fuel p v = elim (Bool-cases (leb (length bytes) (0 + n))) [
    | inl one ↦
        let frames = frames_from-last h bytes n fuel 0 p (ground (arith, one)) in
        subst
          (λ rs.
            store_stream l (arriving rs) eof fine base
            ≡ receive l (arriving rs) eof fine started (first_store l j h.chunk_id base))
          (sym frames) (stream-started (put_frame h bytes true) [] bytes true refl v)
    | inr more ↦
        let frames = frames_from-more h bytes n fuel 0 (ground (arith, more)) in
        subst
          (λ rs.
            store_stream l (arriving rs) eof fine base
            ≡ receive l (arriving rs) eof fine started (first_store l j h.chunk_id base))
          (sym frames)
          (stream-started (put_frame h (take n bytes) false) (frames_from h bytes n fuel (0 + n))
            (take n bytes) false refl v)
  ]

  -- A node that has room for a chunk stores it from the client's requests, when nothing fails, the
  -- chunk ID is valid and the checksum is that of the bytes; an empty chunk too.
  pub put_frames-Stored :
      (bytes : Bytes) (n : ℕ)
      → 0 < n
      → is_valid l h.chunk_id ≡ true
      → HasRoom l j h.chunk_id base bytes
      → h.checksum ≡ l.sha256 bytes
      → Stored bytes started.targets
          (store_stream l (arriving (put_frames h bytes n)) eof fine base)
  unfolding put_frames
  put_frames-Stored [] n z v room sum =
      subst (Stored [] started.targets)
        (sym (stream-started (put_frame h [] true) [] [] true refl v))
        (receive-last [] started [] (first_store l j h.chunk_id base) refl
          (first-IsStaging l j h.chunk_id base v) room sum)
  put_frames-Stored (y ∷ ys) n z v room sum =
      subst (λ rs. Stored (y ∷ ys) started.targets (store_stream l (arriving rs) eof fine base))
        (sym (put_frames-cons h y ys n))
        (subst (Stored (y ∷ ys) started.targets)
          (sym (stream-frames (y ∷ ys) n (length ys) (omega arith) v))
          (receive-frames (y ∷ ys) n (suc (length ys)) 0 started (first_store l j h.chunk_id base) z
            (omega arith) (omega arith) refl (first-IsStaging l j h.chunk_id base v) room sum))
