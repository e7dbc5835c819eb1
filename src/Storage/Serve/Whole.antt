-- ===== src/Storage/Serve/Whole.antt =====
-- The whole stream of an upload, from its first frame.
use mathlib.Core.Path.{subst}
use distributed_fs.Common.{
  String, true, false, List, [], ◌∷◌, ◌≡◌, refl, none, arith, Bytes, ◌⊎◌, ◌==◌, Bool-cases,
  Option-cases, inl, inr, All,
}
use distributed_fs.Common.Registry.{insert}
use distributed_fs.Server.{internal}
use distributed_fs.Storage.Disk.{Layout, DiskStore, Os, is_valid, temp_path, temp_dir_for}
use distributed_fs.Storage.Disk.Paths.{IsJoin}
use distributed_fs.Storage.Disk.Steps.{IsCommitting}
use distributed_fs.Storage.Chunk.{ChunkWriter, new_chunk_writer}
use distributed_fs.Storage.Serve.{
  Answer, answered, refused, PutChunkRequest, StreamEnd, Upload, open_upload, addresses, receive,
  store_stream,
}
use distributed_fs.Storage.Serve.Uploads.{IsStaging, cleared}
use distributed_fs.Storage.Serve.Stored.{payload, CanRemove, Outcome, receive-Outcome}

module _ (l : Layout) (j : IsJoin l) where
  -- The first frame opens the writer, or leaves the store as it is.
  abbrev Opened : DiskStore → String → DiskStore × Answer Upload → Type 0
  Opened base c (s, refused _) = s ≡ base
  Opened base c (s, answered up) =
      IsStaging l base up.writer up.registered [] s × (up.registered ≡ c) × (up.last_frame ≡ none)

  open-Opened :
      (os : Os) (frame : PutChunkRequest) (base : DiskStore)
      → Opened base frame.chunk_id (open_upload l os frame base)
  unfolding open_upload new_chunk_writer temp_dir_for
  open-Opened os frame base = elim (Bool-cases (frame.chunk_id == "")) [
    | inl empty ↦ nothing (ground (arith, empty))
    | inr named ↦ elim (Bool-cases (is_valid l frame.chunk_id)) [
      | inr wrong ↦ nothing (ground (arith, named, wrong))
      | inl valid ↦ elim (Option-cases os.create) [
        | inr (e, failed) ↦ nothing (ground (arith, named, valid, failed))
        | inl created ↦
            let w : ChunkWriter = record {
              filepath = temp_path l frame.chunk_id;
              chunk_id = frame.chunk_id;
              is_done = false;
              hashed = [];
            } in
            let up : Upload = record {
              writer = w;
              registered = frame.chunk_id;
              targets = addresses frame.replicate_to;
              last_frame = none;
            } in
            let s : DiskStore = record base {
              files = insert (temp_path l frame.chunk_id) [] base.files;
            } in
            subst (λ x. Opened base frame.chunk_id x) {x = (s, answered up)}
              {y = open_upload l os frame base} (ground (arith, named, valid, created))
              (
                record {
                  path = refl;
                  id = refl;
                  going = refl;
                  hashed = refl;
                  valid = valid;
                  files = refl;
                },
                refl,
                refl,
              )
      ]
    ]
  ]
    where
      nothing :
          (base, refused internal) ≡ open_upload l os frame base
          → Opened base frame.chunk_id (open_upload l os frame base)
      nothing e = subst (λ x. Opened base frame.chunk_id x) {x = (base, refused internal)} e refl

  -- The whole stream: without a valid chunk ID nothing was written.
  abbrev pub Streamed :
      DiskStore → String → Bytes → DiskStore × Answer (PutChunkRequest × List String) → Type 0
  Streamed base c b (s, refused _) = (s ≡ base) ⊎ ((is_valid l c ≡ true) × (s ≡ cleared l c base))
  Streamed base c b (s, answered p) = Outcome l j base c b (s, answered p)

  Outcome-Streamed :
      (base : DiskStore) (c : String) (b : Bytes)
      (x : DiskStore × Answer (PutChunkRequest × List String))
      → Outcome l j base c b x
      → Streamed base c b x
  Outcome-Streamed base c b (s, refused _) h = inr h
  Outcome-Streamed base c b (s, answered p) h = h

  pub stream-Streamed :
      (o : Os) (frame : PutChunkRequest) (fs : List (Os × PutChunkRequest)) (end : StreamEnd)
      (os : Os) (base : DiskStore)
      → All CanRemove ((o, frame) ∷ fs)
      → os.remove ≡ none
      → IsCommitting os
      → Streamed base frame.chunk_id
          (payload ((o, frame) ∷ fs))
          (store_stream l ((o, frame) ∷ fs) end os base)
  unfolding store_stream
  stream-Streamed o frame fs end os base a r f =
      go (open_upload l o frame base) (open-Opened o frame base)
    where
      go :
          (x : DiskStore × Answer Upload)
          → Opened base frame.chunk_id x
          → Streamed base frame.chunk_id (payload ((o, frame) ∷ fs)) (
              let (s', y) = x in
              elim y [
                | refused c ↦ (s', refused c)
                | answered up ↦ receive l ((o, frame) ∷ fs) end os up s'
              ])
      go (t, refused c) g = inl g
      go (t, answered up) (h, same, new) =
          subst
            (λ c.
              Streamed base c (payload ((o, frame) ∷ fs)) (receive l ((o, frame) ∷ fs) end os up t))
            same
            (Outcome-Streamed base up.registered (payload ((o, frame) ∷ fs))
              (receive l ((o, frame) ∷ fs) end os up t)
              (receive-Outcome l j ((o, frame) ∷ fs) end os up base [] t a r f h
                (λ p e. ground (arith, e, new))))
