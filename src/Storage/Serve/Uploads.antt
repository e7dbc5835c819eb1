-- ===== src/Storage/Serve/Uploads.antt =====
-- An upload keeps a temporary file beside a store that is otherwise as it was.
use mathlib.Core.Path.{subst}
use distributed_fs.Common.{
  ◌-◌, ltb, length, String, true, false, ◌++◌, ◌≡◌, refl, ap, Option, none, some, arith, Bytes,
  bytes_equal, bytes_equal_iff, ◌==◌, Bool-cases, Option-cases, inl, inr,
}
use distributed_fs.Common.Registry.{
  lookup, insert, delete, lookup-insert, insert-insert, delete-insert,
}
use distributed_fs.Server.{invalid_argument, internal}
use distributed_fs.Storage.Errors.{StoreError, checksum_mismatch}
use distributed_fs.Storage.Disk.{
  Layout, DiskStore, Os, is_valid, chunk_path, temp_path, exists, old_size, unused, rename,
}
use distributed_fs.Storage.Disk.Paths.{IsJoin, temp_path-ne-chunk_path}
use distributed_fs.Storage.Disk.Steps.{IsCommitting, stored, rename-failed, rename-stored}
use distributed_fs.Storage.Chunk.{ChunkWriter, append_frame, abort, finalize, computed_checksum}
use distributed_fs.Storage.Serve.{Answer, answered, refused, PutChunkRequest, Upload, accept_frame}

module _ (l : Layout) where
  -- The store without the temporary file of a chunk.
  abbrev pub cleared : String → DiskStore → DiskStore
  cleared c s = record s { files = delete (temp_path l c) s.files }

  -- The writer of an upload has written `b`, and else the store is `base`.
  pub record IsStaging (base : DiskStore) (w : ChunkWriter) (c : String) (b : Bytes) (s : DiskStore)
      : Type 0 where
    pub path : w.filepath ≡ temp_path l c
    pub id : w.chunk_id ≡ c
    pub going : w.is_done ≡ false
    pub hashed : w.hashed ≡ b
    pub valid : is_valid l c ≡ true
    pub files : s ≡ record base { files = insert (temp_path l c) b base.files }

  pub abort-IsStaging :
      (os : Os) (base : DiskStore) (w : ChunkWriter) (c : String) (b : Bytes) (s : DiskStore)
      → os.remove ≡ none
      → IsStaging base w c b s
      → (abort l os (w, s)).1 ≡ cleared c base
  unfolding abort
  abort-IsStaging os base w c b s r h =
      ground (arith, r, h.path, h.files, delete-insert (temp_path l c) b base.files)

  -- What is left of an upload, and the writer if it goes on.
  abbrev pub Appended :
      DiskStore → String → Bytes → (ChunkWriter × DiskStore) × Option StoreError → Type 0
  Appended base c b ((w, s), none) = IsStaging base w c b s
  Appended base c b ((w, s), some e) = (w.filepath ≡ temp_path l c) × (cleared c s ≡ cleared c base)

  pub append-IsStaging :
      (os : Os) (d : Bytes) (base : DiskStore) (w : ChunkWriter) (c : String) (b : Bytes)
      (s : DiskStore)
      → IsStaging base w c b s
      → Appended base c (b ++ d) (append_frame l os d (w, s))
  unfolding append_frame
  append-IsStaging os d base w c b s h =
      let file : lookup w.filepath s.files ≡ some b =
        ground
          (arith, h.path, h.files, lookup-insert (temp_path l c) b base.files (temp_path l c)) in
      let wrote : (x : Bytes)
          → record s { files = insert w.filepath x s.files }
            ≡ record base { files = insert (temp_path l c) x base.files } =
        λ x. ground (arith, h.path, h.files, insert-insert (temp_path l c) x b base.files) in
      let after : ChunkWriter × DiskStore = (
        record w { hashed = w.hashed ++ d },
        record s { files = insert w.filepath (b ++ d) s.files },
      ) in
      elim (Option-cases os.write_file) [
        | inr ((e, left), failed) ↦
            subst (λ r. Appended base c (b ++ d) r)
              {x = ((w, record s { files = insert w.filepath left s.files }), some e)}
              (ground (arith, failed, h.going))
              (h.path, ground (arith, wrote left, delete-insert (temp_path l c) left base.files))
        | inl written ↦ elim (Option-cases os.sync) [
          | inl fine ↦
              subst (λ r. Appended base c (b ++ d) r) {x = (after, none)}
                (ground (arith, written, fine, h.going, file))
                (record {
                  path = h.path;
                  id = h.id;
                  going = h.going;
                  hashed = ap (λ x. x ++ d) h.hashed;
                  valid = h.valid;
                  files = wrote (b ++ d);
                })
          | inr (e, failed) ↦
              subst (λ r. Appended base c (b ++ d) r) {x = (after, some e)}
                (ground (arith, written, failed, h.going, file))
                (
                  h.path,
                  ground (arith, wrote (b ++ d), delete-insert (temp_path l c) (b ++ d) base.files),
                )
        ]
      ]

  -- What a frame leaves of an upload.
  abbrev pub Accepted :
      DiskStore → String → Bytes → PutChunkRequest → DiskStore × Answer Upload → Type 0
  Accepted base c b frame (s, refused _) = s ≡ cleared c base
  Accepted base c b frame (s, answered up) =
      IsStaging base up.writer c (b ++ frame.data_bytes) s
      × (up.registered ≡ c)
      × (frame.chunk_id ≡ c)
      × (up.last_frame ≡ some frame)

  pub accept-Accepted :
      (os : Os) (frame : PutChunkRequest) (up : Upload) (base : DiskStore) (b : Bytes)
      (s : DiskStore)
      → os.remove ≡ none
      → IsStaging base up.writer up.registered b s
      → Accepted base up.registered b frame (accept_frame l os frame up s)
  unfolding accept_frame abort
  accept-Accepted os frame up base b s r h = elim (Bool-cases (up.registered == frame.chunk_id)) [
    | inr other ↦
        subst (λ x. Accepted base up.registered b frame x)
          {x = ((abort l os (up.writer, s)).1, refused invalid_argument)} (ground (arith, other))
          (abort-IsStaging os base up.writer up.registered b s r h)
    | inl here ↦
        go here (append_frame l os frame.data_bytes (up.writer, s)) refl
          (append-IsStaging os frame.data_bytes base up.writer up.registered b s h)
  ]
    where
      go :
          (up.registered == frame.chunk_id) ≡ true
          → (x : (ChunkWriter × DiskStore) × Option StoreError)
          → append_frame l os frame.data_bytes (up.writer, s) ≡ x
          → Appended base up.registered (b ++ frame.data_bytes) x
          → Accepted base up.registered b frame (accept_frame l os frame up s)
      go here ((w, t), none) e a =
          subst (λ x. Accepted base up.registered b frame x)
            {x = (t, answered (record up { writer = w; last_frame = some frame }))}
            (ground (arith, here, e)) (a, refl, ground (arith, here), refl)
      go here ((w, t), some _) e a =
          subst (λ x. Accepted base up.registered b frame x)
            {x = ((abort l os (w, t)).1, refused internal)} (ground (arith, here, e))
            (ground (arith, r, a.0, a.1))

  -- What is left at the end of an upload: a chunk that is stored, or the store as it was.
  abbrev pub Finalized :
      DiskStore → String → Bytes → Bytes → (ChunkWriter × DiskStore) × Option StoreError → Type 0
  Finalized base c b sum ((_, s), some _) = s ≡ cleared c base
  Finalized base c b sum ((_, s), none) =
      (l.sha256 b ≡ sum)
      × (ltb (unused l base) (length b - old_size l none c base) ≡ false)
      × (s ≡ stored l c b (delete (temp_path l c) base.files) base)

module _ (l : Layout) (j : IsJoin l) where
  -- What the store counts of a chunk hangs on no temporary file.
  pub old_size-IsStaging :
      (base : DiskStore) (w : ChunkWriter) (c : String) (b : Bytes) (s : DiskStore)
      → IsStaging l base w c b s
      → old_size l none c s ≡ old_size l none c base
  unfolding exists
  old_size-IsStaging base w c b s h = ground (
    arith,
    h.files,
    h.valid,
    lookup-insert (temp_path l c) b base.files (chunk_path l c),
    temp_path-ne-chunk_path l j c c h.valid,
  )

  pub stored-IsStaging :
      (base : DiskStore) (w : ChunkWriter) (c : String) (b : Bytes) (s : DiskStore)
      → IsStaging l base w c b s
      → stored l c b (delete (temp_path l c) s.files) s
        ≡ stored l c b (delete (temp_path l c) base.files) base
  stored-IsStaging base w c b s h = ground (
    arith,
    h.files,
    old_size-IsStaging base w c b s h,
    delete-insert (temp_path l c) b base.files,
  )

  pub finalize-Finalized :
      (os : Os) (sum : Bytes) (base : DiskStore) (w : ChunkWriter) (c : String) (b : Bytes)
      (s : DiskStore)
      → os.remove ≡ none
      → IsCommitting os
      → IsStaging l base w c b s
      → Finalized l base c b sum (finalize l os sum (w, s))
  unfolding finalize computed_checksum abort
  finalize-Finalized os sum base w c b s r f h =
      elim (Bool-cases (bytes_equal (l.sha256 w.hashed) sum)) [
        | inr other ↦
            subst (λ x. Finalized l base c b sum x)
              {x = (abort l os (w, s), some checksum_mismatch)} {y = finalize l os sum (w, s)}
              (ground (arith, other, h.going)) (abort-IsStaging l os base w c b s r h)
        | inl same ↦ go same (rename l os (temp_path l c) c s) refl
      ]
    where
      file : lookup (temp_path l c) s.files ≡ some b
      file = ground (arith, h.files, lookup-insert (temp_path l c) b base.files (temp_path l c))

      go :
          bytes_equal (l.sha256 w.hashed) sum ≡ true
          → (x : DiskStore × Option StoreError) → rename l os (temp_path l c) c s ≡ x
          → Finalized l base c b sum (finalize l os sum (w, s))
      go same (t, none) e =
          let done = rename-stored l os (temp_path l c) c b s f file (ground (arith, e)) in
          subst (λ x. Finalized l base c b sum x) {x = ((record w { is_done = true }, t), none)}
            {y = finalize l os sum (w, s)} (ground (arith, same, h.going, h.path, h.id, e))
            (
              ground (arith, (bytes_equal_iff (l.sha256 w.hashed) sum).0 same, h.hashed),
              ground (arith, done.1, h.files, old_size-IsStaging base w c b s h),
              ground (arith, e, done.2, stored-IsStaging base w c b s h),
            )
      go same (t, some x) e =
          let kept = rename-failed l os (temp_path l c) c s x f (ground (arith, e)) in
          subst (λ x. Finalized l base c b sum x)
            {x = (abort l os (record w { is_done = true }, t), some x)}
            {y = finalize l os sum (w, s)} (ground (arith, same, h.going, h.path, h.id, e))
            (ground
              (arith, r, h.path, h.files, kept, e, delete-insert (temp_path l c) b base.files))
