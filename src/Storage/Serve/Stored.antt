-- ===== src/Storage/Serve/Stored.antt =====
-- What a stream of frames leaves in the store.
use mathlib.Core.Path.{subst}
use mathlib.Core.List.{append_assoc, append-nil}
use distributed_fs.Common.{
  ◌-◌, ltb, length, String, true, false, List, [], ◌∷◌, ◌++◌, ◌≡◌, refl, sym, Option, none, some,
  arith, Bytes, Bool-cases, Option-cases, inl, inr, All,
}
use distributed_fs.Common.Registry.{delete}
use distributed_fs.Server.{invalid_argument, internal}
use distributed_fs.Storage.Errors.{StoreError}
use distributed_fs.Storage.Disk.{Layout, DiskStore, Os, is_valid, temp_path, old_size, unused}
use distributed_fs.Storage.Disk.Paths.{IsJoin}
use distributed_fs.Storage.Disk.Steps.{IsCommitting, stored}
use distributed_fs.Storage.Chunk.{ChunkWriter, abort, finalize}
use distributed_fs.Storage.Serve.{
  Answer, answered, refused, PutChunkRequest, StreamEnd, eof, broken, Upload, accept_frame, receive,
}
use distributed_fs.Storage.Serve.Uploads.{
  IsStaging, cleared, abort-IsStaging, Accepted, accept-Accepted, Finalized, finalize-Finalized,
}

-- The bytes of the frames, in order.
abbrev pub payload : List (Os × PutChunkRequest) → Bytes
payload [] = []
payload ((_, frame) ∷ fs) = frame.data_bytes ++ payload fs

-- Temporary files can be removed.
abbrev pub CanRemove : Os × PutChunkRequest → Type 0
CanRemove x = x.0.remove ≡ none

module _ (l : Layout) (j : IsJoin l) where
  -- A chunk with the bytes `b` is stored, or the store is as it was.
  abbrev pub Outcome :
      DiskStore → String → Bytes → DiskStore × Answer (PutChunkRequest × List String) → Type 0
  Outcome base c b (s, refused _) = (is_valid l c ≡ true) × (s ≡ cleared l c base)
  Outcome base c b (s, answered (last, _)) =
      (is_valid l c ≡ true)
      × (last.chunk_id ≡ c)
      × (l.sha256 b ≡ last.checksum)
      × (ltb (unused l base) (length b - old_size l none c base) ≡ false)
      × (s ≡ stored l c b (delete (temp_path l c) base.files) base)

  end-Outcome :
      (os : Os) (up : Upload) (base : DiskStore) (b : Bytes) (s : DiskStore)
      → os.remove ≡ none
      → IsCommitting os
      → IsStaging l base up.writer up.registered b s
      → ((p : PutChunkRequest) → up.last_frame ≡ some p → p.chunk_id ≡ up.registered)
      → Outcome base up.registered b (receive l [] eof os up s)
  unfolding receive
  end-Outcome os up base b s r f h ids = elim (Option-cases up.last_frame) [
    | inl never ↦
        subst (λ x. Outcome base up.registered b x)
          {x = ((abort l os (up.writer, s)).1, refused invalid_argument)}
          {y = receive l [] eof os up s} (ground (arith, never))
          (h.valid, abort-IsStaging l os base up.writer up.registered b s r h)
    | inr (last, some_last) ↦ elim (Bool-cases last.is_last) [
      | inr unfinished ↦
          subst (λ x. Outcome base up.registered b x)
            {x = ((abort l os (up.writer, s)).1, refused invalid_argument)}
            {y = receive l [] eof os up s} (ground (arith, some_last, unfinished))
            (h.valid, abort-IsStaging l os base up.writer up.registered b s r h)
      | inl finished ↦
          go last some_last finished (finalize l os last.checksum (up.writer, s)) refl
            (finalize-Finalized l j os last.checksum base up.writer up.registered b s r f h)
    ]
  ]
    where
      go :
          (last : PutChunkRequest)
          → up.last_frame ≡ some last
          → last.is_last ≡ true
          → (x : (ChunkWriter × DiskStore) × Option StoreError)
          → finalize l os last.checksum (up.writer, s) ≡ x
          → Finalized l base up.registered b last.checksum x
          → Outcome base up.registered b (receive l [] eof os up s)
      go last p q ((w, t), none) e g =
          subst (λ x. Outcome base up.registered b x) {x = (t, answered (last, up.targets))}
            {y = receive l [] eof os up s} (ground (arith, p, q, e))
            (h.valid, ids last p, g.0, g.1, g.2)
      go last p q ((w, t), some _) e g =
          subst (λ x. Outcome base up.registered b x) {x = (t, refused internal)}
            {y = receive l [] eof os up s} (ground (arith, p, q, e)) (h.valid, g)

  pub receive-Outcome :
      (fs : List (Os × PutChunkRequest)) (end : StreamEnd) (os : Os) (up : Upload)
      (base : DiskStore) (b : Bytes) (s : DiskStore)
      → All CanRemove fs
      → os.remove ≡ none
      → IsCommitting os
      → IsStaging l base up.writer up.registered b s
      → ((p : PutChunkRequest) → up.last_frame ≡ some p → p.chunk_id ≡ up.registered)
      → Outcome base up.registered (b ++ payload fs) (receive l fs end os up s)
  unfolding receive
  receive-Outcome [] eof os up base b s a r f h ids =
      subst (λ x. Outcome base up.registered x (receive l [] eof os up s)) (sym (append-nil b))
        (end-Outcome os up base b s r f h ids)
  receive-Outcome [] broken os up base b s a r f h ids =
      (h.valid, abort-IsStaging l os base up.writer up.registered b s r h)
  receive-Outcome ((o, frame) ∷ fs) end os up base b s a r f h ids =
      go (accept_frame l o frame up s) (accept-Accepted l o frame up base b s a.0 h)
        (λ t up' h' ids'.
          receive-Outcome fs end os up' base (b ++ frame.data_bytes) t a.1 r f h' ids')
    where
      go :
          (x : DiskStore × Answer Upload)
          → Accepted l base up.registered b frame x
          → ((t : DiskStore) (up' : Upload)
              → IsStaging l base up'.writer up'.registered (b ++ frame.data_bytes) t
              → ((p : PutChunkRequest) → up'.last_frame ≡ some p → p.chunk_id ≡ up'.registered)
              → Outcome base up'.registered
                  ((b ++ frame.data_bytes) ++ payload fs)
                  (receive l fs end os up' t))
          → Outcome base up.registered (b ++ (frame.data_bytes ++ payload fs)) (
              let (s', y) = x in
              elim y [ refused c ↦ (s', refused c) | answered up' ↦ receive l fs end os up' s' ])
      go (t, refused c) g rest = (h.valid, g)
      go (t, answered up') (h', same, id, last) rest =
          subst (λ y. Outcome base up.registered y (receive l fs end os up' t))
            (append_assoc b frame.data_bytes (payload fs))
            (subst
              (λ c.
                Outcome base c ((b ++ frame.data_bytes) ++ payload fs) (receive l fs end os up' t))
              same
              (rest t up'
                (subst (λ c. IsStaging l base up'.writer c (b ++ frame.data_bytes) t) (sym same) h')
                (λ p e. ground (arith, e, last, id, same))))
