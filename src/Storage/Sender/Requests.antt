-- ===== src/Storage/Sender/Requests.antt =====
-- The requests for a chunk, and what a peer makes of them.
use mathlib.Core.Path.{subst}
use mathlib.Core.List.{append_assoc}
use distributed_fs.Common.{
  ℕ, zero, suc, ◌<◌, ◌≤◌, String, Bool, true, false, List, [], ◌∷◌, ◌++◌, ◌≡◌, refl, sym, ◌∙◌, ap,
  none, some, Bytes, arith, length, leb, map, take, drop, take-append-drop, length-take, Bool-cases,
  inl, inr,
}
use distributed_fs.Common.Registry.{delete}
use distributed_fs.Storage.Disk.{Layout, DiskStore, fine, is_valid, temp_path}
use distributed_fs.Storage.Disk.Paths.{IsJoin}
use distributed_fs.Storage.Disk.Steps.{stored}
use distributed_fs.Storage.Chunk.{ChunkWriter, ChunkReader, append_frame}
use distributed_fs.Storage.Serve.{Answer, answered, eof}
use distributed_fs.Storage.Serve.Uploads.{IsStaging}
use distributed_fs.Storage.Streams.Frames.{next-last, next-more, length-drop}
use distributed_fs.Storage.Peer.{ReplicateChunkRequest, Finish, final_response, replicate_chunk}
use distributed_fs.Storage.Sender.{Sending, send_requests, sent_all}
use distributed_fs.Storage.Sender.Copies.{
  arriving, HasRoom, request, append-fine, receive-more, receive-last, receive-first,
  first-IsStaging, first_writer, first_store,
}

module _ (k l : Layout) (j : IsJoin l) (c : String) (base : DiskStore) where
  -- The requests of the node with the layout `k`, when nothing fails.
  abbrev pub sending : ℕ → ℕ → Bool → ChunkReader → List ReplicateChunkRequest × Sending
  sending fuel i is_first r = send_requests k c (λ _. fine) (λ _. true) fuel i is_first r

  -- What the peer has and answers in the end.
  abbrev pub arrived : Bytes → DiskStore × Answer Finish
  arrived b = (
    stored l c b (delete (temp_path l c) base.files) base,
    answered (final_response c (l.sha256 b)),
  )

  send-one :
      (fuel i : ℕ) (is_first : Bool) (r : ChunkReader)
      → 0 < length r.rest
      → length r.rest ≤ r.frame_size
      → sending (suc fuel) i is_first r ≡ (request l j c base r.rest is_first true ∷ [], sent_all)
  unfolding send_requests
  send-one fuel i is_first r p q = ground (arith, next-last k r p q)

  send-more :
      (fuel i : ℕ) (is_first : Bool) (r : ChunkReader)
      → r.frame_size < length r.rest
      → let x = sending fuel (suc i) false (record r { rest = drop r.frame_size r.rest }) in
        sending (suc fuel) i is_first r
        ≡ (request l j c base (take r.frame_size r.rest) is_first false ∷ x.0, x.1)
  unfolding send_requests
  send-more fuel i is_first r q = ground (arith, next-more k r q)

  -- The frames after the first, to a peer that has written `b`.
  send-arrived :
      (fuel i : ℕ) (r : ChunkReader) (w : ChunkWriter) (b : Bytes) (s : DiskStore)
      → IsStaging l base w c b s
      → 0 < r.frame_size
      → 0 < length r.rest
      → length r.rest < fuel
      → HasRoom l j c base (b ++ r.rest)
      → ((sending fuel i false r).1 ≡ sent_all)
        × (replicate_chunk l (map arriving (sending fuel i false r).0) eof fine (some (w, c)) s
            ≡ arrived (b ++ r.rest))
  send-arrived zero i r w b s h z p q room = absurd (omega arith)
  send-arrived (suc fuel) i r w b s h z p q room =
      elim (Bool-cases (leb (length r.rest) r.frame_size)) [
        | inl one ↦
            let e = send-one fuel i false r p (ground (arith, one)) in
            subst
              (λ x.
                (x.1 ≡ sent_all)
                × (replicate_chunk l (map arriving x.0) eof fine (some (w, c)) s
                    ≡ arrived (b ++ r.rest)))
              (sym e) (refl, receive-last l j c base r.rest [] w b s p h room)
        | inr more ↦
            let n = r.frame_size in
            let d = take n r.rest in
            let r' : ChunkReader = record r { rest = drop n r.rest } in
            let e = send-more fuel i false r (ground (arith, more)) in
            let shorter = length-drop k n r.rest (ground (arith, more)) in
            let full : length d ≡ n = length-take n r.rest (ground (arith, more)) in
            let nonempty : 0 < length d = ground (arith, full, z) in
            let whole : (b ++ d) ++ r'.rest ≡ b ++ r.rest =
              append_assoc b d r'.rest ∙ ap (λ x. b ++ x) (take-append-drop n r.rest) in
            let x = append_frame l fine d (w, s) in
            let rest =
              send-arrived fuel (suc i) r' x.0.0 (b ++ d) x.0.1 (append-fine l j c base w b d s h).1
                z (ground (arith, shorter, more)) (ground (arith, shorter, z, q))
                (subst (HasRoom l j c base) (sym whole) room) in
            subst
              (λ x.
                (x.1 ≡ sent_all)
                × (replicate_chunk l (map arriving x.0) eof fine (some (w, c)) s
                    ≡ arrived (b ++ r.rest)))
              (sym e)
              (
                rest.0,
                receive-more l j c base d (map arriving (sending fuel (suc i) false r').0) w b s
                      nonempty h
                    ∙ rest.1
                    ∙ ap arrived whole,
              )
      ]

  -- All the requests, the first included.
  pub all-arrived :
      (fuel i : ℕ) (r : ChunkReader)
      → is_valid l c ≡ true
      → 0 < r.frame_size
      → 0 < length r.rest
      → length r.rest < fuel
      → HasRoom l j c base r.rest
      → ((sending fuel i true r).1 ≡ sent_all)
        × (replicate_chunk l (map arriving (sending fuel i true r).0) eof fine none base
            ≡ arrived r.rest)
  all-arrived zero i r v z p q room = absurd (omega arith)
  all-arrived (suc fuel) i r v z p q room =
      let rest =
        send-arrived (suc fuel) i r (first_writer l j c base) [] (first_store l j c base)
          (first-IsStaging l j c base v) z p q room in
      elim (Bool-cases (leb (length r.rest) r.frame_size)) [
        | inl one ↦
            let o : length r.rest ≤ r.frame_size = ground (arith, one) in
            ground (
              arith,
              rest,
              send-one fuel i true r p o,
              send-one fuel i false r p o,
              receive-first l j c base r.rest true [] v,
            )
        | inr more ↦
            let m : r.frame_size < length r.rest = ground (arith, more) in
            let xs =
              (sending fuel (suc i) false (record r { rest = drop r.frame_size r.rest })).0 in
            ground (
              arith,
              rest,
              send-more fuel i true r m,
              send-more fuel i false r m,
              receive-first l j c base (take r.frame_size r.rest) false (map arriving xs) v,
            )
      ]
