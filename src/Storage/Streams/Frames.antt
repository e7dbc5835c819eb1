-- ===== src/Storage/Streams/Frames.antt =====
-- The frames in which a chunk is sent.
use distributed_fs.Common.{
  ℕ, zero, suc, ◌+◌, ◌<◌, ◌≤◌, Bool, true, false, List, [], ◌∷◌, ◌++◌, ◌≡◌, ◌≢◌, refl, sym, ap, ◌∙◌,
  Option, none, some, Bytes, arith, length, leb, flatten, map, take, drop, take-append-drop,
  length-take, length-append, All, Bool-cases, inl, inr,
}
use distributed_fs.Storage.Disk.{Layout, Os, fine}
use mathlib.Core.Path.{subst}
use mathlib.Core.List.{append-nil}
use distributed_fs.Storage.Errors.{Result, ok, err}
use distributed_fs.Storage.Chunk.{ChunkReader, Frame, next}
use distributed_fs.Storage.Streams.{Ending, done, exhausted, send_frames}

module _ (l : Layout) where
  -- Exactly the last frame says so.
  abbrev pub EndsOnce : List Frame → Type 0
  EndsOnce [] = Unit
  EndsOnce (f ∷ []) = f.is_last ≡ true
  EndsOnce (f ∷ g ∷ fs) = (f.is_last ≡ false) × EndsOnce (g ∷ fs)

  abbrev pub IsFrame : ℕ → Frame → Type 0
  IsFrame size f =
      (0 < length f.data_bytes)
      × (length f.data_bytes ≤ size)
      × (f.checksum ≡ l.sha256 f.data_bytes)

  pub length-drop : (n : ℕ) (xs : Bytes) → n ≤ length xs → length (drop n xs) + n ≡ length xs
  length-drop n xs h =
      ground
        (arith, length-append (take n xs) (drop n xs), take-append-drop n xs, length-take n xs h)

  take-all : (n : ℕ) (xs : Bytes) → length xs ≤ n → take n xs ≡ xs
  take-all zero [] h = refl
  take-all zero (x ∷ xs) h = absurd (omega arith)
  take-all (suc n) [] h = refl
  take-all (suc n) (x ∷ xs) h = ap (λ ys. x ∷ ys) (take-all n xs (omega arith))

  take-take : (n : ℕ) (xs : Bytes) → take n (take (suc n) xs) ≡ take n xs
  take-take zero xs = refl
  take-take (suc n) [] = refl
  take-take (suc n) (x ∷ xs) = ap (λ ys. x ∷ ys) (take-take n xs)

  abbrev pub frame_of : Bytes → Bool → Frame
  frame_of d b = record { data_bytes = d; checksum = l.sha256 d; is_last = b }

  next-empty : (size : ℕ) → (next l fine (record { rest = []; frame_size = size })).1 ≡ ok none
  unfolding next
  next-empty size = ground arith

  pub next-last :
      (r : ChunkReader)
      → 0 < length r.rest
      → length r.rest ≤ r.frame_size
      → (next l fine r).1 ≡ ok (some (frame_of r.rest true))
  unfolding next
  next-last r p q = ground (
    arith,
    take-all (r.frame_size + 1) r.rest (omega arith),
    take-all (length r.rest) r.rest (omega arith),
  )

  pub next-more :
      (r : ChunkReader)
      → r.frame_size < length r.rest
      → next l fine r ≡ (
        record r { rest = drop r.frame_size r.rest },
        ok (some (frame_of (take r.frame_size r.rest) false)),
      )
  unfolding next
  next-more r p =
      ground
        (arith, length-take (suc r.frame_size) r.rest (omega arith), take-take r.frame_size r.rest)

  next-shrinks :
      (os : Os) (r : ChunkReader) (f : Frame)
      → 0 < r.frame_size
      → (next l os r).1 ≡ ok (some f)
      → f.is_last ≡ false
      → (length (next l os r).0.rest < length r.rest) × ((next l os r).0.frame_size ≡ r.frame_size)
  unfolding next
  next-shrinks os r f p e n =
      ground (arith, p, e, n, length-drop r.frame_size r.rest, take-all (r.frame_size + 1) r.rest)

  EndsOnce-cons :
      (f : Frame) (fs : List Frame)
      → f.is_last ≡ false
      → 0 < length (flatten (map (λ g. g.data_bytes) fs))
      → EndsOnce fs
      → EndsOnce (f ∷ fs)
  EndsOnce-cons f [] n p h = absurd (omega arith)
  EndsOnce-cons f (g ∷ fs) n p h = (n, h)

  -- Whatever fails, the loop that sends the frames ends when its fuel exceeds the bytes to be read.
  pub send_frames-ends :
      (io : ℕ → Os) (can_send : ℕ → Bool) (fuel i : ℕ) (r : ChunkReader)
      → 0 < r.frame_size
      → length r.rest < fuel
      → (send_frames l io can_send fuel i r).1 ≢ exhausted
  unfolding send_frames
  send_frames-ends io can_send zero i r p q = absurd (omega arith)
  send_frames-ends io can_send (suc fuel) i r p q =
      go (send_frames-ends io can_send fuel (suc i) (next l (io i) r).0) (next l (io i) r).1 refl
    where
      go :
          (0 < (next l (io i) r).0.frame_size
            → length (next l (io i) r).0.rest < fuel
            → (send_frames l io can_send fuel (suc i) (next l (io i) r).0).1 ≢ exhausted)
          → (x : Result (Option Frame)) → (next l (io i) r).1 ≡ x
          → (send_frames l io can_send (suc fuel) i r).1 ≢ exhausted
      go rest (err _) e = ground (arith, e)
      go rest (ok none) e = ground (arith, e)
      go rest (ok (some f)) e = elim (Bool-cases f.is_last) [
        | inl last ↦ ground (arith, e, last)
        | inr more ↦ ground (arith, e, more, rest, p, q, next-shrinks (io i) r f p e more)
      ]

  -- What the loop sends of some bytes in frames of a size.
  abbrev pub Framed : ℕ → Bytes → List Frame × Ending → Type 0
  Framed size bytes x =
      (x.1 ≡ done)
      × (flatten (map (λ f. f.data_bytes) x.0) ≡ bytes)
      × All (IsFrame size) x.0
      × EndsOnce x.0

  -- Frames that all can be read and sent are, in order, the bytes of the chunk; none is empty or
  -- longer than the frame size, each has the checksum of its data, and exactly the last says that it
  -- is the last.
  pub send_frames-Framed :
      (fuel i : ℕ) (r : ChunkReader)
      → 0 < r.frame_size
      → length r.rest < fuel
      → Framed r.frame_size r.rest (send_frames l (λ _. fine) (λ _. true) fuel i r)
  unfolding send_frames
  send_frames-Framed zero i r p q = absurd (omega arith)
  send_frames-Framed (suc fuel) i r p q = elim (Bool-cases (leb (length r.rest) 0)) [
    | inl none_left ↦
        let empty : r.rest ≡ [] = ground (arith, none_left) in
        subst (Framed r.frame_size r.rest) {x = ([], done)}
          {y = send_frames l (λ _. fine) (λ _. true) (suc fuel) i r}
          (ground (arith, next-empty r.frame_size, empty)) (refl, sym empty, tt, tt)
    | inr some_left ↦ elim (Bool-cases (leb (length r.rest) r.frame_size)) [
      | inl one ↦
          subst (Framed r.frame_size r.rest) {x = (frame_of r.rest true ∷ [], done)}
            {y = send_frames l (λ _. fine) (λ _. true) (suc fuel) i r}
            (ground (arith, next-last r, some_left, one))
            (
              refl,
              append-nil r.rest,
              ((ground (arith, some_left), ground (arith, one), refl), tt),
              refl,
            )
      | inr more ↦
          let size = r.frame_size in
          let r' : ChunkReader = record r { rest = drop size r.rest } in
          let shorter = length-drop size r.rest (ground (arith, more)) in
          let (ended, bytes, frames, once) =
            send_frames-Framed fuel (suc i) r' p (ground (arith, shorter, p, q)) in
          let x = send_frames l (λ _. fine) (λ _. true) fuel (suc i) r' in
          subst (Framed size r.rest) {x = (frame_of (take size r.rest) false ∷ x.0, x.1)}
            {y = send_frames l (λ _. fine) (λ _. true) (suc fuel) i r}
            (ground (arith, next-more r, more))
            (
              ended,
              ap (λ b. take size r.rest ++ b) bytes ∙ take-append-drop size r.rest,
              (
                (
                  ground (arith, length-take size r.rest, more, p),
                  ground (arith, length-take size r.rest, more),
                  refl,
                ),
                frames,
              ),
              EndsOnce-cons (frame_of (take size r.rest) false) x.0 refl
                  (ground (arith, bytes, shorter, more)) once,
            )
    ]
  ]
