-- ===== src/Client/StorageClient/Frames.antt =====
-- The requests for a chunk, turn by turn.
use distributed_fs.Common.{
  ℕ, zero, suc, ◌+◌, ◌-◌, ◌<◌, ◌≤◌, true, false, [], ◌∷◌, ◌++◌, ◌≡◌, refl, ap, ◌∙◌, Bytes, arith,
  length, take, drop,
}
use distributed_fs.Common.Positions.{length-drop_sub}
use distributed_fs.Client.Chunker.Pieces.{take-rest}
use distributed_fs.Client.StorageClient.{Header, put_frame, frames_from, put_frames}

take-none : (n : ℕ) → take {A = ℕ} n [] ≡ []
take-none zero = refl
take-none (suc n) = refl

pub take-add : (m n : ℕ) (xs : Bytes) → take (m + n) xs ≡ take m xs ++ take n (drop m xs)
take-add zero n xs = let e : 0 + n ≡ n = omega arith in ap (λ k. take k xs) e
take-add (suc m) n [] =
    let e : suc m + n ≡ suc (m + n) = omega arith in
    ground (arith, ap (λ k. take {A = ℕ} k []) e, take-none n)
take-add (suc m) n (x ∷ xs) =
    let e : suc m + n ≡ suc (m + n) = omega arith in
    ap (λ k. take k (x ∷ xs)) e ∙ ap (λ ys. x ∷ ys) (take-add m n xs)

module _ (h : Header) (bytes : Bytes) (n : ℕ) where
  frames_from-none : (fuel i : ℕ) → length bytes ≤ i → frames_from h bytes n fuel i ≡ []
  unfolding frames_from
  frames_from-none zero i p = refl
  frames_from-none (suc fuel) i p = ground (arith, p)

  pub frames_from-last :
      (fuel i : ℕ)
      → i < length bytes
      → length bytes ≤ i + n
      → frames_from h bytes n (suc fuel) i ≡ put_frame h (drop i bytes) true ∷ []
  unfolding frames_from
  frames_from-last fuel i p q =
      let whole =
        take-rest (length bytes - i) (drop i bytes) (omega (arith, length-drop_sub i bytes)) in
      ground (arith, p, q, whole, frames_from-none fuel (i + n) q)

  pub frames_from-more :
      (fuel i : ℕ)
      → i + n < length bytes
      → frames_from h bytes n (suc fuel) i
        ≡ put_frame h (take n (drop i bytes)) false ∷ frames_from h bytes n fuel (i + n)
  unfolding frames_from
  frames_from-more fuel i p = let size : i + n - i ≡ n = omega arith in ground (arith, p, size)

pub put_frames-cons :
    (h : Header) (y : ℕ) (ys : Bytes) (n : ℕ)
    → put_frames h (y ∷ ys) n ≡ frames_from h (y ∷ ys) n (suc (length ys)) 0
unfolding put_frames
put_frames-cons h y ys n = ground arith
