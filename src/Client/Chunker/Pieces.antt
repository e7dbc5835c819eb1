-- ===== src/Client/Chunker/Pieces.antt =====
-- The pieces of a file make it up.
use mathlib.Core.Path.{subst}
use mathlib.Core.List.{append-nil}
use native.Mathlib.Nat.{suc-mul}
use distributed_fs.Common.{
  ℕ, zero, suc, ◌+◌, ◌-◌, ◌*◌, ◌≤◌, ◌<◌, List, [], ◌∷◌, ◌++◌, ◌≡◌, refl, sym, ap, ◌∙◌, arith, ltb,
  length, take, drop, take-append-drop, map, flatten, Bytes, All, if◌then◌else◌, Bool-cases, inl,
  inr,
}
use distributed_fs.Storage.Errors.{ok}
use distributed_fs.Client.Chunker.{
  ChunkDescriptor, Chunking, descriptors_from, generate_descriptors,
}

-- What math.Ceil gives where the floats are exact: the least number of chunks that hold the file.
pub record IsCeiling (k : Chunking) (total chunk_size : ℕ) : Type 0 where
  pub enough : total ≤ k.ceil_quotient total chunk_size * chunk_size
  pub least : k.ceil_quotient total chunk_size * chunk_size < total + chunk_size

-- The bytes of a descriptor.
abbrev pub piece : Bytes → ChunkDescriptor → Bytes
piece file d = take d.size (drop d.offset file)

drop-all : (n : ℕ) (xs : Bytes) → length xs ≤ n → drop n xs ≡ []
drop-all zero [] h = refl
drop-all zero (x ∷ xs) h = absurd (omega arith)
drop-all (suc n) [] h = refl
drop-all (suc n) (x ∷ xs) h = drop-all n xs (omega arith)

pub take-rest : (n : ℕ) (xs : Bytes) → length xs ≤ n → take n xs ≡ xs
take-rest zero [] h = refl
take-rest zero (x ∷ xs) h = absurd (omega arith)
take-rest (suc n) [] h = refl
take-rest (suc n) (x ∷ xs) h = ap (λ ys. x ∷ ys) (take-rest n xs (omega arith))

drop-nil : (n : ℕ) → drop {A = ℕ} n [] ≡ []
drop-nil zero = refl
drop-nil (suc n) = refl

pub drop-add : (m n : ℕ) (xs : Bytes) → drop n (drop m xs) ≡ drop (m + n) xs
drop-add zero n xs = ground arith
drop-add (suc m) n [] = ground (arith, drop-nil n, drop-nil (suc m + n))
drop-add (suc m) n (x ∷ xs) =
    let e : suc m + n ≡ suc (m + n) = omega arith in
    drop-add m n xs ∙ sym (ap (λ i. drop i (x ∷ xs)) e)

length-drop-le : (m n : ℕ) (xs : Bytes) → length xs ≤ m + n → length (drop m xs) ≤ n
length-drop-le zero n xs h = omega (arith, h)
length-drop-le (suc m) n [] h = omega arith
length-drop-le (suc m) n (x ∷ xs) h = length-drop-le m n xs (omega arith)

-- A piece that reaches the end, or not, and what follows it.
cut-piece :
    (file : Bytes) (offset chunk_size : ℕ)
    → offset < length file
    → take
          (if ltb (length file) (offset + chunk_size) then length file - offset else chunk_size)
          (drop offset file)
        ++ drop (offset + chunk_size) file
      ≡ drop offset file
cut-piece file offset chunk_size h = elim (Bool-cases (ltb (length file) (offset + chunk_size))) [
  | inl over ↦
      let whole =
        take-rest (length file - offset) (drop offset file)
          (length-drop-le offset (length file - offset) file (omega arith)) in
      let gone = drop-all (offset + chunk_size) file (ground (arith, over)) in
      ground (arith, over, whole, gone, append-nil (drop offset file))
  | inr within ↦ ground (
    arith,
    within,
    drop-add offset chunk_size file,
    take-append-drop chunk_size (drop offset file),
  )
]

module _ (k : Chunking) (file : Bytes) (chunk_size : ℕ) where
  -- The pieces from some chunk on.
  abbrev pieces : ℕ → ℕ → List ChunkDescriptor
  pieces left i = descriptors_from k (length file) chunk_size left i

  pieces-bytes :
      (left i : ℕ)
      → length file ≤ i * chunk_size + left * chunk_size
      → i * chunk_size + left * chunk_size < length file + chunk_size
      → flatten (map (piece file) (pieces left i)) ≡ drop (i * chunk_size) file
  unfolding descriptors_from
  pieces-bytes zero i p q = ground (arith, drop-all (i * chunk_size) file, p)
  pieces-bytes (suc left) i p q =
      let rest =
        pieces-bytes left (suc i) (omega (arith, p, suc-mul i chunk_size, suc-mul left chunk_size))
          (omega (arith, q, suc-mul i chunk_size, suc-mul left chunk_size)) in
      let this =
        cut-piece file (i * chunk_size) chunk_size (omega (arith, q, suc-mul left chunk_size)) in
      ground (arith, rest, this, suc-mul i chunk_size)

  pieces-sizes :
      (left i : ℕ)
      → 0 < chunk_size
      → i * chunk_size + left * chunk_size < length file + chunk_size
      → All (λ d. (0 < d.size) × (d.size ≤ chunk_size)) (pieces left i)
  unfolding descriptors_from
  pieces-sizes zero i z q = tt
  pieces-sizes (suc left) i z q =
      let rest =
        pieces-sizes left (suc i) z
          (omega (arith, q, suc-mul i chunk_size, suc-mul left chunk_size)) in
      (ground (arith, z, q, suc-mul left chunk_size), rest)

  -- Where the quotient is rounded up exactly, the pieces that `GenerateDescriptors` makes of a file
  -- are, in order, the bytes of the file, and each has at least one byte and at most the chunk size.
  pub generate_descriptors-pieces :
      (ds : List ChunkDescriptor)
      → 0 < chunk_size
      → IsCeiling k (length file) chunk_size
      → generate_descriptors k (ok (length file)) chunk_size ≡ ok ds
      → (flatten (map (piece file) ds) ≡ file) × All (λ d. (0 < d.size) × (d.size ≤ chunk_size)) ds
  unfolding generate_descriptors
  generate_descriptors-pieces ds z c e =
      let n = k.ceil_quotient (length file) chunk_size in
      let start : 0 * chunk_size ≡ 0 = omega arith in
      let same : pieces n 0 ≡ ds = ground (arith, e) in
      subst
        (λ x.
          (flatten (map (piece file) x) ≡ file) × All (λ d. (0 < d.size) × (d.size ≤ chunk_size)) x)
        same
        (
          pieces-bytes n 0 (ground (arith, c.enough)) (ground (arith, c.least))
              ∙ ap (λ i. drop i file) start,
          pieces-sizes n 0 z (ground (arith, c.least)),
        )
