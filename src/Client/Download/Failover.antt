-- ===== src/Client/Download/Failover.antt =====
-- Which replica a chunk is taken from.
use distributed_fs.Common.{
  ℕ, suc, ◌*◌, String, true, List, [], ◌∷◌, ◌≡◌, ◌≢◌, ◌⊎◌, refl, sym, Option, none, some, Bytes,
  arith, Bool-cases, inl, inr, if◌then◌else◌,
}
use mathlib.Core.Path.{subst}
use distributed_fs.Common.Positions.{write_at}
use distributed_fs.Client.Errors.{
  ClientError, Reply, done, failed, all_replicas_failed, with_cause, checksum_mismatch,
}
use distributed_fs.Client.Download.{
  ChunkInfo, Transfer, Turn, returns_error, takes, goes_on, is_accepted, try_replica, fetch_from,
  download_chunk_with_failover,
}

module _ (sha256 : Bytes → Bytes) (c : ChunkInfo) (t : Transfer) where
  -- The bytes of an answer, if they are accepted.
  abbrev pub usable : Reply Bytes → Option Bytes
  usable (failed e) = none
  usable (done b) = if is_accepted sha256 c b then some b else none

  -- The first such bytes of the replicas from place `n` on.
  abbrev pub first_usable : ℕ → List String → Option Bytes
  first_usable n [] = none
  first_usable n (a ∷ rest) = elim (usable (t.fetch n a).got) [
    | some b ↦ some b
    | none ↦ first_usable (suc n) rest
  ]

  try_replica-takes :
      (n : ℕ) (a : String) (b : Bytes)
      → try_replica sha256 c (t.fetch n a) ≡ takes b
      → is_accepted sha256 c b ≡ true
  unfolding try_replica
  try_replica-takes n a b h = go (t.fetch n a).got refl
    where
      go : (r : Reply Bytes) → (t.fetch n a).got ≡ r → is_accepted sha256 c b ≡ true
      go (failed e) g = ground (arith, h, g)
      go (done d) g = ground (arith, h, g)

  -- The bytes that the loop takes are accepted.
  pub fetch_from-accepted :
      (n : ℕ) (last : Option ClientError) (replicas : List String) (b : Bytes)
      → fetch_from sha256 c t.fetch n last replicas ≡ done b
      → is_accepted sha256 c b ≡ true
  unfolding fetch_from
  fetch_from-accepted n last [] b h = cc
  fetch_from-accepted n last (a ∷ rest) b h =
      go (try_replica sha256 c (t.fetch n a)) refl
        (λ e. fetch_from-accepted (suc n) (some e) rest b)
    where
      go :
          (turn : Turn)
          → try_replica sha256 c (t.fetch n a) ≡ turn
          → ((e : ClientError)
              → fetch_from sha256 c t.fetch (suc n) (some e) rest ≡ done b
              → is_accepted sha256 c b ≡ true)
          → is_accepted sha256 c b ≡ true
      go (returns_error e) p ih = ground (arith, p, h)
      go (takes d) p ih = try_replica-takes n a b (ground (arith, p, h))
      go (goes_on e) p ih = ih e (ground (arith, p, h))

  -- The loop gives the first usable bytes, or an error.
  abbrev Gives : Option Bytes → Reply Bytes → Type 0
  Gives (some b) r = r ≡ done b
  Gives none r = (e : ClientError) × (r ≡ failed e)

  try_replica-usable :
      (n : ℕ) (a : String)
      → (t.fetch n a).cancelled ≡ none
      → ((b : Bytes) × (usable (t.fetch n a).got ≡ some b)
          × (try_replica sha256 c (t.fetch n a) ≡ takes b))
        ⊎ ((e : ClientError) × (usable (t.fetch n a).got ≡ none)
            × (try_replica sha256 c (t.fetch n a) ≡ goes_on e))
  unfolding try_replica
  try_replica-usable n a q = go (t.fetch n a).got refl
    where
      go :
          (r : Reply Bytes)
          → (t.fetch n a).got ≡ r
          → ((b : Bytes) × (usable (t.fetch n a).got ≡ some b)
              × (try_replica sha256 c (t.fetch n a) ≡ takes b))
            ⊎ ((e : ClientError) × (usable (t.fetch n a).got ≡ none)
                × (try_replica sha256 c (t.fetch n a) ≡ goes_on e))
      go (failed e) g = inr (e, ground (arith, q, g), ground (arith, q, g))
      go (done d) g = elim (Bool-cases (is_accepted sha256 c d)) [
        | inl good ↦ inl (d, ground (arith, q, g, good), ground (arith, q, g, good))
        | inr bad ↦ inr (checksum_mismatch, ground (arith, q, g, bad), ground (arith, q, g, bad))
      ]

  fetch_from-Gives :
      (n : ℕ) (last : Option ClientError) (replicas : List String)
      → ((i : ℕ) (a : String) → (t.fetch i a).cancelled ≡ none)
      → Gives (first_usable n replicas) (fetch_from sha256 c t.fetch n last replicas)
  unfolding fetch_from
  fetch_from-Gives n last [] q = (with_cause all_replicas_failed last, refl)
  fetch_from-Gives n last (a ∷ rest) q = elim (try_replica-usable n a (q n a)) [
    | inl (b, u, e) ↦
        let found : first_usable n (a ∷ rest) ≡ some b = ground (arith, u) in
        let r : fetch_from sha256 c t.fetch n last (a ∷ rest) ≡ done b = ground (arith, e) in
        subst (λ o. Gives o (fetch_from sha256 c t.fetch n last (a ∷ rest))) (sym found) r
    | inr (x, u, e) ↦
        let found : first_usable (suc n) rest ≡ first_usable n (a ∷ rest) = ground (arith, u) in
        subst (λ o. Gives o (fetch_from sha256 c t.fetch n last (a ∷ rest))) found
          (subst (Gives (first_usable (suc n) rest))
            {x = fetch_from sha256 c t.fetch (suc n) (some x) rest}
            {y = fetch_from sha256 c t.fetch n last (a ∷ rest)} (ground (arith, e))
            (fetch_from-Gives (suc n) (some x) rest q))
  ]

  -- What a chunk's goroutine leaves.
  abbrev pub Fetched : ℕ → Bytes → Option Bytes → Bytes × Option ClientError → Type 0
  Fetched chunk_size file (some b) x = x ≡ (write_at 0 file (c.chunk_index * chunk_size) b, none)
  Fetched chunk_size file none x = (x.0 ≡ file) × (x.1 ≢ none)

  -- When the context is not cancelled and the write does not fail, the first of the replicas' answers
  -- whose bytes are accepted stands in the file from the chunk's index times the chunk size on; when
  -- there is none, there is an error and the file stays as it is.
  pub download_chunk_with_failover-first :
      (chunk_size : ℕ) (file : Bytes)
      → ((i : ℕ) (a : String) → (t.fetch i a).cancelled ≡ none)
      → t.write ≡ none
      → Fetched chunk_size file
          (first_usable 0 c.replicas)
          (download_chunk_with_failover sha256 c chunk_size t file)
  unfolding download_chunk_with_failover
  download_chunk_with_failover-first chunk_size file q w =
      go c.replicas refl (first_usable 0 c.replicas) refl (fetch_from-Gives 0 none c.replicas q)
    where
      go :
          (replicas : List String)
          → c.replicas ≡ replicas
          → (o : Option Bytes) → first_usable 0 c.replicas ≡ o
          → Gives o (fetch_from sha256 c t.fetch 0 none c.replicas)
          → Fetched chunk_size file o (download_chunk_with_failover sha256 c chunk_size t file)
      go [] r (some b) u g = ground (arith, r, u)
      go [] r none u g = ground (arith, r)
      go (a ∷ rest) r (some b) u g = ground (arith, r, u, g, w)
      go (a ∷ rest) r none u (e, g) = ground (arith, r, u, g)
