-- ===== src/Client/Transfers/Sent.antt =====
-- What the goroutines of an upload have sent.
use mathlib.Core.Path.{subst}
use distributed_fs.Common.{
  ℕ, zero, suc, ◌+◌, ◌≤◌, String, List, [], ◌∷◌, ◌++◌, ◌≡◌, refl, sym, Option, none, some, Bytes,
  arith, length, All, Option-cases, inl, inr,
}
use distributed_fs.Common.Registry.{Registry}
use distributed_fs.Common.Orders.{IsIn, IsIn-append-left, IsIn-append-right}
use distributed_fs.Storage.Retry.{
  Attempts, Done, succeeded, stopped, exhausted, policy_do, policy_do-Last,
}
use distributed_fs.Client.Errors.{ClientError, Reply, done, failed}
use distributed_fs.Client.Chunker.{ChunkDescriptor}
use distributed_fs.Client.Chunker.Pieces.{piece}
use distributed_fs.Client.Transfers.{
  PutRequest, Placement, Work, UploadService, Counts, placement_of, read_at, put_request,
  calls_from, upload_chunk_with_retry, upload_one, upload_all,
}

abbrev Log : Type 0
Log = List (PutRequest × Option ClientError)

calls_from-last :
    (r : PutRequest) (a : Attempts ClientError) (n i k : ℕ)
    → k ≡ i + n
    → a.called k ≡ none
    → IsIn (calls_from r a (suc n) i) (r, none)
unfolding calls_from
calls_from-last r a zero i k e h = let same : k ≡ i = omega arith in inl (ground (arith, same, h))
calls_from-last r a (suc n) i k e h = inr (calls_from-last r a n (suc i) k (omega arith) h)

read_at-piece :
    (file : Bytes) (d : ChunkDescriptor) (e : Option ClientError) (b : Bytes)
    → read_at file d e ≡ done b
    → b ≡ piece file d
read_at-piece file d none b h = ground (arith, h)
read_at-piece file d (some e) b h = cc

module _ {D N : Type 0} (s : UploadService D N) (file : Bytes) (file_id : String)
    (placements : Registry Placement) where
  -- The log has a call of PutChunk that returned no error, with the chunk's piece of the file and its
  -- checksum, to the primary of its placement, for the replicas of its placement.
  abbrev pub IsSent : Log → ChunkDescriptor → Type 0
  IsSent log d =
      IsIn log (put_request s.sha256 d (placement_of placements d.chunk_id) (piece file d), none)

  succeeds :
      (d : ChunkDescriptor) (w : Work D) (b : Bytes)
      → read_at file d w.read ≡ done b
      → (upload_chunk_with_retry s file d (placement_of placements d.chunk_id) w).1 ≡ none
      → (policy_do s.policy w.attempts).result ≡ succeeded
  unfolding upload_chunk_with_retry
  succeeds d w b g h = go (policy_do s.policy w.attempts).result refl
    where
      go :
          (r : Done ClientError)
          → (policy_do s.policy w.attempts).result ≡ r
          → (policy_do s.policy w.attempts).result ≡ succeeded
      go succeeded p = p
      go (stopped e) p = ground (arith, g, h, p)
      go (exhausted e) p = ground (arith, g, h, p)

  sent_log :
      (d : ChunkDescriptor) (w : Work D) (b : Bytes) (n : ℕ)
      → read_at file d w.read ≡ done b
      → (policy_do s.policy w.attempts).calls ≡ suc n
      → calls_from
          (put_request s.sha256 d (placement_of placements d.chunk_id) b)
          w.attempts
          (suc n)
          0
        ≡ (upload_chunk_with_retry s file d (placement_of placements d.chunk_id) w).0
  unfolding upload_chunk_with_retry
  sent_log d w b n g calls = ground (arith, g, calls)

  upload_chunk_with_retry-IsSent :
      (d : ChunkDescriptor) (w : Work D)
      → let x = upload_chunk_with_retry s file d (placement_of placements d.chunk_id) w in
        x.1 ≡ none → IsSent x.0 d
  unfolding upload_chunk_with_retry
  upload_chunk_with_retry-IsSent d w h = go (read_at file d w.read) refl
    where
      go :
          (r : Reply Bytes)
          → read_at file d w.read ≡ r
          → IsSent (upload_chunk_with_retry s file d (placement_of placements d.chunk_id) w).0 d
      go (failed e) g = ground (arith, h, g)
      go (done b) g =
          let (n, k, calls, place, last) =
            policy_do-Last s.policy w.attempts (succeeds d w b g h) in
          subst (λ log. IsSent log d) (sent_log d w b n g calls)
            (subst
              (λ x.
                IsIn
                  (calls_from (put_request s.sha256 d (placement_of placements d.chunk_id) b)
                    w.attempts (suc n) 0)
                  (put_request s.sha256 d (placement_of placements d.chunk_id) x, none))
              (read_at-piece file d w.read b g)
              (calls_from-last (put_request s.sha256 d (placement_of placements d.chunk_id) b)
                w.attempts n 0 k place last))

  -- What a goroutine sends.
  abbrev sends : ChunkDescriptor × Work D → Log
  sends w = (upload_chunk_with_retry s file w.0 (placement_of placements w.0.chunk_id) w.1).0

  upload_one-puts :
      (w : ChunkDescriptor × Work D) (n : Counts D)
      → (upload_one s file file_id placements w n).puts ≡ n.puts ++ sends w
  unfolding upload_one
  upload_one-puts (d, w) n =
      elim (Option-cases
        (upload_chunk_with_retry s file d (placement_of placements d.chunk_id) w).1) [
          | inl e ↦ ground (arith, e)
          | inr (x, e) ↦ ground (arith, e)
        ]

  upload_one-returned :
      (d : ChunkDescriptor) (w : Work D) (n : Counts D)
      → (upload_one s file file_id placements (d, w) n).failed_count ≡ 0
      → (upload_chunk_with_retry s file d (placement_of placements d.chunk_id) w).1 ≡ none
  unfolding upload_one
  upload_one-returned d w n h =
      elim (Option-cases
        (upload_chunk_with_retry s file d (placement_of placements d.chunk_id) w).1) [
          | inl e ↦ e
          | inr (x, e) ↦ ground (arith, e, h)
        ]

  upload_all-failed :
      (ws : List (ChunkDescriptor × Work D)) (n : Counts D)
      → n.failed_count ≤ (upload_all s file file_id placements ws n).failed_count
  unfolding upload_all upload_one
  upload_all-failed [] n = omega arith
  upload_all-failed (w ∷ ws) n =
      ground (arith, upload_all-failed ws (upload_one s file file_id placements w n))

  -- The goroutines that end without an error and with one are all of them.
  pub upload_all-counts :
      (ws : List (ChunkDescriptor × Work D)) (n : Counts D)
      → let n' = upload_all s file file_id placements ws n in
        n'.done_count + n'.failed_count ≡ n.done_count + n.failed_count + length ws
  unfolding upload_all upload_one
  upload_all-counts [] n = omega arith
  upload_all-counts (w ∷ ws) n =
      ground (arith, upload_all-counts ws (upload_one s file file_id placements w n))

  upload_all-keeps :
      (ws : List (ChunkDescriptor × Work D)) (n : Counts D) (d : ChunkDescriptor)
      → IsSent n.puts d
      → IsSent (upload_all s file file_id placements ws n).puts d
  unfolding upload_all
  upload_all-keeps [] n d h = h
  upload_all-keeps (w ∷ ws) n d h =
      upload_all-keeps ws (upload_one s file file_id placements w n) d
        (subst (λ log. IsSent log d) (sym (upload_one-puts w n)) (IsIn-append-left n.puts _ _ h))

  -- When none of them fails, each chunk has been sent.
  pub upload_all-IsSent :
      (ws : List (ChunkDescriptor × Work D)) (n : Counts D)
      → (upload_all s file file_id placements ws n).failed_count ≡ 0
      → All (λ w. IsSent (upload_all s file file_id placements ws n).puts w.0) ws
  unfolding upload_all
  upload_all-IsSent [] n h = tt
  upload_all-IsSent ((d, w) ∷ ws) n h =
      let next = upload_one s file file_id placements (d, w) n in
      let returned = upload_one-returned d w n (omega (arith, h, upload_all-failed ws next)) in
      let sent = upload_chunk_with_retry-IsSent d w returned in
      (
        upload_all-keeps ws next d (
            subst (λ log. IsSent log d) (sym (upload_one-puts (d, w) n))
              (IsIn-append-right n.puts (sends (d, w)) _ sent)),
        upload_all-IsSent ws next h,
      )
