-- ===== src/Client/Download/Whole.antt =====
-- A download that returns no error leaves the file that was uploaded.
use mathlib.Core.List.{Permᴰ}
use mathlib.Core.Path.{subst}
use native.Mathlib.Nat.{suc-mul}
use distributed_fs.Common.{
  ℕ, zero, suc, ◌+◌, ◌*◌, ◌≤◌, ◌<◌, String, Bool, true, List, [], ◌∷◌, ◌≡◌, ◌≢◌, refl, sym, ap, ◌∙◌,
  none, some, Bytes, arith, length, map, All, inl, inr, bytes_equal_iff, ltb, nat_eq, ◌==◌,
  if◌then◌else◌, Bool-cases, Option-cases,
}
use distributed_fs.Common.Registry.{Registry, lookup, lookup-insert, lookup-delete}
use distributed_fs.Common.Positions.{write_at, length-replicate, same_elements}
use distributed_fs.Common.Orders.{any, Perm-All, Perm-any}
use distributed_fs.Client.Errors.{Reply, done, failed}
use distributed_fs.Client.Download.{
  FileInfo, ChunkInfo, Transfer, Progress, System, Schedule, is_accepted, fetch_from,
  download_chunk_with_failover, download_one, download_all, preallocated, download,
}
use distributed_fs.Client.Download.Failover.{fetch_from-accepted}
use distributed_fs.Client.Download.Writes.{
  chunk_at, IsRight, write_chunk-length, write_chunk-keeps, write_chunk-sets,
}

module _ (sha256 : Bytes → Bytes) (file : Bytes) (chunk_size : ℕ) where
  -- No other bytes have the checksum of a chunk of the file.
  abbrev pub IsCollisionFree : Type 0
  IsCollisionFree =
      (i : ℕ) (b : Bytes)
      → sha256 b ≡ sha256 (chunk_at file chunk_size i)
      → b ≡ chunk_at file chunk_size i

  -- A chunk that the metadata service names: it has the checksum of the file's chunk.
  abbrev pub IsChunk : ChunkInfo → Type 0
  IsChunk c =
      (0 < length c.checksum) × (c.checksum ≡ sha256 (chunk_at file chunk_size c.chunk_index))

  abbrev has_index : ℕ → ChunkInfo → Bool
  has_index i c = nat_eq c.chunk_index i

  -- The metadata service names every chunk of the file, and nothing else.
  pub record IsDescribed (info : FileInfo) (cs : List ChunkInfo) : Type 0 where
    pub file_size : info.file_size ≡ length file
    pub same_chunk_size : info.chunk_size ≡ chunk_size
    pub chunks : All IsChunk cs
    pub covers : (i : ℕ) → i * chunk_size < length file → any (has_index i) cs ≡ true

  -- A goroutine that ends without an error has written the file's chunk.
  download_chunk-written :
      IsCollisionFree
      → (c : ChunkInfo) (t : Transfer) (out : Bytes) → IsChunk c
      → (download_chunk_with_failover sha256 c chunk_size t out).1 ≡ none
      → (download_chunk_with_failover sha256 c chunk_size t out).0
        ≡ write_at 0 out (c.chunk_index * chunk_size) (chunk_at file chunk_size c.chunk_index)
  unfolding download_chunk_with_failover is_accepted
  download_chunk-written free c t out h e = go (fetch_from sha256 c t.fetch 0 none c.replicas) refl
    where
      go :
          (r : Reply Bytes)
          → fetch_from sha256 c t.fetch 0 none c.replicas ≡ r
          → (download_chunk_with_failover sha256 c chunk_size t out).0
            ≡ write_at 0 out (c.chunk_index * chunk_size) (chunk_at file chunk_size c.chunk_index)
      go (failed x) f = ground (arith, e, f)
      go (done b) f =
          let good = fetch_from-accepted sha256 c t 0 none c.replicas b f in
          let same : sha256 b ≡ sha256 (chunk_at file chunk_size c.chunk_index) =
            ground (arith, good, h, bytes_equal_iff (sha256 b) c.checksum) in
          ground (arith, e, f, free c.chunk_index b same)

  download_all-failed :
      (ws : List (ChunkInfo × Transfer)) (p : Progress)
      → p.failed_count ≤ (download_all sha256 chunk_size ws p).failed_count
  unfolding download_all download_one
  download_all-failed [] p = omega arith
  download_all-failed ((c, t) ∷ ws) p =
      ground (arith, download_all-failed ws (download_one sha256 chunk_size (c, t) p))

  download_one-returned :
      (c : ChunkInfo) (t : Transfer) (p : Progress)
      → (download_one sha256 chunk_size (c, t) p).failed_count ≡ 0
      → (download_chunk_with_failover sha256 c chunk_size t p.out_file).1 ≡ none
  unfolding download_one
  download_one-returned c t p e =
      elim (Option-cases (download_chunk_with_failover sha256 c chunk_size t p.out_file).1) [
        | inl good ↦ good
        | inr (x, bad) ↦ ground (arith, e, bad)
      ]

  -- What holds once the goroutines have ended without an error.
  abbrev Ended : List (ChunkInfo × Transfer) → Bytes → Bytes → Type 0
  Ended ws out out' =
      (length out' ≡ length file)
      × ((p : ℕ) → IsRight file chunk_size p out → IsRight file chunk_size p out')
      × ((i p : ℕ)
          → any (has_index i) (map (λ w. w.0) ws) ≡ true
          → p < length file
          → i * chunk_size ≤ p
          → p < i * chunk_size + chunk_size
          → IsRight file chunk_size p out')

  download_all-Ended :
      IsCollisionFree
      → (ws : List (ChunkInfo × Transfer)) (p : Progress) → All IsChunk (map (λ w. w.0) ws)
      → length p.out_file ≡ length file
      → (download_all sha256 chunk_size ws p).failed_count ≡ 0
      → Ended ws p.out_file (download_all sha256 chunk_size ws p).out_file
  unfolding download_all download_one
  download_all-Ended free [] p h n e = (n, λ p' r. r, λ i p' a. cc)
  download_all-Ended free ((c, t) ∷ ws) p h n e =
      let next = download_one sha256 chunk_size (c, t) p in
      let none_failed = download_all-failed ws next in
      let x = download_chunk_with_failover sha256 c chunk_size t p.out_file in
      let returned : x.1 ≡ none = download_one-returned c t p (omega (arith, none_failed, e)) in
      let written = download_chunk-written free c t p.out_file h.0 returned in
      let out : next.out_file
          ≡ write_at 0 p.out_file (c.chunk_index * chunk_size)
              (chunk_at file chunk_size c.chunk_index) =
        ground (arith, returned, written) in
      let (n', keeps, sets) =
        download_all-Ended free ws next h.1
          (ap length out ∙ write_chunk-length file chunk_size c.chunk_index p.out_file n) e in
      (
        n',
        λ q r. keeps q (
            subst (IsRight file chunk_size q) (sym out)
              (write_chunk-keeps file chunk_size c.chunk_index q p.out_file n r)),
        λ i q a h' lo hi. elim (Bool-cases (has_index i c)) [
          | inr later ↦ sets i q (ground (arith, a, later)) h' lo hi
          | inl here ↦
              let same : c.chunk_index ≡ i = ground (arith, here) in
              keeps q (
                subst (IsRight file chunk_size q) (sym out) (
                  write_chunk-sets file chunk_size c.chunk_index q p.out_file n h' (rw same lo)
                    (rw same hi)))
        ],
      )

  -- The chunk in which a place of the file lies.
  slot :
      (p : ℕ) → 0 < chunk_size → (i : ℕ) × (i * chunk_size ≤ p) × (p < i * chunk_size + chunk_size)
  slot zero z = (0, omega arith, omega arith)
  slot (suc p) z =
      let (i, lo, hi) = slot p z in
      elim (Bool-cases (ltb (suc p) (i * chunk_size + chunk_size))) [
        | inl same ↦ (i, omega arith, ground (arith, same))
        | inr next ↦ (
          suc i,
          ground (arith, suc-mul i chunk_size, next, hi),
          ground (arith, suc-mul i chunk_size, hi, z),
        )
      ]

  -- The goroutines are those of the chunks, in some order.
  pub record IsSchedule (g : Schedule) : Type 0 where
    pub sorts : (cs : List ChunkInfo) → Permᴰ cs (g.sort_slice cs)
    pub finishes : (cs : List ChunkInfo) → Permᴰ cs (map (λ w. w.0) (g.finished cs))

  download_all-file :
      0 < chunk_size
      → IsCollisionFree
      → (g : Schedule) (info : FileInfo) (cs : List ChunkInfo) → IsSchedule g
      → IsDescribed info cs
      → let p =
          download_all sha256 info.chunk_size
            (g.finished (g.sort_slice cs))
            (preallocated info.file_size) in
        p.failed_count ≡ 0 → p.out_file ≡ file
  download_all-file z free g info cs s d e =
      let ws = g.finished (g.sort_slice cs) in
      let order = Permᴰ.trans (s.sorts cs) (s.finishes (g.sort_slice cs)) in
      let start = preallocated info.file_size in
      let sized : length start.out_file ≡ length file =
        length-replicate info.file_size 0 ∙ d.file_size in
      let (n, _, sets) = download_all-Ended free ws start (Perm-All IsChunk order d.chunks) sized (
        subst (λ size. (download_all sha256 size ws start).failed_count ≡ 0) d.same_chunk_size e) in
      let whole = same_elements (download_all sha256 chunk_size ws start).out_file file n (λ p h.
        let (i, lo, hi) = slot p z in
        sets i p (sym (Perm-any (has_index i) order) ∙ d.covers i (omega arith)) h lo hi) in
      subst (λ size. (download_all sha256 size ws start).out_file ≡ file) (sym d.same_chunk_size)
        whole

  -- When the metadata service describes the file, its chunk size is not zero and no other bytes have
  -- the checksum of one of its chunks, a download that returns no error leaves exactly the file at the
  -- output path, and every other path as it was, whatever the replicas answer and in whatever order
  -- the goroutines end.
  pub download-whole :
      0 < chunk_size
      → IsCollisionFree
      → (g : Schedule) (sys : System) (info : FileInfo) (c : ChunkInfo) (cs : List ChunkInfo)
        (output_path : String) (files : Registry Bytes) (path : String)
      → IsSchedule g
      → IsDescribed info (c ∷ cs)
      → (download sha256 g sys (done (info, c ∷ cs)) output_path files).1.1 ≡ none
      → lookup path (download sha256 g sys (done (info, c ∷ cs)) output_path files).0
        ≡ (if output_path == path then some file else lookup path files)
  unfolding download
  download-whole z free g sys info c cs output_path files path s d e =
      let p =
        download_all sha256 info.chunk_size (g.finished (g.sort_slice (c ∷ cs)))
          (preallocated info.file_size) in
      elim (Bool-cases (ltb 0 p.failed_count)) [
        | inl bad ↦ ground (arith, e, bad)
        | inr good ↦
            let whole = download_all-file z free g info (c ∷ cs) s d (ground (arith, good)) in
            ground (arith, e, good, whole, lookup-insert output_path file files path)
      ]

  -- When some chunk fails, a download returns an error and, if the partial file can be removed, leaves
  -- nothing at the output path.
  pub download-failed :
      (g : Schedule) (sys : System) (info : FileInfo) (c : ChunkInfo) (cs : List ChunkInfo)
      (output_path : String) (files : Registry Bytes)
      → sys.create ≡ none
      → sys.truncate ≡ none
      → sys.remove ≡ none
      → let p =
          download_all sha256 info.chunk_size
            (g.finished (g.sort_slice (c ∷ cs)))
            (preallocated info.file_size) in
        0 < p.failed_count
        → let x = download sha256 g sys (done (info, c ∷ cs)) output_path files in
          (x.1.1 ≢ none) × (lookup output_path x.0 ≡ none)
  unfolding download
  download-failed g sys info c cs output_path files p q r h =
      ground (arith, p, q, r, lookup-delete output_path files output_path)
