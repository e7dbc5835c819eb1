-- ===== src/Server/Placed.antt =====
-- What `CreateFile` offers a client for its chunks.
use distributed_fs.Common.{
  All, ℕ, suc, String, Bool, List, [], ◌∷◌, ◌≡◌, refl, none, some, arith, length, leb, Bool-cases,
  Option-cases, inl, inr,
}
use distributed_fs.Fsm.Types.{NodeEntry}
use mathlib.Core.Path.{subst}
use distributed_fs.Fsm.Reads.{get_live_nodes}
use distributed_fs.Placement.Strategy.{PlacementStrategy}
use distributed_fs.Placement.Choice.{IsStrategy, allowed}
use distributed_fs.Server.{HandlerDeps, Service, reply, on_leader, proposing, leader_redirect}
use distributed_fs.Server.Files.{
  ChunkPlacement, CreateFileRequest, CreateFileResponse, transform, place, place_all,
  serve_create_file,
}

abbrev pub placed_ids : List ChunkPlacement → List String
placed_ids [] = []
placed_ids (p ∷ ps) = p.chunk_id ∷ placed_ids ps

length-transform : (ns : List NodeEntry) → length (transform ns) ≡ length ns
unfolding transform
length-transform [] = refl
length-transform (n ∷ ns) = ground (arith, length-transform ns)

module _ (p : PlacementStrategy) (better worse : NodeEntry → NodeEntry → Bool)
    (good : IsStrategy p better worse) (alive : List NodeEntry) (size rf : ℕ) where
  -- A selection that succeeds has as many nodes as were asked for.
  select-length :
      (p.select_nodes alive size rf []).1 ≡ none → length (p.select_nodes alive size rf []).0 ≡ rf
  select-length h = elim (Bool-cases (leb rf (length (allowed alive size [])))) [
    | inl yes' ↦ ((good.forward.enough alive [] size rf (ground arith)).1).enough
    | inr no' ↦ absurd (ground (arith, good.forward.short alive [] size rf))
  ]

  abbrev Full : ChunkPlacement → Type 0
  Full q = suc (length q.replicas) ≡ rf

  place-Full :
      (v : String) (q : ChunkPlacement)
      → place p alive size rf v ≡ some q
      → (q.chunk_id ≡ v) × Full q
  place-Full v q h = grind (arith, select-length, length-transform)

  place_all-Full :
      (vs : List String) (qs : List ChunkPlacement)
      → place_all p alive size rf vs ≡ some qs
      → (placed_ids qs ≡ vs) × All Full qs
  unfolding place_all
  place_all-Full [] qs h = grind arith
  place_all-Full (v ∷ vs) qs h = elim (Option-cases (place p alive size rf v)) [
    | inl e ↦ absurd (ground arith)
    | inr (q, e) ↦ elim (Option-cases (place_all p alive size rf vs)) [
      | inl e' ↦ absurd (ground arith)
      | inr (qs', e') ↦
          let (id, full) = place-Full v q e in
          let (ids, rest) = place_all-Full vs qs' e' in
          let same : q ∷ qs' ≡ qs = ground arith in
          subst (λ z. (placed_ids z ≡ v ∷ vs) × All Full z) same
            (ground (arith, id, ids), (full, rest))
    ]
  ]

-- With a placement strategy that keeps its contract, a `CreateFile` that is answered offers one
-- placement for each chunk ID, in order, and each has a primary and replicas that are together as
-- many as the replication factor.
pub serve_create_file_placed :
    (d : HandlerDeps) (better worse : NodeEntry → NodeEntry → Bool) (req : CreateFileRequest)
    (v : Service) (r : CreateFileResponse)
    → IsStrategy d.target_placement better worse
    → (serve_create_file d req v).1 ≡ reply r
    → (placed_ids r.placements ≡ req.chunk_ids)
      × All (λ q. suc (length q.replicas) ≡ d.replication_factor) r.placements
unfolding serve_create_file on_leader proposing leader_redirect
serve_create_file_placed d better worse req v r good h =
    let alive = get_live_nodes v.world.fsm in
    let full =
      place_all-Full d.target_placement better worse good alive req.chunk_size d.replication_factor
        req.chunk_ids r.placements in
    full (ground arith)
