-- ===== src/Fsm/Scans.antt =====
-- What the scans over the registries return.
use distributed_fs.Common.{
  String, Bool, true, false, not, ◌&&◌, List, [], ◌∷◌, ◌≡◌, ◌↔◌, refl, none, some, inl, inr, arith,
  contains, Bool-cases, Option-cases, if◌then◌else◌,
}
use distributed_fs.Common.Registry.{
  Registry, lookup, values, HasUniqueKeys, Visits, Visits-lookup, lookup-Visits,
}
use distributed_fs.Fsm.Types.{ChunkRecord, NodeEntry, RepairJob}
use distributed_fs.Fsm.State.{MetadataFsm, Result, ok, err}
use distributed_fs.Fsm.Reads.{
  is_dead, is_alive, locate, get_chunk_locations, chunks_on, get_chunks_by_node, live,
  get_live_nodes, is_active_for, any_active, has_active_repair_for_chunk_target,
}
use distributed_fs.Fsm.Invariant.Keys.{IsTable, KeysMatch, chunk_key, node_key}

module _ {V : Type 0} (key : V → String) (p : V → Bool) where
  -- The keys of the values that pass a test.
  unfoldable pub pass : List V → List String
  pass [] = []
  pass (v ∷ vs) = let rest = pass vs in if p v then key v ∷ rest else rest

  abbrev passes_at : String → Registry V → Bool
  passes_at k m = elim (lookup k m) [ some v ↦ p v | none ↦ false ]

  abbrev AllKeyed : Registry V → Type 0
  AllKeyed [] = Unit
  AllKeyed ((k, v) ∷ m) = (key v ≡ k) × AllKeyed m

  -- In a table a scan finds exactly the keys at which the test passes.
  contains-pass :
      (m : Registry V) (k : String)
      → AllKeyed m
      → HasUniqueKeys m
      → contains (pass (values m)) k ≡ passes_at k m
  unfolding lookup values pass
  contains-pass [] k a u = refl
  contains-pass ((j, v) ∷ m) k a u = ground (arith, contains-pass m k a.1 u.1)

  tail-keyed :
      (j : String) (w : V) (m : Registry V)
      → HasUniqueKeys ((j, w) ∷ m)
      → ((k : String) (v : V) → lookup k ((j, w) ∷ m) ≡ some v → key v ≡ k)
      → (k : String) (v : V) → lookup k m ≡ some v
      → key v ≡ k
  unfolding lookup
  tail-keyed j w m u h k v e = ground (arith, h k v)

  all_keyed :
      (m : Registry V)
      → HasUniqueKeys m
      → ((k : String) (v : V) → lookup k m ≡ some v → key v ≡ k)
      → AllKeyed m
  unfolding lookup
  all_keyed [] u h = tt
  all_keyed ((j, w) ∷ m) u h = (h j w (ground arith), all_keyed m u.1 (tail-keyed j w m u h))

  pub scan_exact :
      (m : Registry V) (k : String) → IsTable key m → contains (pass (values m)) k ≡ passes_at k m
  scan_exact m k t = contains-pass m k (all_keyed m t.unique t.keyed) t.unique

module _ (n : String) where
  chunks_on-pass :
      (cks : List ChunkRecord) → chunks_on n cks ≡ pass chunk_key (λ ck. contains ck.replicas n) cks
  unfolding chunks_on pass
  chunks_on-pass [] = refl
  chunks_on-pass (ck ∷ cks) = ground (arith, chunks_on-pass cks)

-- The chunk is registered, and lists the node as a replica.
abbrev pub has_replica : String → String → MetadataFsm → Bool
has_replica c n s = elim (lookup c s.chunk_registry) [
  | some ck ↦ contains ck.replicas n
  | none ↦ false
]

-- In a state whose registries are keyed by their records, `GetChunksByNode` returns the ID of a
-- chunk exactly if that chunk is registered and lists the node as a replica.
pub get_chunks_by_node_exact :
    (s : MetadataFsm)
    → KeysMatch s
    → (n c : String) → contains (get_chunks_by_node s n) c ≡ has_replica c n s
unfolding get_chunks_by_node
get_chunks_by_node_exact s h n c =
    rw (chunks_on-pass n (values s.chunk_registry))
      (scan_exact chunk_key (λ ck. contains ck.replicas n) s.chunk_registry c h.chunks)

abbrev pub node_ids : List NodeEntry → List String
node_ids [] = []
node_ids (n ∷ ns) = n.node_id ∷ node_ids ns

live-pass : (ns : List NodeEntry) → node_ids (live ns) ≡ pass node_key (λ n. is_alive n.status) ns
unfolding live pass
live-pass [] = refl
live-pass (n ∷ ns) = ground (arith, live-pass ns)

abbrev pub alive_at : String → MetadataFsm → Bool
alive_at n s = elim (lookup n s.node_registry) [ some e ↦ is_alive e.status | none ↦ false ]

-- `GetLiveNodes` returns exactly the nodes whose status is alive.
pub get_live_nodes_exact :
    (s : MetadataFsm)
    → KeysMatch s
    → (n : String) → contains (node_ids (get_live_nodes s)) n ≡ alive_at n s
unfolding get_live_nodes
get_live_nodes_exact s h n =
    rw (live-pass (values s.node_registry))
      (scan_exact node_key (λ e. is_alive e.status) s.node_registry n h.nodes)

abbrev pub not_dead_at : String → MetadataFsm → Bool
not_dead_at n s = elim (lookup n s.node_registry) [ some e ↦ not (is_dead e.status) | none ↦ false ]

contains-locate :
    (s : MetadataFsm) (ids : List String) (n : String)
    → KeysMatch s
    → contains (node_ids (locate s.node_registry ids)) n ≡ (contains ids n && not_dead_at n s)
unfolding locate
contains-locate s [] n h = refl
contains-locate s (id ∷ ids) n h = elim (Option-cases (lookup id s.node_registry)) [
  | inl gone ↦ ground (arith, contains-locate s ids n h)
  | inr (v, e) ↦ ground (arith, contains-locate s ids n h, h.nodes.keyed id v e)
]

abbrev pub located : Result (List NodeEntry) → String → Bool
located (ok ns) n = contains (node_ids ns) n
located (err _) n = false

-- `GetChunkLocations` returns a node exactly if the chunk is registered and lists it, and the
-- node is registered and not dead: a draining node is returned.
pub get_chunk_locations_exact :
    (s : MetadataFsm)
    → KeysMatch s
    → (c n : String) → located (get_chunk_locations s c) n ≡ (has_replica c n s && not_dead_at n s)
unfolding get_chunk_locations
get_chunk_locations_exact s h c n = grind (arith, contains-locate)

any_active-Visits :
    (c t : String) (m : Registry RepairJob)
    → any_active c t (values m) ≡ true
    → (k : String) × (j : RepairJob) × Visits m k j × (is_active_for c t j ≡ true)
unfolding any_active values
any_active-Visits c t [] h = absurd (ground arith)
any_active-Visits c t ((k, j) ∷ m) h = elim (Bool-cases (is_active_for c t j)) [
  | inl yes' ↦ (k, j, inl (refl, refl), yes')
  | inr no' ↦ let (k', j', v, a) = any_active-Visits c t m (ground arith) in (k', j', inr v, a)
]

Visits-any_active :
    (c t : String) (m : Registry RepairJob) (k : String) (j : RepairJob)
    → Visits m k j
    → is_active_for c t j ≡ true
    → any_active c t (values m) ≡ true
unfolding any_active values
Visits-any_active c t [] k j v h = absurd v
Visits-any_active c t ((i, w) ∷ m) k j (inl e) h = rw (e.1, h)
Visits-any_active c t ((i, w) ∷ m) k j (inr v) h = ground (arith, Visits-any_active c t m k j v h)

-- `HasActiveRepairForChunkTarget` answers true exactly if some registered job is for the chunk
-- and the target and is pending or in progress.
pub has_active_repair_exact :
    (s : MetadataFsm) (c t : String)
    → KeysMatch s
    → (has_active_repair_for_chunk_target s c t ≡ true) ↔ (
        (k : String) × (j : RepairJob) × (lookup k s.repair_job_registry ≡ some j)
        × (is_active_for c t j ≡ true))
unfolding has_active_repair_for_chunk_target
has_active_repair_exact s c t h =
    let m = s.repair_job_registry in
    (
      (λ e.
          let (k, j, v, a) = any_active-Visits c t m e in
          (k, j, lookup-Visits m k j h.jobs.unique v, a)),
      (λ w. Visits-any_active c t m w.0 w.1 (Visits-lookup m w.0 w.1 w.2) w.3),
    )

-- In a state whose registries are keyed by their records: `GetChunksByNode` returns the chunks that
-- list the node; `GetChunkLocations` the nodes, registered and not dead, that the chunk lists;
-- `GetLiveNodes` the nodes whose status is alive; and `HasActiveRepairForChunkTarget` answers true
-- if some job for the chunk and the target is pending or in progress; each exactly those.
pub scans_exact :
    (s : MetadataFsm) (n c : String)
    → KeysMatch s
    → (contains (get_chunks_by_node s n) c ≡ has_replica c n s)
      × (located (get_chunk_locations s c) n ≡ (has_replica c n s && not_dead_at n s))
      × (contains (node_ids (get_live_nodes s)) n ≡ alive_at n s)
      × ((has_active_repair_for_chunk_target s c n ≡ true) ↔ (
          (k : String) × (j : RepairJob) × (lookup k s.repair_job_registry ≡ some j)
          × (is_active_for c n j ≡ true)))
scans_exact s n c m = (
  get_chunks_by_node_exact s m n c,
  get_chunk_locations_exact s m c n,
  get_live_nodes_exact s m n,
  has_active_repair_exact s c n m,
)
