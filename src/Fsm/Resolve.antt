-- ===== src/Fsm/Resolve.antt =====
-- `normalizeReplicaNodeIDs` and the order in which `range` visits the node registry.
use mathlib.Core.Path.{subst}
use distributed_fs.Common.{
  Option, none, true, Option-cases, String, List, [], ◌∷◌, ◌≡◌, ◌≢◌, refl, some, sym, ap, ◌∙◌,
  String_discrete, inl, inr, arith,
}
use distributed_fs.Common.Registry.{
  Registry, lookup, lookup-insert, Visits, Visits-lookup, lookup-Visits,
}
use distributed_fs.Fsm.Types.{NodeEntry, ChunkRecord, ChunkStatus}
use distributed_fs.Fsm.Commands.{CommandCommitChunk, commit_chunk}
use distributed_fs.Fsm.Apply.{apply_command}
use distributed_fs.Fsm.Replicas.{is_open}
use distributed_fs.Fsm.State.{MetadataFsm}
use distributed_fs.Fsm.Handlers.Chunks.{
  resolve_address, normalize_entry, normalize_from, normalize_replica_node_ids, handle_commit_chunk,
}
use distributed_fs.Fsm.Invariant.Keys.{KeysMatch, IsTable, node_key}

module _ {V : Type 0} where
  -- The same map, perhaps visited in another order.
  abbrev pub SameMap : Registry V → Registry V → Type 0
  SameMap m m' = (k : String) → lookup k m ≡ lookup k m'

-- No two entries have one address.
abbrev pub HasUniqueAddresses : Registry NodeEntry → Type 0
HasUniqueAddresses m =
    (k k' : String) (e e' : NodeEntry)
    → lookup k m ≡ some e
    → lookup k' m ≡ some e'
    → e.address ≡ e'.address
    → k ≡ k'

-- How `resolve_address` came to its result.
data Found (m : Registry NodeEntry) (a r : String) : Type 0 where
  none_has : r ≡ "" → ((k : String) (e : NodeEntry) → Visits m k e → e.address ≢ a) → Found m a r
  one_has :
      (k : String) (e : NodeEntry) → Visits m k e → e.address ≡ a → r ≡ e.node_id → Found m a r

later_Found :
    (k : String) (e : NodeEntry) (m : Registry NodeEntry) (a r : String)
    → e.address ≢ a
    → Found m a r
    → Found ((k, e) ∷ m) a r
later_Found k e m a r n (none_has q h) = none_has q go
  where
    go : (k' : String) (e' : NodeEntry) → Visits ((k, e) ∷ m) k' e' → e'.address ≢ a
    go k' e' (inl p) x = n (ap (λ (y : NodeEntry). y.address) p.1 ∙ x)
    go k' e' (inr v) x = h k' e' v x
later_Found k e m a r n (one_has k' e' v p q) = one_has k' e' (inr v) p q

resolve_address-Found : (m : Registry NodeEntry) (a : String) → Found m a (resolve_address m a)
unfolding resolve_address
resolve_address-Found [] a = none_has refl (λ k e v. absurd v)
resolve_address-Found ((k, e) ∷ m) a = elim (String_discrete e.address a) [
  | yes p ↦ one_has k e (inl (refl, refl)) p (ground arith)
  | no n ↦
      subst (λ r. Found ((k, e) ∷ m) a r) (ground arith)
        (later_Found k e m a (resolve_address m a) n (resolve_address-Found m a))
]

-- The result of the scan does not depend on the order, if addresses are unique.
resolve-SameMap :
    (m m' : Registry NodeEntry) (a r r' : String)
    → IsTable node_key m
    → IsTable node_key m'
    → HasUniqueAddresses m
    → SameMap m m'
    → Found m a r
    → Found m' a r'
    → r ≡ r'
resolve-SameMap m m' a r r' t t' u same (none_has q h) (none_has q' h') = q ∙ sym q'
resolve-SameMap m m' a r r' t t' u same (none_has q h) (one_has k e v p q') =
    absurd (h k e (Visits-lookup m k e (same k ∙ lookup-Visits m' k e t'.unique v)) p)
resolve-SameMap m m' a r r' t t' u same (one_has k e v p q) (none_has q' h) =
    absurd (h k e (Visits-lookup m' k e (sym (same k) ∙ lookup-Visits m k e t.unique v)) p)
resolve-SameMap m m' a r r' t t' u same (one_has k e v p q) (one_has k' e' v' p' q') =
    let l = lookup-Visits m k e t.unique v in
    let l' = same k' ∙ lookup-Visits m' k' e' t'.unique v' in
    let same_key : k ≡ k' = u k k' e e' l l' (p ∙ sym p') in
    q ∙ t.keyed k e l ∙ same_key ∙ sym (t.keyed k' e' l') ∙ sym q'

module _ (s s' : MetadataFsm) (h : KeysMatch s) (h' : KeysMatch s')
    (u : HasUniqueAddresses s.node_registry) (same : SameMap s.node_registry s'.node_registry) where
  entry-SameMap :
      (e : String) (acc : List String × List String)
      → normalize_entry s e acc ≡ normalize_entry s' e acc
  unfolding normalize_entry
  entry-SameMap e (n, seen) = ground (
    arith,
    same e,
    resolve-SameMap s.node_registry s'.node_registry e _ _ h.nodes h'.nodes u same
        (resolve_address-Found s.node_registry e) (resolve_address-Found s'.node_registry e),
  )

  from-SameMap :
      (raw : List String) (acc : List String × List String)
      → normalize_from s raw acc ≡ normalize_from s' raw acc
  unfolding normalize_from
  from-SameMap [] acc = refl
  from-SameMap (e ∷ raw) acc =
      rw (entry-SameMap e acc) (from-SameMap raw (normalize_entry s' e acc))

-- On two replicas that hold the same keyed node registry, in whatever order their maps are
-- visited, `normalizeReplicaNodeIDs` returns the same list if no two nodes share an address.
pub normalize_order_independent :
    (s s' : MetadataFsm) (raw : List String)
    → KeysMatch s
    → KeysMatch s'
    → HasUniqueAddresses s.node_registry
    → SameMap s.node_registry s'.node_registry
    → normalize_replica_node_ids s raw ≡ normalize_replica_node_ids s' raw
unfolding normalize_replica_node_ids
normalize_order_independent s s' raw h h' u same =
    ap (λ (acc : List String × List String). acc.0) (from-SameMap s s' h h' u same raw ([], []))

abbrev pub with_nodes : Registry NodeEntry → MetadataFsm → MetadataFsm
with_nodes m s = record s { node_registry = m }

-- A registry that is visited in this order: two nodes, then others.
abbrev pub two_nodes : NodeEntry → NodeEntry → Registry NodeEntry → Registry NodeEntry
two_nodes e e' m = (e.node_id, e) ∷ (e'.node_id, e') ∷ m

-- The nodes that a chunk lists.
abbrev pub replicas_of : String → MetadataFsm → Option (List String)
replicas_of c s = elim (lookup c s.chunk_registry) [ none ↦ none | some ck ↦ some ck.replicas ]

-- The list that is made of an address that no node has as its ID is that of the node visited first.
normalize_first :
    (e e' : NodeEntry) (m : Registry NodeEntry) (s : MetadataFsm) (a : String)
    → e.address ≡ a
    → lookup a m ≡ none
    → e.node_id ≢ a
    → e'.node_id ≢ a
    → e.node_id ≢ ""
    → normalize_replica_node_ids (with_nodes (two_nodes e e' m) s) (a ∷ []) ≡ e.node_id ∷ []
unfolding normalize_replica_node_ids normalize_entry resolve_address lookup
normalize_first e e' m s a p no_id na na' ne = ground arith

commit_chunk_first :
    (e e' : NodeEntry) (m : Registry NodeEntry) (s : MetadataFsm) (r : CommandCommitChunk)
    (a : String)
    → e.address ≡ a
    → lookup a m ≡ none
    → e.node_id ≢ a
    → e'.node_id ≢ a
    → e.node_id ≢ ""
    → r.node_ids ≡ a ∷ []
    → is_open r.chunk_id s ≡ true
    → replicas_of r.chunk_id (apply_command (commit_chunk r) (with_nodes (two_nodes e e' m) s)).0
      ≡ some (e.node_id ∷ [])
unfolding apply_command handle_commit_chunk
commit_chunk_first e e' m s r a p no_id na na' ne one h =
    elim (Option-cases (lookup r.chunk_id s.chunk_registry)) [
      | inl gone ↦ absurd (ground arith)
      | inr (ck, at') ↦
          let normal : normalize_replica_node_ids (with_nodes (two_nodes e e' m) s) r.node_ids
              ≡ e.node_id ∷ [] =
            rw one (normalize_first e e' m s a p no_id na na' ne) in
          let ck' : ChunkRecord = record ck {
            status = ChunkStatus.complete;
            checksum = r.checksum;
            replicas = normalize_replica_node_ids (with_nodes (two_nodes e e' m) s) r.node_ids;
          } in
          ground (arith, normal, lookup-insert r.chunk_id ck' s.chunk_registry r.chunk_id)
    ]

-- On two replicas that are in the same state, but visit their maps of nodes in another order: if the
-- two nodes visited first share an address that is no node's ID, the same `CmdCommitChunk` of that
-- address for an open chunk, whatever the other nodes, files and chunks are, makes the chunk list
-- the one node on the one replica and the other node on the other.
pub commit_chunk_order_dependent :
    (e e' : NodeEntry) (m : Registry NodeEntry) (s : MetadataFsm) (r : CommandCommitChunk)
    (a : String)
    → e.address ≡ a
    → e'.address ≡ a
    → lookup a m ≡ none
    → e.node_id ≢ e'.node_id
    → e.node_id ≢ a
    → e'.node_id ≢ a
    → e.node_id ≢ ""
    → e'.node_id ≢ ""
    → r.node_ids ≡ a ∷ []
    → is_open r.chunk_id s ≡ true
    → SameMap (two_nodes e e' m) (two_nodes e' e m)
      × (replicas_of r.chunk_id (apply_command (commit_chunk r) (with_nodes (two_nodes e e' m) s)).0
          ≡ some (e.node_id ∷ []))
      × (replicas_of r.chunk_id (apply_command (commit_chunk r) (with_nodes (two_nodes e' e m) s)).0
          ≡ some (e'.node_id ∷ []))
unfolding lookup
commit_chunk_order_dependent e e' m s r a p p' no_id n na na' ne ne' one h = (
  λ k. ground arith,
  commit_chunk_first e e' m s r a p no_id na na' ne one h,
  commit_chunk_first e' e m s r a p' no_id na' na ne' one h,
)
