-- ===== src/Server/Available.antt =====
-- A complete file can be read, and a node that leaves is taken out of every chunk.
use distributed_fs.Common.{
  String, Bool, true, false, not, ◌&&◌, List, [], ◌∷◌, ◌≡◌, refl, none, some, ◌==◌, arith, contains,
  inl, inr, Bool-cases, Option-cases,
}
use distributed_fs.Common.Registry.{Registry, lookup, lookup-insert, has}
use distributed_fs.Fsm.Types.{FileRecord, FileStatus, ChunkRecord}
use distributed_fs.Fsm.Commands.{CommandDeregisterNode, deregister_node}
use distributed_fs.Fsm.State.{MetadataFsm, ok}
use distributed_fs.Fsm.Types.{NodeEntry, NodeStatus}
use distributed_fs.Fsm.Apply.{apply_command}
use distributed_fs.Fsm.Reads.{collect_chunks, get_file_chunks}
use distributed_fs.Fsm.Scans.{has_replica, alive_at}
use distributed_fs.Fsm.Invariant.Keys.{IsTable, chunk_key}
use distributed_fs.Fsm.Invariant.Log.{IsWellFormed, apply_command-IsWellFormed}
use distributed_fs.Scheduler.State.{World}
use distributed_fs.Scheduler.Frame.{Commits, chunks_view}
use distributed_fs.Scheduler.Evicts.{trigger_repair_evicts, trigger_repair-nodes}
use distributed_fs.Server.{HandlerDeps, Service, reply, on_leader, proposing}
use distributed_fs.Server.Nodes.{serve_deregister_node}
use distributed_fs.Server.Files.{
  ChunkInfo, GetFileResponse, chunk_infos, resolved_addrs, serve_get_file,
}

abbrev pub info_ids : List ChunkInfo → List String
info_ids [] = []
info_ids (i ∷ is) = i.chunk_id ∷ info_ids is

-- Neither dead nor draining.
abbrev pub serves : NodeEntry → Bool
serves node = elim (node.status) [
  | NodeStatus.dead ↦ false
  | NodeStatus.draining ↦ false
  | _ ↦ true
]

-- If every chunk of a list is registered, all of them are collected.
collect_total :
    (s : MetadataFsm) (reg : Registry ChunkRecord)
    → IsTable chunk_key reg
    → (cids : List String) → ((c : String) → contains cids c ≡ true → has c reg ≡ true)
    → (cks : List ChunkRecord) × (collect_chunks reg cids ≡ ok cks)
      × (info_ids (chunk_infos s cks) ≡ cids)
unfolding collect_chunks chunk_infos
collect_total s reg t [] h = ([], refl, refl)
collect_total s reg t (c ∷ cids) h =
    let (cks, e, i) = collect_total s reg t cids (λ c' k. h c' (ground arith)) in
    elim (Option-cases (lookup c reg)) [
      | inl gone ↦ absurd (ground (arith, h c))
      | inr (ck, here) ↦
          let same = t.keyed c ck here in (ck ∷ cks, ground arith, ground (arith, same, i))
    ]

-- A leader in a well-formed state answers `GetFile` for every complete file: with its record, and
-- with one entry for each of its chunks, in order.
pub serve_get_file_answers :
    (d : HandlerDeps) (file_id : String) (v : Service) (f : FileRecord)
    → d.is_leader ≡ true
    → IsWellFormed v.world.fsm
    → lookup file_id v.world.fsm.file_index ≡ some f
    → f.status ≡ FileStatus.complete
    → (r : GetFileResponse) × (serve_get_file d file_id v ≡ (v, reply r))
      × (r.file ≡ f)
      × (info_ids r.chunks ≡ f.chunk_ids)
unfolding serve_get_file on_leader get_file_chunks
serve_get_file_answers d file_id v f lead h here done =
    let s = v.world.fsm in
    let (cks, e, i) =
      collect_total s s.chunk_registry h.keys.chunks f.chunk_ids
        (λ c k. h.links.file_chunks file_id f c here k) in
    (record { file = f; chunks = chunk_infos s cks }, ground arith, refl, i)

deregister-alive :
    (r : CommandDeregisterNode) (s : MetadataFsm) (n : String)
    → alive_at n (apply_command (deregister_node r) s).0 ≡ (alive_at n s && not (r.node_id == n))
unfolding apply_command
deregister-alive r s n = grind (arith, lookup-insert)

deregister-chunks :
    (r : CommandDeregisterNode) (s : MetadataFsm)
    → chunks_view (apply_command (deregister_node r) s).0 ≡ chunks_view s
unfolding apply_command
deregister-chunks r s = ground arith

deregister-ok :
    (r : CommandDeregisterNode) (s : MetadataFsm)
    → has r.node_id s.node_registry ≡ true
    → (apply_command (deregister_node r) s).1 ≡ none
unfolding apply_command
deregister-ok r s k = ground arith

-- If proposals are committed, a leader in a well-formed state answers `DeregisterNode` of a
-- registered node with success; afterwards that node is not alive, and the chunks list the nodes
-- that they listed before without it. A chunk whose only replica it held is left with none.
pub serve_deregister_node_exact :
    (d : HandlerDeps) (node : String) (v : Service)
    → d.is_leader ≡ true
    → Commits d.env.propose
    → IsWellFormed v.world.fsm
    → has node v.world.fsm.node_registry ≡ true
    → let r = serve_deregister_node d node v in
      (r.1 ≡ reply tt)
      × ((n : String) → alive_at n r.0.world.fsm ≡ (alive_at n v.world.fsm && not (node == n)))
      × ((c n : String)
          → has_replica c n r.0.world.fsm ≡ (has_replica c n v.world.fsm && not (node == n)))
unfolding serve_deregister_node on_leader proposing
serve_deregister_node_exact d node v lead all h k =
    let r : CommandDeregisterNode = record { node_id = node; updated_at = d.env.now } in
    let s = v.world.fsm in
    let s' = (apply_command (deregister_node r) s).0 in
    let w' : World = record (v.world) { fsm = s' } in
    let yes' = all (deregister_node r) s in
    let no' = deregister-ok r s k in
    (
      ground (arith, yes', no'),
      λ n. grind (arith, yes', no', trigger_repair-nodes d.env all, deregister-alive r s n),
      λ c n. grind (
        arith,
        yes',
        no',
        deregister-chunks r s,
        trigger_repair_evicts d.env w' node all (apply_command-IsWellFormed _ s h) c n,
      ),
    )

-- An address that a client may read from: that of a registered replica that is neither dead nor
-- draining.
abbrev pub Readable : MetadataFsm → List String → String → Type 0
Readable s reps a =
    (n : String) × (node : NodeEntry) × (contains reps n ≡ true)
    × (lookup n s.node_registry ≡ some node)
    × (serves node ≡ true)
    × (node.address ≡ a)

-- Every address that `GetFile` gives a client for a chunk is such an address.
pub resolved_addrs_sound :
    (s : MetadataFsm) (reps : List String) (a : String)
    → contains (resolved_addrs s reps) a ≡ true
    → Readable s reps a
unfolding resolved_addrs
resolved_addrs_sound s [] a h = absurd (ground arith)
resolved_addrs_sound s (rep ∷ reps) a h = elim (Option-cases (lookup rep s.node_registry)) [
  | inl gone ↦
      let (n, node, m, k, r, e) = resolved_addrs_sound s reps a (ground arith) in
      (n, node, ground arith, k, r, e)
  | inr (node, here) ↦ elim (Bool-cases (serves node && node.address == a)) [
    | inl yes' ↦ (rep, node, ground arith, here, ground arith, ground arith)
    | inr no' ↦
        let (n, node', m, k, r, e) = resolved_addrs_sound s reps a (ground arith) in
        (n, node', ground arith, k, r, e)
  ]
]
