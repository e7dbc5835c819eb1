-- ===== src/Fsm/Handlers/Nodes.antt =====
-- The handlers of the storage-node and the metadata-node commands.
use distributed_fs.Common.{ℕ, String, Option, none, some, ltb, if◌then◌else◌}
use distributed_fs.Common.Registry.{lookup, insert, delete}
use distributed_fs.Fsm.Types.{NodeEntry, NodeStatus, MetadataNodeEntry}
use distributed_fs.Fsm.Commands.{
  CommandRegisterNode, CommandDeregisterNode, CommandMarkNodeDead, CommandMarkNodeAlive,
  CommandUpdateNodeSpace, CommandRegisterMetadataNode, CommandDeregisterMetadataNode,
}
use distributed_fs.Fsm.State.{MetadataFsm, FsmError, err_node_not_found, join, ok, err, get_node}

-- The entry is written through the pointer that `GetNode` returned, and then stored under its
-- own `NodeID`.
unfoldable pub handle_register_node :
    CommandRegisterNode → MetadataFsm → MetadataFsm × Option FsmError
handle_register_node req s = elim (get_node s req.node_id) [
  | ok old ↦
      let node = record old {
        address = req.address;
        status = NodeStatus.alive;
        free_space = req.free_space;
        chunk_count = req.chunk_count;
        updated_at = req.created_at;
      } in
      (
        record s {
          node_registry = insert node.node_id node (insert req.node_id node s.node_registry);
        },
        none,
      )
  | err _ ↦
      let node : NodeEntry = record {
        node_id = req.node_id;
        address = req.address;
        status = NodeStatus.alive;
        free_space = req.free_space;
        chunk_count = req.chunk_count;
        last_seen = req.created_at;
        registered_at = req.created_at;
        updated_at = req.created_at;
      } in
      (record s { node_registry = insert node.node_id node s.node_registry }, none)
]

-- `if node.UpdatedAt.Before(t) { node.UpdatedAt = t }`
abbrev pub later : ℕ → ℕ → ℕ
later old t = if ltb old t then t else old

unfoldable pub handle_deregister_node :
    CommandDeregisterNode → MetadataFsm → MetadataFsm × Option FsmError
handle_deregister_node req s = elim (get_node s req.node_id) [
  | err e ↦ (s, some (join "cmdDeregisterNode failed: " e))
  | ok node ↦
      let node' = record node {
        status = NodeStatus.draining;
        updated_at = later node.updated_at req.updated_at;
      } in
      (record s { node_registry = insert req.node_id node' s.node_registry }, none)
]

unfoldable pub handle_mark_node_dead :
    CommandMarkNodeDead → MetadataFsm → MetadataFsm × Option FsmError
handle_mark_node_dead req s = elim (get_node s req.node_id) [
  | err e ↦ (s, some (join "cmdMarkNodeDead failed: " e))
  | ok node ↦
      let node' = record node {
        status = NodeStatus.dead;
        updated_at = later node.updated_at req.updated_at;
      } in
      (record s { node_registry = insert req.node_id node' s.node_registry }, none)
]

unfoldable pub handle_mark_node_alive :
    CommandMarkNodeAlive → MetadataFsm → MetadataFsm × Option FsmError
handle_mark_node_alive req s = elim (get_node s req.node_id) [
  | err e ↦ (s, some (join "cmdMarkNodeAlive failed: " e))
  | ok node ↦
      let node' = record node {
        status = NodeStatus.alive;
        updated_at = later node.updated_at req.updated_at;
      } in
      (record s { node_registry = insert req.node_id node' s.node_registry }, none)
]

unfoldable pub handle_update_node_space :
    CommandUpdateNodeSpace → MetadataFsm → MetadataFsm × Option FsmError
handle_update_node_space req s = elim (get_node s req.node_id) [
  | err e ↦ (s, some (join "cmdUpdateNodeSpace failed: " e))
  | ok node ↦
      let node' = record node {
        free_space = req.free_space;
        chunk_count = req.chunk_count;
        updated_at = later node.updated_at req.updated_at;
      } in
      (record s { node_registry = insert req.node_id node' s.node_registry }, none)
]

unfoldable pub handle_register_metadata_node :
    CommandRegisterMetadataNode → MetadataFsm → MetadataFsm × Option FsmError
handle_register_metadata_node req s =
    let entry : MetadataNodeEntry = record {
      node_id = req.node_id;
      raft_addr = req.raft_addr;
      grpc_addr = req.grpc_addr;
    } in
    (record s { md_node_registry = insert req.raft_addr entry s.md_node_registry }, none)

unfoldable pub handle_deregister_metadata_node :
    CommandDeregisterMetadataNode → MetadataFsm → MetadataFsm × Option FsmError
handle_deregister_metadata_node req s =
    (record s { md_node_registry = delete req.raft_addr s.md_node_registry }, none)

-- `UpdateLastSeen`, which the heartbeat handler calls and the Raft log does not hold.
unfoldable pub update_last_seen : String → ℕ → MetadataFsm → MetadataFsm × Option FsmError
update_last_seen node_id ts s = elim (lookup node_id s.node_registry) [
  | none ↦ (s, some err_node_not_found)
  | some node ↦ (
    record s { node_registry = insert node_id (record node { last_seen = ts }) s.node_registry },
    none,
  )
]
