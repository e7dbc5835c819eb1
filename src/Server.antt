-- ===== src/Server.antt =====
-- metadata/server: the gRPC handlers of the metadata service. A status is its code and the leader
-- address in its trailer; its message is not modelled. Sizes of requests are natural numbers: a
-- negative chunk size is given as 0, which is refused as well.
use distributed_fs.Common.{
  ℕ, String, Bool, true, false, List, [], ◌∷◌, Option, none, some, ◌==◌, length, ltb, if◌then◌else◌,
}
use distributed_fs.Common.Registry.{Registry}
use distributed_fs.Fsm.Commands.{Command}
use distributed_fs.Fsm.State.{MetadataFsm, ok, err, get_metadata_node_by_raft_addr}
use distributed_fs.Placement.Strategy.{PlacementStrategy}
use distributed_fs.Scheduler.State.{World, Env, propose}
pub mod Nodes
pub mod Files
pub mod Chunks
pub mod Requests
pub mod Keeps
pub mod Placed
pub mod Available
pub mod Config

pub data Code : Type 0 where
  not_found : Code
  already_exists : Code
  invalid_argument : Code
  internal : Code
  unavailable : Code
  failed_precondition : Code
  unknown : Code

-- A response, or a status with the trailer `x-leader-grpc-addr`.
pub data Reply {ℓ} (A : Type ℓ) : Type ℓ where
  reply : A → Reply A
  status : Code → Option String → Reply A

-- `HandlerDeps`, with what Raft says of its leader. The state machine and the scheduler are in the
-- `World`; the watcher and the reconciler are in the modules of those names.
pub record HandlerDeps : Type 0 where
  pub env : Env
  pub is_leader : Bool
  pub leader_address : String
  pub target_placement : PlacementStrategy
  pub replication_factor : ℕ
  pub new_file_id : String

-- What the handlers change: the world, the heartbeats counted, and the timers of the reconciler,
-- with the inventory that each will compare.
pub record Service : Type 0 where
  pub world : World
  pub heartbeats_count : Registry ℕ
  pub timers : Registry (List String)

abbrev pub Handler : Type 0 → Type 0
Handler A = Service → Service × Reply A

unfoldable pub leader_redirect {ℓ} : {A : Type ℓ} → HandlerDeps → MetadataFsm → Reply A
leader_redirect d s =
    if d.leader_address == ""
    then status unavailable none
    else elim (get_metadata_node_by_raft_addr s d.leader_address) [
      | ok n ↦ status failed_precondition (some n.grpc_addr)
      | err _ ↦ status failed_precondition none
    ]

-- `if !h.isLeader() { return nil, h.leaderRedirect(ctx) }`, and then the handler.
unfoldable pub on_leader : {A : Type 0} → HandlerDeps → Handler A → Handler A
on_leader d handler v = if d.is_leader then handler v else (v, leader_redirect d v.world.fsm)

-- A proposal whose error is an internal error, and what follows a success.
unfoldable pub proposing : {A : Type 0} → HandlerDeps → Command → Handler A → Handler A
proposing d c next v =
    let (w, e) = propose d.env c v.world in
    let v' = record v { world = w } in
    elim e [ some _ ↦ (v', status internal none) | none ↦ next v' ]
