-- ===== src/Fsm/Invariant/Normal.antt =====
-- `normalizeReplicaNodeIDs` never lists a node twice.
use distributed_fs.Common.{
  String, List, [], ◌∷◌, ◌++◌, ◌≡◌, false, arith, contains, IsDistinct, contains-append,
  append-IsDistinct,
}
use distributed_fs.Fsm.State.{MetadataFsm}
use distributed_fs.Fsm.Handlers.Chunks.{
  normalize_entry, normalize_from, normalize_replica_node_ids, resolve_address,
}

-- `seen` holds what `normalized` holds.
record Agree (acc : List String × List String) : Type 0 where
  same : (v : String) → contains acc.0 v ≡ contains acc.1 v
  distinct : IsDistinct acc.0

push :
    (n seen : List String) (e : String)
    → Agree (n, seen)
    → contains seen e ≡ false
    → Agree (n ++ e ∷ [], e ∷ seen)
push n seen e h f = record {
  same = λ v. ground (arith, contains-append n (e ∷ []) v, h.same v);
  distinct = append-IsDistinct n e (ground (arith, h.same e)) h.distinct;
}

entry-Agree :
    (s : MetadataFsm) (e : String) (acc : List String × List String)
    → Agree acc
    → Agree (normalize_entry s e acc)
unfolding normalize_entry
entry-Agree s e (n, seen) h =
    ground (arith, push n seen e h, push n seen (resolve_address s.node_registry e) h)

from-Agree :
    (s : MetadataFsm) (raw : List String) (acc : List String × List String)
    → Agree acc
    → Agree (normalize_from s raw acc)
unfolding normalize_from
from-Agree s [] acc h = h
from-Agree s (e ∷ raw) acc h = from-Agree s raw (normalize_entry s e acc) (entry-Agree s e acc h)

pub normalize_replica_node_ids-IsDistinct :
    (s : MetadataFsm) (raw : List String) → IsDistinct (normalize_replica_node_ids s raw)
unfolding normalize_replica_node_ids
normalize_replica_node_ids-IsDistinct s raw =
    (from-Agree s raw ([], []) (record { same = λ v. ground arith; distinct = tt })).distinct
