-- ===== src/Storage/Sender/Quorum.antt =====
-- When the fan-out reports that a majority has the chunk.
use mathlib.Core.List.{append_assoc, append-nil}
use distributed_fs.Common.{
  ℕ, zero, suc, ◌≤◌, take, leb, ◌*◌, ◌<◌, String, Bool, true, false, List, [], ◌∷◌, ◌++◌, ◌≡◌, ◌↔◌,
  arith, length, snoc,
}
use distributed_fs.Storage.Sender.{
  Reported, replica, timed_out, collect_results, replicate_to_nodes,
}

-- The results that come before the time is over, with whether the replica succeeded.
abbrev pub in_time : List Reported → List (String × Bool)
in_time [] = []
in_time (timed_out ∷ rs) = []
in_time (replica addr good ∷ rs) = (addr, good) ∷ in_time rs

-- The addresses of those that succeeded.
abbrev pub good_of : List (String × Bool) → List String
good_of [] = []
good_of ((addr, true) ∷ rs) = addr ∷ good_of rs
good_of ((addr, false) ∷ rs) = good_of rs

collected :
    (n : ℕ) (rs : List Reported) (nodes : List String)
    → collect_results n rs nodes
      ≡ (nodes ++ good_of (take n (in_time rs)), leb n (length (in_time rs)))
unfolding collect_results
collected zero rs nodes = ground (arith, append-nil nodes)
collected (suc n) [] nodes = ground (arith, append-nil nodes)
collected (suc n) (timed_out ∷ rs) nodes = ground (arith, append-nil nodes)
collected (suc n) (replica addr true ∷ rs) nodes = ground (
  arith,
  collected n rs (snoc nodes addr),
  append_assoc nodes (addr ∷ []) (good_of (take n (in_time rs))),
)
collected (suc n) (replica addr false ∷ rs) nodes = ground (arith, collected n rs nodes)

-- With some target, the fan-out takes as many results as there are targets, as far as they come in
-- time. It returns the nodes that succeeded among these, and no error exactly if as many results as
-- there are targets came in time and more than half of the targets succeeded. So a result that is
-- missing when the time is over makes it an error, also when a majority has succeeded.
pub replicate_to_nodes-quorum :
    (targets : List String) (rs : List Reported)
    → 0 < length targets
    → let good = good_of (take (length targets) (in_time rs)) in
      ((replicate_to_nodes targets rs).0 ≡ good)
      × (((replicate_to_nodes targets rs).1 ≡ true)
          ↔ ((length targets ≤ length (in_time rs)) × (length targets < 2 * length good)))
unfolding replicate_to_nodes
replicate_to_nodes-quorum targets rs p = (
  ground (arith, p, collected (length targets) rs []),
  (
    λ h. ground (arith, p, h, collected (length targets) rs []),
    λ h. ground (arith, p, h, collected (length targets) rs []),
  ),
)
