-- ===== src/Placement/Strategy.antt =====
-- metadata/placement/strategy.go: the two strategies, and the interface that their clients take.
use distributed_fs.Common.{
  ℕ, String, Bool, List, [], ◌∷◌, Option, none, some, ltb, leb, nat_eq, contains, length, take,
  if◌then◌else◌,
}
use distributed_fs.Fsm.Types.{NodeEntry, NodeStatus}
use distributed_fs.Placement.Sorting.{sort}

-- "there are not enough nodes: required_nodes= %d, have= %d"
pub data PlacementError : Type 0 where
  not_enough_nodes : ℕ → ℕ → PlacementError

-- Both results of a selection are set: the candidates come with the error.
abbrev pub Selection : Type 0
Selection = List NodeEntry × Option PlacementError

-- `nodes`, `minSpace`, `count` and `exclude`; the chunk ID is not used by any strategy.
pub record PlacementStrategy : Type 0 where
  pub select_nodes : List NodeEntry → ℕ → ℕ → List NodeEntry → Selection
  pub select_node_reverse : List NodeEntry → ℕ → ℕ → List NodeEntry → Selection
  pub select_primary : List NodeEntry → NodeEntry

-- `SortByMostFreeSpace.Less`.
abbrev pub more_free : NodeEntry → NodeEntry → Bool
more_free a b =
    if nat_eq a.free_space b.free_space
    then ltb a.chunk_count b.chunk_count
    else ltb b.free_space a.free_space

-- `sort.Reverse`.
abbrev pub less_free : NodeEntry → NodeEntry → Bool
less_free a b = more_free b a

abbrev pub fewer_chunks : NodeEntry → NodeEntry → Bool
fewer_chunks a b = ltb a.chunk_count b.chunk_count

abbrev pub more_chunks : NodeEntry → NodeEntry → Bool
more_chunks a b = ltb b.chunk_count a.chunk_count

unfoldable pub keep_spacious : ℕ → List NodeEntry → List NodeEntry
keep_spacious min_space [] = []
keep_spacious min_space (n ∷ ns) =
    let rest = keep_spacious min_space ns in if leb min_space n.free_space then n ∷ rest else rest

unfoldable pub filter_by_min_space : List NodeEntry → ℕ → List NodeEntry
unfolding keep_spacious
filter_by_min_space nodes min_space =
    if leb min_space 0 then nodes else keep_spacious min_space nodes

-- The keys of `skipMap`.
abbrev pub skipped : List NodeEntry → List String
skipped [] = []
skipped (n ∷ ns) = n.node_id ∷ skipped ns

unfoldable pub filter_nodes : List NodeEntry → List NodeEntry → List NodeEntry
filter_nodes [] exclude = []
filter_nodes (n ∷ ns) exclude =
    let rest = filter_nodes ns exclude in
    if contains (skipped exclude) n.node_id then rest else n ∷ rest

abbrev pub candidates : List NodeEntry → ℕ → List NodeEntry → List NodeEntry
candidates nodes min_space exclude = filter_by_min_space (filter_nodes nodes exclude) min_space

-- The four selections differ in the order by which they sort.
unfoldable pub select_by : (NodeEntry → NodeEntry → Bool) → List NodeEntry → ℕ → Selection
unfolding sort
select_by less cands count =
    let sorted = sort less cands in
    if ltb (length sorted) count
    then (sorted, some (not_enough_nodes count (length sorted)))
    else (take count sorted, none)

-- `fsm.NodeEntry{}`.
abbrev pub zero_node : NodeEntry
zero_node = record {
  node_id = "";
  address = "";
  status = NodeStatus.unset;
  free_space = 0;
  chunk_count = 0;
  last_seen = 0;
  registered_at = 0;
  updated_at = 0;
}

abbrev pub first_or_zero : List NodeEntry → NodeEntry
first_or_zero [] = zero_node
first_or_zero (n ∷ _) = n

unfoldable pub most_free_primary : List NodeEntry → NodeEntry
unfolding sort
most_free_primary nodes = first_or_zero (sort more_free nodes)

-- The loop that keeps the best node so far.
unfoldable pub least_loaded_from : NodeEntry → List NodeEntry → NodeEntry
least_loaded_from best [] = best
least_loaded_from best (n ∷ ns) = least_loaded_from (if fewer_chunks n best then n else best) ns

unfoldable pub least_loaded_primary : List NodeEntry → NodeEntry
unfolding least_loaded_from
least_loaded_primary [] = zero_node
least_loaded_primary (n ∷ ns) = least_loaded_from n ns

abbrev pub most_free_space_strategy : PlacementStrategy
most_free_space_strategy = record {
  select_nodes = λ nodes min_space count exclude.
      select_by more_free (candidates nodes min_space exclude) count;
  select_node_reverse = λ nodes min_space count exclude.
      select_by less_free (candidates nodes min_space exclude) count;
  select_primary = most_free_primary;
}

abbrev pub least_loaded_strategy : PlacementStrategy
least_loaded_strategy = record {
  select_nodes = λ nodes min_space count exclude.
      select_by fewer_chunks (candidates nodes min_space exclude) count;
  select_node_reverse = λ nodes min_space count exclude.
      select_by more_chunks (candidates nodes min_space exclude) count;
  select_primary = least_loaded_primary;
}
