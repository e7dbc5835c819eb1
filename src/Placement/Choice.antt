-- ===== src/Placement/Choice.antt =====
-- What a strategy owes its callers, and that a selection by sorting pays it: enough nodes or an
-- error, and the best ones.
use mathlib.Core.List.{Perm}
use distributed_fs.Common.{
  zero, suc, not, ◌&&◌, ◌||◌, [], ◌==◌, leb, contains, if◌then◌else◌, sym, All, ℕ, ◌≤◌, ◌<◌, Bool,
  false, List, ◌∷◌, ◌++◌, ◌≡◌, refl, none, some, arith, ltb, length, length-take, drop,
  take-append-drop,
}
use distributed_fs.Fsm.Types.{NodeEntry}
use distributed_fs.Placement.Sorting.{
  sort, sort-Perm, IsOrder, sort-IsSorted, length-sort, sorted-take-drop, IsSorted, take-IsSorted,
}
use distributed_fs.Placement.Strategy.{
  Selection, PlacementStrategy, more_free, less_free, fewer_chunks, more_chunks, candidates,
  skipped, filter_nodes, keep_spacious, filter_by_min_space, select_by, not_enough_nodes,
}
use distributed_fs.Placement.Eligible.{Elem}

pub more_free-IsOrder : IsOrder more_free
more_free-IsOrder = record { asym = λ x y h. ground arith; trans = λ x y z h k. ground arith }

pub less_free-IsOrder : IsOrder less_free
less_free-IsOrder = record { asym = λ x y h. ground arith; trans = λ x y z h k. ground arith }

pub fewer_chunks-IsOrder : IsOrder fewer_chunks
fewer_chunks-IsOrder = record { asym = λ x y h. ground arith; trans = λ x y z h k. ground arith }

pub more_chunks-IsOrder : IsOrder more_chunks
more_chunks-IsOrder = record { asym = λ x y h. ground arith; trans = λ x y z h k. ground arith }

-- The node is one of the excluded ones, by its ID.
abbrev pub is_excluded : List NodeEntry → NodeEntry → Bool
is_excluded [] n = false
is_excluded (x ∷ xs) n = x.node_id == n.node_id || is_excluded xs n

-- The nodes that a selection may take, in their order: not excluded, and with the space asked for.
abbrev pub allowed : List NodeEntry → ℕ → List NodeEntry → List NodeEntry
allowed [] min_space exclude = []
allowed (n ∷ ns) min_space exclude =
    if not (is_excluded exclude n) && leb min_space n.free_space
    then n ∷ allowed ns min_space exclude
    else allowed ns min_space exclude

skipped_exact :
    (exclude : List NodeEntry) (n : NodeEntry)
    → contains (skipped exclude) n.node_id ≡ is_excluded exclude n
skipped_exact [] n = refl
skipped_exact (x ∷ xs) n = ground (arith, skipped_exact xs n)

unfiltered :
    (ns : List NodeEntry) (exclude : List NodeEntry)
    → filter_nodes ns exclude ≡ allowed ns 0 exclude
unfolding filter_nodes
unfiltered [] exclude = refl
unfiltered (n ∷ ns) exclude = ground (arith, unfiltered ns exclude, skipped_exact exclude n)

spacious :
    (ns : List NodeEntry) (m : ℕ) (exclude : List NodeEntry)
    → keep_spacious m (filter_nodes ns exclude) ≡ allowed ns m exclude
unfolding keep_spacious filter_nodes
spacious [] m exclude = refl
spacious (n ∷ ns) m exclude = ground (arith, spacious ns m exclude, skipped_exact exclude n)

candidates-allowed :
    (ns : List NodeEntry) (m : ℕ) (exclude : List NodeEntry)
    → candidates ns m exclude ≡ allowed ns m exclude
unfolding filter_by_min_space
candidates-allowed ns zero exclude = unfiltered ns exclude
candidates-allowed ns (suc m) exclude = ground (arith, spacious ns (suc m) exclude)

-- A selection of `count` nodes, in the order of preference, such that no other that is allowed comes
-- before any of them.
pub record IsBest (less : NodeEntry → NodeEntry → Bool) (cands : List NodeEntry) (count : ℕ)
    (picked : List NodeEntry) : Type 0 where
  pub enough : length picked ≡ count
  pub sorted : IsSorted less picked
  pub rest : List NodeEntry
  pub all : Perm (picked ++ rest) cands
  pub best : All (λ x. All (λ y. less y x ≡ false) rest) picked

module _ (less : NodeEntry → NodeEntry → Bool) (o : IsOrder less) where
  -- With enough candidates a selection succeeds with the best of them.
  select_by-IsBest :
      (cands : List NodeEntry) (count : ℕ)
      → count ≤ length cands
      → ((select_by less cands count).1 ≡ none)
        × IsBest less cands count (select_by less cands count).0
  unfolding select_by
  select_by-IsBest cands count h =
      let s = sort less cands in
      let l = length-sort less cands in
      let ok' : ltb (length s) count ≡ false = ground (arith, l) in
      rw ok' (
        refl,
        record {
          enough = length-take count s (omega (arith, l));
          sorted = take-IsSorted less count s (sort-IsSorted less o cands);
          rest = drop count s;
          all = rw (take-append-drop count s) (sort-Perm less cands);
          best = sorted-take-drop less count s (sort-IsSorted less o cands);
        },
      )

  select_by_short :
      (cands : List NodeEntry) (count : ℕ)
      → length cands < count
      → (select_by less cands count).1 ≡ some (not_enough_nodes count (length cands))
  unfolding select_by
  select_by_short cands count h = ground (arith, length-sort less cands)

-- What a selection function owes its callers, for the order by which it prefers nodes.
pub record Selects (less : NodeEntry → NodeEntry → Bool)
    (select : List NodeEntry → ℕ → ℕ → List NodeEntry → Selection) : Type 0 where
  pub enough :
      (nodes exclude : List NodeEntry) (min_space count : ℕ)
      → count ≤ length (allowed nodes min_space exclude)
      → ((select nodes min_space count exclude).1 ≡ none)
        × IsBest less
            (allowed nodes min_space exclude)
            count
            (select nodes min_space count exclude).0
  pub short :
      (nodes exclude : List NodeEntry) (min_space count : ℕ)
      → length (allowed nodes min_space exclude) < count
      → (select nodes min_space count exclude).1
        ≡ some (not_enough_nodes count (length (allowed nodes min_space exclude)))

-- A node of the list before which no other comes.
pub record IsFirst (less : NodeEntry → NodeEntry → Bool) (ns : List NodeEntry) (n : NodeEntry)
    : Type 0 where
  pub listed : Elem n ns
  pub first : All (λ y. less y n ≡ false) ns

-- The contract of a `PlacementStrategy`: which order it prefers, both ways.
pub record IsStrategy (p : PlacementStrategy) (better worse : NodeEntry → NodeEntry → Bool)
    : Type 0 where
  pub forward : Selects better p.select_nodes
  pub backward : Selects worse p.select_node_reverse
  pub primary :
      (n : NodeEntry) (ns : List NodeEntry) → IsFirst better (n ∷ ns) (p.select_primary (n ∷ ns))

pub select_by-Selects :
    (less : NodeEntry → NodeEntry → Bool)
    → IsOrder less
    → Selects less (λ ns m count exclude. select_by less (candidates ns m exclude) count)
select_by-Selects less o = record {
  enough = λ ns exclude m count h. rw (sym (candidates-allowed ns m exclude)) (
      select_by-IsBest less o (candidates ns m exclude) count
        (rw (candidates-allowed ns m exclude) h));
  short = λ ns exclude m count h. rw (sym (candidates-allowed ns m exclude)) (
      select_by_short less o (candidates ns m exclude) count
        (rw (candidates-allowed ns m exclude) h));
}
