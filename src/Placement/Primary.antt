-- ===== src/Placement/Primary.antt =====
-- The choice of one node, and the two strategies.
use distributed_fs.Common.{
  All, ◌<◌, Bool, true, false, List, [], ◌∷◌, ◌≡◌, ◌⊎◌, refl, inl, inr, arith, length, Bool-cases,
  if◌then◌else◌,
}
use distributed_fs.Fsm.Types.{NodeEntry}
use distributed_fs.Placement.Sorting.{
  sort, sort-All, sort-All_back, IsSorted, IsOrder, sort-IsSorted, length-sort,
}
use distributed_fs.Placement.Strategy.{
  more_free, less_free, fewer_chunks, more_chunks, most_free_space_strategy, least_loaded_strategy,
  least_loaded_from, least_loaded_primary, most_free_primary, first_or_zero,
}
use distributed_fs.Placement.Eligible.{Elem}
use distributed_fs.Placement.Choice.{
  more_free-IsOrder, less_free-IsOrder, fewer_chunks-IsOrder, more_chunks-IsOrder, IsFirst,
  IsStrategy, select_by-Selects,
}

All-map :
    (P Q : NodeEntry → Type 0) (ns : List NodeEntry)
    → ((n : NodeEntry) → P n → Q n)
    → All P ns
    → All Q ns
All-map P Q [] f h = tt
All-map P Q (n ∷ ns) f h = (f n h.0, All-map P Q ns f h.1)

All-self : (ns : List NodeEntry) → All (λ n. Elem n ns) ns
All-self [] = tt
All-self (n ∷ ns) =
    (inl refl, All-map (λ x. Elem x ns) (λ x. Elem x (n ∷ ns)) ns (λ x m. inr m) (All-self ns))

IsFirst-IsFirst :
    (less : NodeEntry → NodeEntry → Bool) (o : IsOrder less) (ns sorted : List NodeEntry)
    → All (λ x. Elem x ns) sorted
    → IsSorted less sorted
    → 0 < length sorted
    → (All (λ y. less y (first_or_zero sorted) ≡ false) sorted
        → All (λ y. less y (first_or_zero sorted) ≡ false) ns)
    → IsFirst less ns (first_or_zero sorted)
IsFirst-IsFirst less o ns [] h s l back = absurd (omega arith)
IsFirst-IsFirst less o ns (x ∷ xs) h s l back = record {
  listed = h.0;
  first = back (irrefl (Bool-cases (less x x)), s.0);
}
  where
    irrefl : (less x x ≡ true) ⊎ (less x x ≡ false) → less x x ≡ false
    irrefl (inl e) = o.asym x x e
    irrefl (inr e) = e

most_free_primary-IsFirst :
    (n : NodeEntry) (ns : List NodeEntry) → IsFirst more_free (n ∷ ns) (most_free_primary (n ∷ ns))
unfolding most_free_primary
most_free_primary-IsFirst n ns =
    let l = n ∷ ns in
    let s = sort more_free l in
    IsFirst-IsFirst more_free more_free-IsOrder l s
      (sort-All more_free (λ x. Elem x l) l (All-self l))
      (sort-IsSorted more_free more_free-IsOrder l) (omega (arith, length-sort more_free l))
      (sort-All_back more_free (λ y. more_free y (first_or_zero s) ≡ false) l)

least_loaded_from-IsFirst :
    (best : NodeEntry) (ns : List NodeEntry)
    → IsFirst fewer_chunks (best ∷ ns) (least_loaded_from best ns)
unfolding least_loaded_from
least_loaded_from-IsFirst best [] = record { listed = inl refl; first = (ground arith, tt) }
least_loaded_from-IsFirst best (n ∷ ns) =
    go (fewer_chunks n best) refl
      (least_loaded_from-IsFirst (if fewer_chunks n best then n else best) ns)
  where
    go :
        (b : Bool)
        → fewer_chunks n best ≡ b
        → IsFirst fewer_chunks
            ((if b then n else best) ∷ ns)
            (least_loaded_from (if b then n else best) ns)
        → IsFirst fewer_chunks (best ∷ n ∷ ns) (least_loaded_from (if b then n else best) ns)
    go true e h = record { listed = inr h.listed; first = (ground (arith, h.first.0), h.first) }
    go false e h = record {
      listed = skip h.listed;
      first = (h.first.0, (ground (arith, h.first.0), h.first.1));
    }
      where
        skip :
            Elem (least_loaded_from best ns) (best ∷ ns)
            → Elem (least_loaded_from best ns) (best ∷ n ∷ ns)
        skip (inl q) = inl q
        skip (inr m) = inr (inr m)

least_loaded_primary-IsFirst :
    (n : NodeEntry) (ns : List NodeEntry)
    → IsFirst fewer_chunks (n ∷ ns) (least_loaded_primary (n ∷ ns))
unfolding least_loaded_primary
least_loaded_primary-IsFirst n ns = least_loaded_from-IsFirst n ns

-- The strategy of most free space: of the nodes that are allowed it returns the requested number with the
-- most free space, fewer chunks first among equals (the reverse selection the other way round),
-- or an error if there are too few; its primary has the most free space of a list that is not
-- empty.
pub most_free_space-IsStrategy : IsStrategy most_free_space_strategy more_free less_free
most_free_space-IsStrategy = record {
  forward = select_by-Selects more_free more_free-IsOrder;
  backward = select_by-Selects less_free less_free-IsOrder;
  primary = most_free_primary-IsFirst;
}

-- The strategy of least load: of the nodes that are allowed it returns the requested number with the fewest
-- chunks (the reverse selection those with the most), or an error if there are too few; its
-- primary has the fewest chunks of a list that is not empty.
pub least_loaded-IsStrategy : IsStrategy least_loaded_strategy fewer_chunks more_chunks
least_loaded-IsStrategy = record {
  forward = select_by-Selects fewer_chunks fewer_chunks-IsOrder;
  backward = select_by-Selects more_chunks more_chunks-IsOrder;
  primary = least_loaded_primary-IsFirst;
}

-- Both strategies return the requested number of the nodes that are not excluded and have the space
-- asked for, in the order of preference and such that no other such node comes before one of them, or
-- an error if there are too few; the reverse selection does so by the opposite order. The primary is a
-- node of a list that is not empty before which no other comes. The preference is most free space,
-- fewer chunks first among equals, or fewest chunks.
pub strategies-IsStrategy :
    IsStrategy most_free_space_strategy more_free less_free
    × IsStrategy least_loaded_strategy fewer_chunks more_chunks
strategies-IsStrategy = (most_free_space-IsStrategy, least_loaded-IsStrategy)
