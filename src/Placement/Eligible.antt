-- ===== src/Placement/Eligible.antt =====
-- Which nodes are candidates of a selection.
use mathlib.Core.Path.{subst}
use distributed_fs.Common.{
  ℕ, ◌≤◌, Bool, true, false, not, List, [], ◌∷◌, ◌≡◌, ◌↔◌, ◌⊎◌, refl, inl, inr, arith, leb,
  contains, Bool-cases, if◌then◌else◌,
}
use distributed_fs.Fsm.Types.{NodeEntry}
use distributed_fs.Placement.Strategy.{
  keep_spacious, filter_by_min_space, skipped, filter_nodes, candidates,
}

-- A node of a list.
abbrev pub Elem : NodeEntry → List NodeEntry → Type 0
Elem n [] = ⊥
Elem n (x ∷ xs) = (x ≡ n) ⊎ Elem n xs

module _ (p : NodeEntry → Bool) where
  keep : List NodeEntry → List NodeEntry
  keep [] = []
  keep (x ∷ xs) = let rest = keep xs in if p x then x ∷ rest else rest

  module _ (n x : NodeEntry) (xs rest : List NodeEntry) where
    keep_sound :
        (b : Bool)
        → p x ≡ b
        → (Elem n rest → Elem n xs × (p n ≡ true))
        → Elem n (if b then x ∷ rest else rest)
        → Elem n (x ∷ xs) × (p n ≡ true)
    keep_sound true e ih (inl q) = (inl q, subst (λ y. p y ≡ true) q e)
    keep_sound true e ih (inr m) = (inr (ih m).0, (ih m).1)
    keep_sound false e ih m = (inr (ih m).0, (ih m).1)

    keep_complete :
        (b : Bool)
        → p x ≡ b
        → (Elem n xs → p n ≡ true → Elem n rest)
        → Elem n (x ∷ xs)
        → p n ≡ true
        → Elem n (if b then x ∷ rest else rest)
    keep_complete true e ih (inl q) r = inl q
    keep_complete true e ih (inr m) r = inr (ih m r)
    keep_complete false e ih (inl q) r = absurd (differ (subst (λ y. p y ≡ false) q e) r)
      where
        differ : p n ≡ false → p n ≡ true → ⊥
        differ u v = cc
    keep_complete false e ih (inr m) r = ih m r

  Elem-keep : (n : NodeEntry) (xs : List NodeEntry) → Elem n (keep xs) ↔ (Elem n xs × (p n ≡ true))
  unfolding keep
  Elem-keep n [] = (λ h. absurd h, λ h. absurd h.0)
  Elem-keep n (x ∷ xs) =
      let ih = Elem-keep n xs in
      (
        keep_sound n x xs (keep xs) (p x) refl ih.0,
        λ h. keep_complete n x xs (keep xs) (p x) refl (λ m r. ih.1 (m, r)) h.0 h.1,
      )

filter_nodes-keep :
    (ns exclude : List NodeEntry)
    → filter_nodes ns exclude ≡ keep (λ n. not (contains (skipped exclude) n.node_id)) ns
unfolding filter_nodes keep
filter_nodes-keep [] exclude = refl
filter_nodes-keep (n ∷ ns) exclude = ground (arith, filter_nodes-keep ns exclude)

keep_spacious-keep :
    (m : ℕ) (ns : List NodeEntry) → keep_spacious m ns ≡ keep (λ n. leb m n.free_space) ns
unfolding keep_spacious keep
keep_spacious-keep m [] = refl
keep_spacious-keep m (n ∷ ns) = ground (arith, keep_spacious-keep m ns)

Elem-filter_nodes :
    (n : NodeEntry) (ns exclude : List NodeEntry)
    → Elem n (filter_nodes ns exclude)
      ↔ (Elem n ns × (not (contains (skipped exclude) n.node_id) ≡ true))
Elem-filter_nodes n ns exclude =
    rw (filter_nodes-keep ns exclude)
      (Elem-keep (λ x. not (contains (skipped exclude) x.node_id)) n ns)

-- The candidates are exactly the offered nodes that are not excluded and have the space asked for.
pub candidates_exact :
    (n : NodeEntry) (ns : List NodeEntry) (min_space : ℕ) (exclude : List NodeEntry)
    → Elem n (candidates ns min_space exclude)
      ↔ (Elem n ns × (contains (skipped exclude) n.node_id ≡ false) × (min_space ≤ n.free_space))
unfolding filter_by_min_space
candidates_exact n ns m exclude =
    let f = Elem-filter_nodes n ns exclude in
    let k : Elem n (keep_spacious m (filter_nodes ns exclude))
        ↔ (Elem n (filter_nodes ns exclude) × (leb m n.free_space ≡ true)) =
      rw keep_spacious-keep (Elem-keep (λ x. leb m x.free_space) n (filter_nodes ns exclude)) in
    elim (Bool-cases (leb m 0)) [
      | inl e ↦
          rw e (
            λ h. ((f.0 h).0, ground (arith, (f.0 h).1), ground arith),
            λ h. f.1 (h.0, ground arith),
          )
      | inr e ↦ rw e (
        λ h. let x = k.0 h in ((f.0 x.0).0, ground (arith, (f.0 x.0).1), ground (arith, x.1)),
        λ h. k.1 (f.1 (h.0, ground arith), ground arith),
      )
    ]
