-- ===== src/Placement/Sorting.antt =====
-- Go's `sort`, as insertion by a test `less`. Items of which neither is less may come in another
-- order than in Go; what is proved holds of either order.
use mathlib.Core.List.{Perm}
use mathlib.Core.List.Perm
use distributed_fs.Common.{
  All, ℕ, suc, zero, Bool, true, false, List, [], ◌∷◌, ◌≡◌, refl, ap, ◌∙◌, inl, inr, arith, length,
  take, drop, Bool-cases, if◌then◌else◌,
}

module _ {ℓ} {A : Type ℓ} (less : A → A → Bool) where
  unfoldable pub insert_sorted : A → List A → List A
  insert_sorted x [] = x ∷ []
  insert_sorted x (y ∷ ys) =
      let rest = insert_sorted x ys in if less y x then y ∷ rest else x ∷ y ∷ ys

  unfoldable pub sort : List A → List A
  unfolding insert_sorted
  sort [] = []
  sort (x ∷ xs) = insert_sorted x (sort xs)

module _ {A : Type 0} (less : A → A → Bool) where
  insert-Perm : (x : A) (ys : List A) → Perm (insert_sorted less x ys) (x ∷ ys)
  unfolding insert_sorted
  insert-Perm x [] = Perm.refl (x ∷ [])
  insert-Perm x (y ∷ ys) = elim (Bool-cases (less y x)) [
    | inl e ↦ rw e (Perm.trans (Perm.cons y (insert-Perm x ys)) (Perm.swap x y ys))
    | inr e ↦ rw e (Perm.refl (x ∷ y ∷ ys))
  ]

  pub sort-Perm : (xs : List A) → Perm (sort less xs) xs
  unfolding sort
  sort-Perm [] = Perm.refl []
  sort-Perm (x ∷ xs) = Perm.trans (insert-Perm x (sort less xs)) (Perm.cons x (sort-Perm xs))

  insert-All :
      (P : A → Type 0) (x : A) (ys : List A) → P x → All P ys → All P (insert_sorted less x ys)
  unfolding insert_sorted
  insert-All P x [] px h = (px, tt)
  insert-All P x (y ∷ ys) px h = elim (Bool-cases (less y x)) [
    | inl e ↦ rw e (h.0, insert-All P x ys px h.1)
    | inr e ↦ rw e (px, h)
  ]

  pub sort-All : (P : A → Type 0) (xs : List A) → All P xs → All P (sort less xs)
  unfolding sort
  sort-All P [] h = tt
  sort-All P (x ∷ xs) h = insert-All P x (sort less xs) h.0 (sort-All P xs h.1)

  insert-All_back :
      (P : A → Type 0) (x : A) (ys : List A) → All P (insert_sorted less x ys) → P x × All P ys
  unfolding insert_sorted
  insert-All_back P x [] h = h
  insert-All_back P x (y ∷ ys) h = go (insert-All_back P x ys) (less y x) h
    where
      go :
          (All P (insert_sorted less x ys) → P x × All P ys)
          → (b : Bool) → All P (if b then y ∷ insert_sorted less x ys else x ∷ y ∷ ys)
          → P x × All P (y ∷ ys)
      go ih true k = ((ih k.1).0, (k.0, (ih k.1).1))
      go ih false k = (k.0, k.1)

  pub sort-All_back : (P : A → Type 0) (xs : List A) → All P (sort less xs) → All P xs
  unfolding sort
  sort-All_back P [] h = tt
  sort-All_back P (x ∷ xs) h =
      let k = insert-All_back P x (sort less xs) h in (k.0, sort-All_back P xs k.1)

  insert-length : (x : A) (ys : List A) → length (insert_sorted less x ys) ≡ suc (length ys)
  unfolding insert_sorted
  insert-length x [] = refl
  insert-length x (y ∷ ys) = ground (arith, insert-length x ys)

  pub length-sort : (xs : List A) → length (sort less xs) ≡ length xs
  unfolding sort
  length-sort [] = refl
  length-sort (x ∷ xs) = insert-length x (sort less xs) ∙ ap suc (length-sort xs)

  -- No later item is less than an earlier one.
  abbrev pub IsSorted : List A → Type 0
  IsSorted [] = Unit
  IsSorted (x ∷ xs) = All (λ y. less y x ≡ false) xs × IsSorted xs

  -- `less` is a strict weak order, as `sort` demands.
  pub record IsOrder : Type 0 where
    pub asym : (x y : A) → less x y ≡ true → less y x ≡ false
    pub trans : (x y z : A) → less y x ≡ false → less z y ≡ false → less z x ≡ false

  module _ (o : IsOrder) where
    All-trans :
        (x y : A) (ys : List A)
        → less y x ≡ false
        → All (λ z. less z y ≡ false) ys
        → All (λ z. less z x ≡ false) ys
    All-trans x y [] e h = tt
    All-trans x y (z ∷ ys) e h = (o.trans x y z e h.0, All-trans x y ys e h.1)

    insert-IsSorted : (x : A) (ys : List A) → IsSorted ys → IsSorted (insert_sorted less x ys)
    unfolding insert_sorted
    insert-IsSorted x [] h = (tt, tt)
    insert-IsSorted x (y ∷ ys) h = elim (Bool-cases (less y x)) [
      | inl e ↦
          rw e
            (insert-All (λ z. less z y ≡ false) x ys (o.asym y x e) h.0, insert-IsSorted x ys h.1)
      | inr e ↦ rw e ((e, All-trans x y ys e h.0), h)
    ]

    pub sort-IsSorted : (xs : List A) → IsSorted (sort less xs)
    unfolding sort
    sort-IsSorted [] = tt
    sort-IsSorted (x ∷ xs) = insert-IsSorted x (sort less xs) (sort-IsSorted xs)

  -- In a sorted list what is left behind is not less than what is taken.
  pub sorted-take-drop :
      (n : ℕ) (xs : List A)
      → IsSorted xs
      → All (λ x. All (λ y. less y x ≡ false) (drop n xs)) (take n xs)
  sorted-take-drop zero xs h = tt
  sorted-take-drop (suc n) [] h = tt
  sorted-take-drop (suc n) (x ∷ xs) h = (drop-All n xs h.0, sorted-take-drop n xs h.1)
    where
      drop-All :
          (m : ℕ) (ys : List A)
          → All (λ y. less y x ≡ false) ys
          → All (λ y. less y x ≡ false) (drop m ys)
      drop-All zero ys k = k
      drop-All (suc m) [] k = tt
      drop-All (suc m) (y ∷ ys) k = drop-All m ys k.1

  pub take-IsSorted : (n : ℕ) (xs : List A) → IsSorted xs → IsSorted (take n xs)
  take-IsSorted zero xs h = tt
  take-IsSorted (suc n) [] h = tt
  take-IsSorted (suc n) (x ∷ xs) h = (take-All n xs h.0, take-IsSorted n xs h.1)
    where
      take-All :
          (m : ℕ) (ys : List A)
          → All (λ y. less y x ≡ false) ys
          → All (λ y. less y x ≡ false) (take m ys)
      take-All zero ys k = tt
      take-All (suc m) [] k = tt
      take-All (suc m) (y ∷ ys) k = (k.0, take-All m ys k.1)
