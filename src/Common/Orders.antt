-- ===== src/Common/Orders.antt =====
-- What a permutation of a list keeps.
use mathlib.Core.Bool.{Bool, false, ◌||◌}
use mathlib.Core.List.{List, [], ◌∷◌, ◌++◌, Permᴰ, map}
use mathlib.Core.Logic.{◌⊎◌, inl, inr}
use mathlib.Core.Path.{◌≡◌, refl, subst, ◌∙◌}
use native.Mathlib.Omega.{arith}
use distributed_fs.Common.Lists.{All, length}

module _ {A : Type 0} where
  abbrev pub any : (A → Bool) → List A → Bool
  any p [] = false
  any p (x ∷ xs) = p x || any p xs

  pub Perm-All : (P : A → Type 0) {xs ys : List A} → Permᴰ xs ys → All P xs → All P ys
  Perm-All P Permᴰ.nil h = h
  Perm-All P (Permᴰ.cons e r) h = (subst P e h.0, Perm-All P r h.1)
  Perm-All P (Permᴰ.swap e f) h = (subst P f h.1.0, (subst P e h.0, h.1.1))
  Perm-All P (Permᴰ.trans r s) h = Perm-All P s (Perm-All P r h)

  pub Perm-any : (p : A → Bool) {xs ys : List A} → Permᴰ xs ys → any p xs ≡ any p ys
  Perm-any p Permᴰ.nil = refl
  Perm-any p (Permᴰ.cons e r) = ground (arith, e, Perm-any p r)
  Perm-any p (Permᴰ.swap e f) = ground (arith, e, f)
  Perm-any p (Permᴰ.trans r s) = Perm-any p r ∙ Perm-any p s

  pub Perm-length : {xs ys : List A} → Permᴰ xs ys → length xs ≡ length ys
  Perm-length Permᴰ.nil = refl
  Perm-length (Permᴰ.cons e r) = omega (arith, Perm-length r)
  Perm-length (Permᴰ.swap e f) = refl
  Perm-length (Permᴰ.trans r s) = Perm-length r ∙ Perm-length s

module _ {A : Type 0} where
  -- An element of a list.
  abbrev pub IsIn : List A → A → Type 0
  IsIn [] x = ⊥
  IsIn (y ∷ ys) x = (y ≡ x) ⊎ IsIn ys x

  pub IsIn-append-left : (xs ys : List A) (x : A) → IsIn xs x → IsIn (xs ++ ys) x
  IsIn-append-left [] ys x h = absurd h
  IsIn-append-left (y ∷ xs) ys x (inl e) = inl e
  IsIn-append-left (y ∷ xs) ys x (inr h) = inr (IsIn-append-left xs ys x h)

  pub IsIn-append-right : (xs ys : List A) (x : A) → IsIn ys x → IsIn (xs ++ ys) x
  IsIn-append-right [] ys x h = h
  IsIn-append-right (y ∷ xs) ys x h = inr (IsIn-append-right xs ys x h)

module _ {A B : Type 0} where
  pub Perm-tagged :
      (b : A → B) (xs : List A) → Permᴰ xs (map {A = A × B} (λ w. w.0) (map (λ x. (x, b x)) xs))
  Perm-tagged b [] = Permᴰ.nil
  Perm-tagged b (x ∷ xs) = Permᴰ.cons refl (Perm-tagged b xs)

  pub tagged-Perm :
      (b : A → B) (xs : List A) → Permᴰ (map {A = A × B} (λ w. w.0) (map (λ x. (x, b x)) xs)) xs
  tagged-Perm b [] = Permᴰ.nil
  tagged-Perm b (x ∷ xs) = Permᴰ.cons refl (tagged-Perm b xs)

pub Perm-same : {A : Type 0} (xs : List A) → Permᴰ xs xs
Perm-same [] = Permᴰ.nil
Perm-same (x ∷ xs) = Permᴰ.cons refl (Perm-same xs)
