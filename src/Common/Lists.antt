-- ===== src/Common/Lists.antt =====
-- Lists measured by native numbers, tests of membership and predicates on lists.
use Prim.Native.Nat.{ℕ, zero, suc, ◌+◌, ◌≤◌}
use Prim.Native.String.{String}
use mathlib.Core.Bool.{Bool, false, ◌||◌}
use mathlib.Core.List.{List, [], ◌∷◌, ◌++◌}
use mathlib.Core.Path.{◌≡◌, refl}
use native.Mathlib.Omega.{arith}
use distributed_fs.Common.Tests.{◌==◌, if◌then◌else◌}

module _ {ℓ} {A : Type ℓ} where
  abbrev pub length : List A → ℕ
  length [] = 0
  length (x ∷ xs) = suc (length xs)

  pub length-append : (xs ys : List A) → length (xs ++ ys) ≡ length xs + length ys
  length-append [] ys = omega arith
  length-append (x ∷ xs) ys = omega (arith, length-append xs ys)

module _ {ℓ} {A : Type ℓ} where
  -- `xs[:n]` and `xs[n:]`, for `n` within the length.
  abbrev pub take : ℕ → List A → List A
  take zero xs = []
  take (suc n) [] = []
  take (suc n) (x ∷ xs) = x ∷ take n xs

  abbrev pub drop : ℕ → List A → List A
  drop zero xs = xs
  drop (suc n) [] = []
  drop (suc n) (x ∷ xs) = drop n xs

  pub take-append-drop : (n : ℕ) (xs : List A) → take n xs ++ drop n xs ≡ xs
  take-append-drop zero xs = refl
  take-append-drop (suc n) [] = refl
  take-append-drop (suc n) (x ∷ xs) = rw (take-append-drop n xs)

  pub length-take : (n : ℕ) (xs : List A) → n ≤ length xs → length (take n xs) ≡ n
  length-take zero xs h = refl
  length-take (suc n) [] h = absurd (omega arith)
  length-take (suc n) (x ∷ xs) h = omega (arith, length-take n xs)

abbrev pub snoc {ℓ} : {A : Type ℓ} → List A → A → List A
snoc xs x = xs ++ x ∷ []

-- `slices.Contains`.
abbrev pub contains : List String → String → Bool
contains [] v = false
contains (x ∷ xs) v = x == v || contains xs v

-- No name stands twice.
abbrev pub IsDistinct : List String → Type 0
IsDistinct [] = Unit
IsDistinct (x ∷ xs) = (contains xs x ≡ false) × IsDistinct xs

-- A list without the first occurrence of a name.
abbrev pub remove_first : String → List String → List String
remove_first v [] = []
remove_first v (x ∷ xs) = let rest = remove_first v xs in if x == v then xs else x ∷ rest

pub contains-append :
    (xs ys : List String) (v : String) → contains (xs ++ ys) v ≡ (contains xs v || contains ys v)
contains-append [] ys v = refl
contains-append (x ∷ xs) ys v = ground (arith, contains-append xs ys v)

pub append-IsDistinct :
    (xs : List String) (v : String)
    → contains xs v ≡ false
    → IsDistinct xs
    → IsDistinct (xs ++ v ∷ [])
append-IsDistinct [] v h d = (refl, tt)
append-IsDistinct (x ∷ xs) v h d =
    (ground (arith, contains-append xs (v ∷ []) x), append-IsDistinct xs v (ground arith) d.1)

pub contains-remove_first_ne :
    (xs : List String) (v w : String)
    → (v == w) ≡ false
    → contains (remove_first v xs) w ≡ contains xs w
contains-remove_first_ne [] v w h = refl
contains-remove_first_ne (x ∷ xs) v w h = ground (arith, contains-remove_first_ne xs v w)

pub contains-remove_first_self :
    (xs : List String) (v : String) → IsDistinct xs → contains (remove_first v xs) v ≡ false
contains-remove_first_self [] v d = refl
contains-remove_first_self (x ∷ xs) v d = ground (arith, contains-remove_first_self xs v)

contains_of_remove_first :
    (xs : List String) (v w : String)
    → contains xs w ≡ false
    → contains (remove_first v xs) w ≡ false
contains_of_remove_first [] v w h = refl
contains_of_remove_first (x ∷ xs) v w h = ground (arith, contains_of_remove_first xs v w)

pub remove_first-IsDistinct :
    (v : String) (xs : List String) → IsDistinct xs → IsDistinct (remove_first v xs)
remove_first-IsDistinct v [] d = tt
remove_first-IsDistinct v (x ∷ xs) d =
    ground (arith, contains_of_remove_first xs v x, remove_first-IsDistinct v xs d.1)

module _ {A : Type 0} where
  abbrev pub All : (A → Type 0) → List A → Type 0
  All P [] = Unit
  All P (x ∷ xs) = P x × All P xs

  pub All-append-right : (P : A → Type 0) (xs ys : List A) → All P (xs ++ ys) → All P ys
  All-append-right P [] ys h = h
  All-append-right P (x ∷ xs) ys h = All-append-right P xs ys h.1

  pub All-append-left : (P : A → Type 0) (xs ys : List A) → All P (xs ++ ys) → All P xs
  All-append-left P [] ys h = tt
  All-append-left P (x ∷ xs) ys h = (h.0, All-append-left P xs ys h.1)
