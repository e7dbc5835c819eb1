-- ===== src/Common/Positions.antt =====
-- Lists by position: what stands at each place of a slice, of a part of it and after an overwrite.
use Prim.Native.Nat.{ℕ, zero, suc, ◌+◌, ◌-◌, ◌≤◌, ◌<◌}
use mathlib.Core.Logic.{inl, inr}
use mathlib.Core.List.{List, [], ◌∷◌, ◌++◌}
use mathlib.Core.Option.{Option, none, some}
use mathlib.Core.Path.{◌≡◌, refl, ap, ◌∙◌}
use native.Mathlib.Omega.{arith}
use distributed_fs.Common.Tests.{ltb, leb, Bool-cases, if◌then◌else◌}
use distributed_fs.Common.Lists.{length, take, drop, length-append, length-take}

module _ {A : Type 0} where
  abbrev pub get_elem? : List A → ℕ → Option A
  get_elem? [] p = none
  get_elem? (x ∷ xs) zero = some x
  get_elem? (x ∷ xs) (suc p) = get_elem? xs p

  abbrev pub replicate : ℕ → A → List A
  replicate zero x = []
  replicate (suc n) x = x ∷ replicate n x

  pub get_elem?-take :
      (n : ℕ) (xs : List A) (p : ℕ)
      → get_elem? (take n xs) p ≡ (if ltb p n then get_elem? xs p else none)
  get_elem?-take zero xs p = ground arith
  get_elem?-take (suc n) [] p = ground arith
  get_elem?-take (suc n) (x ∷ xs) zero = ground arith
  get_elem?-take (suc n) (x ∷ xs) (suc p) = ground (arith, get_elem?-take n xs p)

  pub get_elem?-drop :
      (n : ℕ) (xs : List A) (p : ℕ) → get_elem? (drop n xs) p ≡ get_elem? xs (n + p)
  get_elem?-drop zero xs p = ground arith
  get_elem?-drop (suc n) [] p = refl
  get_elem?-drop (suc n) (x ∷ xs) p =
      let e : suc n + p ≡ suc (n + p) = omega arith in
      ground (arith, get_elem?-drop n xs p, ap (get_elem? (x ∷ xs)) e)

  pub get_elem?-append :
      (xs ys : List A) (p : ℕ)
      → get_elem? (xs ++ ys) p
        ≡ (if ltb p (length xs) then get_elem? xs p else get_elem? ys (p - length xs))
  get_elem?-append [] ys p = ground arith
  get_elem?-append (x ∷ xs) ys zero = ground arith
  get_elem?-append (x ∷ xs) ys (suc p) = ground (arith, get_elem?-append xs ys p)

  pub get_elem?-beyond : (xs : List A) (p : ℕ) → length xs ≤ p → get_elem? xs p ≡ none
  get_elem?-beyond [] p h = refl
  get_elem?-beyond (x ∷ xs) zero h = absurd (omega arith)
  get_elem?-beyond (x ∷ xs) (suc p) h = get_elem?-beyond xs p (omega arith)

  pub same_elements :
      (xs ys : List A)
      → length xs ≡ length ys
      → ((p : ℕ) → p < length ys → get_elem? xs p ≡ get_elem? ys p)
      → xs ≡ ys
  same_elements [] [] n h = refl
  same_elements [] (y ∷ ys) n h = absurd (omega arith)
  same_elements (x ∷ xs) [] n h = absurd (omega arith)
  same_elements (x ∷ xs) (y ∷ ys) n h = ground (
    arith,
    h 0 (omega arith),
    same_elements xs ys (omega arith) (λ p q. h (suc p) (omega (arith, q))),
  )

  pub length-replicate : (n : ℕ) (x : A) → length (replicate n x) ≡ n
  length-replicate zero x = refl
  length-replicate (suc n) x = omega (arith, length-replicate n x)

  pub length-take_le :
      (n : ℕ) (xs : List A) → length (take n xs) ≡ (if leb n (length xs) then n else length xs)
  length-take_le zero xs = ground arith
  length-take_le (suc n) [] = ground arith
  length-take_le (suc n) (x ∷ xs) = ground (arith, length-take_le n xs)

  pub length-drop_sub : (n : ℕ) (xs : List A) → length (drop n xs) ≡ length xs - n
  length-drop_sub zero xs = omega arith
  length-drop_sub (suc n) [] = omega arith
  length-drop_sub (suc n) (x ∷ xs) = omega (arith, length-drop_sub n xs)

  -- `os.File.WriteAt`: what lies between the end of the file and the offset becomes `blank`.
  unfoldable pub write_at : A → List A → ℕ → List A → List A
  write_at blank file offset [] = file
  write_at blank file offset (b ∷ bs) =
      take offset file
      ++ (replicate (offset - length file) blank
          ++ ((b ∷ bs) ++ drop (offset + length (b ∷ bs)) file))

  -- The bytes that are there keep their places.
  spliced : List A → ℕ → List A → List A
  spliced file offset xs = take offset file ++ (xs ++ drop (offset + length xs) file)

  write_at-spliced :
      (blank : A) (file : List A) (offset : ℕ) (b : A) (bs : List A)
      → offset ≤ length file
      → write_at blank file offset (b ∷ bs) ≡ spliced file offset (b ∷ bs)
  unfolding write_at spliced
  write_at-spliced blank file offset b bs h =
      let inside : offset - length file ≡ 0 = omega arith in rw inside refl

  length-spliced :
      (file : List A) (offset : ℕ) (xs : List A)
      → offset + length xs ≤ length file
      → length (spliced file offset xs) ≡ length file
  unfolding spliced
  length-spliced file offset xs h =
      let rest = drop (offset + length xs) file in
      omega (
        arith,
        length-append (take offset file) (xs ++ rest),
        length-append xs rest,
        length-take offset file (omega arith),
        length-drop_sub (offset + length xs) file,
      )

  get_elem?-spliced :
      (file : List A) (offset : ℕ) (xs : List A) (p : ℕ)
      → offset + length xs ≤ length file
      → get_elem? (spliced file offset xs) p ≡ (
          if ltb p offset
          then get_elem? file p
          else if ltb p (offset + length xs)
          then get_elem? xs (p - offset)
          else get_elem? file p)
  unfolding spliced
  get_elem?-spliced file offset xs p h =
      let rest = drop (offset + length xs) file in
      let fits = length-take offset file (omega arith) in
      let all = get_elem?-append (take offset file) (xs ++ rest) p in
      elim (Bool-cases (ltb p offset)) [
        | inl before ↦ ground (arith, all, fits, before, get_elem?-take offset file p)
        | inr after ↦
            let second = get_elem?-append xs rest (p - offset) in
            elim (Bool-cases (ltb p (offset + length xs))) [
              | inl within ↦ ground (arith, all, fits, after, second, within)
              | inr past ↦
                  let place : offset + length xs + (p - offset - length xs) ≡ p =
                    ground (arith, after, past) in
                  let third = get_elem?-drop (offset + length xs) file (p - offset - length xs) in
                  let third' = third ∙ ap (get_elem? file) place in
                  ground (arith, all, fits, after, second, past, third')
            ]
      ]

  -- Within the file, its length stays, and so do the places outside.
  pub length-write_at :
      (blank : A) (file : List A) (offset : ℕ) (xs : List A)
      → offset + length xs ≤ length file
      → length (write_at blank file offset xs) ≡ length file
  unfolding write_at
  length-write_at blank file offset [] h = refl
  length-write_at blank file offset (b ∷ bs) h =
      ap length (write_at-spliced blank file offset b bs (omega arith))
      ∙ length-spliced file offset (b ∷ bs) h

  pub get_elem?-write_at :
      (blank : A) (file : List A) (offset : ℕ) (xs : List A) (p : ℕ)
      → offset + length xs ≤ length file
      → get_elem? (write_at blank file offset xs) p ≡ (
          if ltb p offset
          then get_elem? file p
          else if ltb p (offset + length xs)
          then get_elem? xs (p - offset)
          else get_elem? file p)
  unfolding write_at
  get_elem?-write_at blank file offset [] p h = ground arith
  get_elem?-write_at blank file offset (b ∷ bs) p h =
      ap (λ f. get_elem? f p) (write_at-spliced blank file offset b bs (omega arith))
      ∙ get_elem?-spliced file offset (b ∷ bs) p h
