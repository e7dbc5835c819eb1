-- ===== src/Storage/Disk/Usage.antt =====
-- The sum of a number over the keys of a map.
use distributed_fs.Common.{
  ℕ, ◌+◌, ◌≤◌, String, true, [], ◌∷◌, ◌≡◌, ◌≢◌, refl, arith, ◌==◌, Bool-cases, inl, inr,
  if◌then◌else◌,
}
use distributed_fs.Common.Registry.{Registry, lookup, insert, delete, has, HasUniqueKeys}

module _ {V : Type 0} where
  -- The sum of `f` over the keys.
  unfoldable pub usage : (String → ℕ) → Registry V → ℕ
  usage f [] = 0
  usage f ((k, _) ∷ m) = f k + usage f m

  -- What a key adds.
  abbrev pub share : (String → ℕ) → String → Registry V → ℕ
  share f c m = if has c m then f c else 0

  pub usage_ext :
      (f g : String → ℕ) (m : Registry V)
      → HasUniqueKeys m
      → ((k : String) → has k m ≡ true → f k ≡ g k)
      → usage f m ≡ usage g m
  unfolding usage lookup
  usage_ext f g [] u h = refl
  usage_ext f g ((k, v) ∷ m) u h =
      ground (arith, h k, usage_ext f g m u.1 (λ j e. h j (ground arith)))

  pub share-le-usage : (f : String → ℕ) (c : String) (m : Registry V) → share f c m ≤ usage f m
  unfolding usage lookup
  share-le-usage f c [] = omega arith
  share-le-usage f c ((k, v) ∷ m) = ground (arith, share-le-usage f c m)

  pub usage-insert :
      (f g : String → ℕ) (c : String) (v : V) (m : Registry V)
      → HasUniqueKeys m
      → ((k : String) → has k m ≡ true → k ≢ c → f k ≡ g k)
      → usage g (insert c v m) + share f c m ≡ usage f m + g c
  unfolding usage insert lookup
  usage-insert f g c v [] u h = omega arith
  usage-insert f g c v ((k, w) ∷ m) u h = elim (Bool-cases (k == c)) [
    | inl here ↦
        let same = usage_ext f g m u.1 (λ j e. h j (ground arith) (ground arith)) in
        ground (arith, same)
    | inr other ↦
        let rest = usage-insert f g c v m u.1 (λ j e n. h j (ground arith) n) in
        let this = h k (ground arith) (ground arith) in ground (arith, rest, this)
  ]

  pub usage-delete :
      (f : String → ℕ) (c : String) (m : Registry V)
      → HasUniqueKeys m
      → usage f (delete c m) + share f c m ≡ usage f m
  unfolding usage delete lookup
  usage-delete f c [] u = omega arith
  usage-delete f c ((k, w) ∷ m) u = ground (arith, usage-delete f c m u.1)
