-- ===== src/Storage/Retry.antt =====
-- internal/retry/retry.go. A duration is a number of nanoseconds; the delay times the multiplier, in
-- floating point, is a parameter, as are the random numbers, and what the function and the context
-- return at each attempt.
use distributed_fs.Common.{
  ℕ, zero, suc, ◌+◌, ◌-◌, ◌/◌, ◌≤◌, ◌<◌, List, [], ◌∷◌, ◌≡◌, ◌≢◌, Option, none, some, arith, min,
  leb, length, All, if◌then◌else◌, Bool-cases, Option-cases, inl, inr, ltb, ap, ◌∙◌,
}

pub record Policy : Type 0 where
  pub max_attempts : ℕ
  pub base : ℕ
  pub max : ℕ
  pub scaled : ℕ → ℕ

-- What an attempt meets, by its number: the context's error before it and in the sleep after it, the
-- function's error, and the random number under a bound.
pub record Attempts (E : Type 0) : Type 0 where
  pub cancelled : ℕ → Option E
  pub called : ℕ → Option E
  pub cancelled_asleep : ℕ → Option E
  pub random : ℕ → ℕ → ℕ

pub data Done (E : Type 0) : Type 0 where
  succeeded : Done E
  stopped : E → Done E
  exhausted : Option E → Done E

-- The calls of the function, the sleeps, and how `Do` returned.
pub record Tried (E : Type 0) : Type 0 where
  pub calls : ℕ
  pub sleeps : List ℕ
  pub result : Done E

module _ {E : Type 0} (p : Policy) (a : Attempts E) where
  abbrev pub sleep_for : ℕ → ℕ → ℕ
  sleep_for attempt delay =
      let half = delay / 2 in min (delay + (if leb half 0 then 0 else a.random attempt half)) p.max

  -- The loop, with so many attempts left.
  unfoldable pub try_from : ℕ → ℕ → ℕ → Tried E
  try_from zero attempt delay = record { calls = 0; sleeps = []; result = exhausted none }
  try_from (suc left) attempt delay =
      let rest = try_from left (suc attempt) (min (p.scaled delay) p.max) in
      elim (a.cancelled attempt) [
        | some e ↦ record { calls = 0; sleeps = []; result = stopped e }
        | none ↦ elim (a.called attempt) [
          | none ↦ record { calls = 1; sleeps = []; result = succeeded }
          | some e ↦ elim left [
            | zero ↦ record { calls = 1; sleeps = []; result = exhausted (some e) }
            | suc _ ↦ elim (a.cancelled_asleep attempt) [
              | some x ↦ record {
                calls = 1;
                sleeps = sleep_for attempt delay ∷ [];
                result = stopped x;
              }
              | none ↦ record {
                calls = suc rest.calls;
                sleeps = sleep_for attempt delay ∷ rest.sleeps;
                result = rest.result;
              }
            ]
          ]
        ]
      ]

  unfoldable pub policy_do : Tried E
  policy_do = try_from p.max_attempts 0 p.base

  try_from-bounds :
      (left attempt delay : ℕ)
      → let t = try_from left attempt delay in
        (t.calls ≤ left) × (length t.sleeps ≤ t.calls) × All (λ n. n ≤ p.max) t.sleeps
  unfolding try_from
  try_from-bounds zero attempt delay = ground arith
  try_from-bounds (suc zero) attempt delay = ground arith
  try_from-bounds (suc (suc left)) attempt delay =
      let rest = try_from-bounds (suc left) (suc attempt) (min (p.scaled delay) p.max) in
      ground (arith, rest)

  -- The function is called at most as often as the policy allows, no sleep is longer than the
  -- policy's longest, and there is at most one sleep for each call.
  pub policy_do-bounds :
      (policy_do.calls ≤ p.max_attempts)
      × (length policy_do.sleeps ≤ policy_do.calls)
      × All (λ n. n ≤ p.max) policy_do.sleeps
  unfolding policy_do
  policy_do-bounds = try_from-bounds p.max_attempts 0 p.base

  try_from-succeeds :
      (i left attempt delay : ℕ)
      → ((n : ℕ) → a.cancelled n ≡ none)
      → ((n : ℕ) → a.cancelled_asleep n ≡ none)
      → attempt ≤ i
      → i < attempt + left
      → ((n : ℕ) → n < i → a.called n ≢ none)
      → a.called i ≡ none
      → ((try_from left attempt delay).result ≡ succeeded)
        × ((try_from left attempt delay).calls ≡ suc i - attempt)
  unfolding try_from
  try_from-succeeds i zero attempt delay c s o q f e = absurd (omega arith)
  try_from-succeeds i (suc left) attempt delay c s o q f e = elim (Bool-cases (ltb attempt i)) [
    | inr here ↦ let same : attempt ≡ i = ground (arith, here) in ground (arith, c attempt, e, same)
    | inl later ↦
        let rest =
          try_from-succeeds i left (suc attempt) (min (p.scaled delay) p.max) c s
            (ground (arith, later)) (omega arith) f e in
        ground (arith, rest, c attempt, s attempt, f attempt, later)
  ]

  -- When the context is not cancelled and the attempt `i`, within those allowed, is the first at
  -- which the function returns no error, `Do` succeeds after calling it `i + 1` times.
  pub policy_do-succeeds :
      (i : ℕ)
      → ((n : ℕ) → a.cancelled n ≡ none)
      → ((n : ℕ) → a.cancelled_asleep n ≡ none)
      → i < p.max_attempts
      → ((n : ℕ) → n < i → a.called n ≢ none)
      → a.called i ≡ none
      → (policy_do.result ≡ succeeded) × (policy_do.calls ≡ suc i)
  unfolding policy_do
  policy_do-succeeds i c s q f e =
      ground
        (arith, try_from-succeeds i p.max_attempts 0 p.base c s (omega arith) (omega arith) f e)

  -- After an error, a `Do` that succeeds goes on.
  abbrev GoesOn : ℕ → ℕ → ℕ → Type 0
  GoesOn left attempt delay =
      let rest = try_from left (suc attempt) (min (p.scaled delay) p.max) in
      (rest.result ≡ succeeded) × ((try_from (suc left) attempt delay).calls ≡ suc rest.calls)

  try_from-again :
      (left attempt delay : ℕ) (x : E)
      → a.cancelled attempt ≡ none
      → a.called attempt ≡ some x
      → (try_from (suc left) attempt delay).result ≡ succeeded
      → GoesOn left attempt delay
  unfolding try_from
  try_from-again zero attempt delay x e f h = ground (arith, h, e, f)
  try_from-again (suc left) attempt delay x e f h =
      elim (Option-cases (a.cancelled_asleep attempt)) [
        | inr (y, g) ↦ ground (arith, h, e, f, g)
        | inl g ↦ (ground (arith, h, e, f, g), ground (arith, h, e, f, g))
      ]

  -- The attempt `k` is the last, after `n` others.
  abbrev pub Last : ℕ → Tried E → Type 0
  Last attempt t = (n : ℕ) × (k : ℕ) × (t.calls ≡ suc n) × (k ≡ attempt + n) × (a.called k ≡ none)

  try_from-Last :
      (left attempt delay : ℕ)
      → (try_from left attempt delay).result ≡ succeeded
      → Last attempt (try_from left attempt delay)
  unfolding try_from
  try_from-Last zero attempt delay h = cc
  try_from-Last (suc left) attempt delay h = elim (Option-cases (a.cancelled attempt)) [
    | inr (x, e) ↦ ground (arith, h, e)
    | inl e ↦ elim (Option-cases (a.called attempt)) [
      | inl f ↦ (0, attempt, ground (arith, e, f), omega arith, f)
      | inr (x, f) ↦
          let (ended, more) = try_from-again left attempt delay x e f h in
          let (n, k, calls, place, last) =
            try_from-Last left (suc attempt) (min (p.scaled delay) p.max) ended in
          (suc n, k, more ∙ ap suc calls, omega arith, last)
    ]
  ]

  -- The last call of a `Do` that succeeds returned no error.
  pub policy_do-Last : policy_do.result ≡ succeeded → Last 0 policy_do
  unfolding policy_do
  policy_do-Last h = try_from-Last p.max_attempts 0 p.base h
