-- ===== src/Leader/Redirects.antt =====
-- How often a call is made, and that it reaches the leader.
use distributed_fs.Common.{
  ℕ, zero, suc, ◌≤◌, String, true, false, List, [], ◌∷◌, ◌≡◌, ◌≢◌, refl, none, some, arith, length,
  ◌==◌, ne_of_test, Option-cases, Bool-cases, inl, inr, if◌then◌else◌,
}
use distributed_fs.Storage.Retry.{Policy, Attempts}
use distributed_fs.Leader.{
  LeaderCache, Network, Reply, answered, status, lost, failed_precondition, Invoked, ok, update,
  rotate, redirect, again, invoke_from, invoke,
}

module _ {E : Type 0} (n : Network) (p : Policy) (a : Attempts E) where
  at_leader :
      (left i : ℕ) (c : LeaderCache) (addr : String)
      → a.cancelled i ≡ none
      → c.conn ≡ some addr
      → n.calls i addr ≡ answered
      → invoke_from n p a (suc left) i c ≡ (c, (addr ∷ [], ok))
  unfolding invoke_from
  at_leader left i c addr u at answer = ground (arith, u, at, answer)

  updated :
      (c : LeaderCache) (addr leader : String)
      → n.dials leader ≡ true
      → c.conn ≡ some addr
      → c.current_addr ≡ addr
      → (addr == leader) ≡ false
      → update n leader c ≡ (record c { conn = some leader; current_addr = leader }, true)
  unfolding update
  updated c addr leader dials at current other = ground (arith, dials, at, current, other)

  at_follower :
      (left i : ℕ) (c : LeaderCache) (addr leader : String)
      → a.cancelled i ≡ none
      → c.conn ≡ some addr
      → n.calls i addr ≡ status failed_precondition (some leader)
      → update n leader c ≡ (record c { conn = some leader; current_addr = leader }, true)
      → let x =
          invoke_from n p a left (suc i) (record c { conn = some leader; current_addr = leader }) in
        invoke_from n p a (suc left) i c ≡ (x.0, (addr ∷ x.1.0, x.1.1))
  unfolding invoke_from redirect
  at_follower left i c addr leader u at reply moved = ground (arith, u, at, reply, moved)

  -- A node answers a call with a redirect to the leader, or is the leader and answers it: the call
  -- succeeds after at most two calls, the last of them to the leader, and the leader stays the
  -- connection, if it can be dialled, two attempts are allowed, and the context is not cancelled.
  pub invoke-redirect :
      (leader addr : String) (c : LeaderCache)
      → ((i : ℕ) → a.cancelled i ≡ none)
      → ((i : ℕ) → n.calls i leader ≡ answered)
      → ((i : ℕ) (f : String) → f ≢ leader → n.calls i f ≡ status failed_precondition (some leader))
      → n.dials leader ≡ true
      → c.conn ≡ some addr
      → c.current_addr ≡ addr
      → 2 ≤ p.max_attempts
      → let x = invoke n p a c in
        (x.1.1 ≡ ok)
        × (x.1.0 ≡ (if addr == leader then leader ∷ [] else addr ∷ leader ∷ []))
        × (x.0.conn ≡ some leader)
  unfolding invoke
  invoke-redirect leader addr c u answers redirects dials at current q = go p.max_attempts q
    where
      go :
          (m : ℕ)
          → 2 ≤ m
          → let x = invoke_from n p a m 0 c in
            (x.1.1 ≡ ok)
            × (x.1.0 ≡ (if addr == leader then leader ∷ [] else addr ∷ leader ∷ []))
            × (x.0.conn ≡ some leader)
      go zero q = absurd (omega arith)
      go (suc zero) q = absurd (omega arith)
      go (suc (suc m)) q = elim (Bool-cases (addr == leader)) [
        | inl here ↦
            let same : addr ≡ leader = ground (arith, here) in
            let reply : n.calls 0 addr ≡ answered = ground (arith, same, answers 0) in
            ground (arith, here, same, at, at_leader (suc m) 0 c addr (u 0) at reply)
        | inr other ↦
            let moved = updated c addr leader dials at current other in
            let c' : LeaderCache = record c { conn = some leader; current_addr = leader } in
            ground (
              arith,
              other,
              at_follower (suc m) 0 c addr leader (u 0) at
                  (redirects 0 addr (ne_of_test addr leader other)) moved,
              at_leader m 1 c' leader (u 1) refl (answers 1),
            )
      ]

  again-bound :
      (left attempt : ℕ) (addr : String) (c : LeaderCache)
      (x : LeaderCache × (List String × Invoked))
      → length x.1.0 ≤ left
      → length (again n p a left attempt addr c x).1.0 ≤ suc left
  unfolding again
  again-bound zero attempt addr c x h = ground arith
  again-bound (suc left) attempt addr c x h = ground (arith, h)

  invoke_from-bound :
      (left attempt : ℕ) (c : LeaderCache) → length (invoke_from n p a left attempt c).1.0 ≤ left
  unfolding invoke_from
  invoke_from-bound zero attempt c = omega arith
  invoke_from-bound (suc left) attempt c = elim (Option-cases (a.cancelled attempt)) [
    | inr (e, stopped) ↦ ground (arith, stopped)
    | inl live ↦ elim (Option-cases c.conn) [
      | inl nobody ↦ ground (arith, live, nobody)
      | inr (addr, at) ↦
          go live addr at (n.calls attempt addr) refl (invoke_from-bound left (suc attempt))
            (again-bound left attempt addr)
    ]
  ]
    where
      go :
          a.cancelled attempt ≡ none
          → (addr : String) → c.conn ≡ some addr
          → (r : Reply) → n.calls attempt addr ≡ r
          → ((d : LeaderCache) → length (invoke_from n p a left (suc attempt) d).1.0 ≤ left)
          → ((d : LeaderCache) (x : LeaderCache × (List String × Invoked))
              → length x.1.0 ≤ left
              → length (again n p a left attempt addr d x).1.0 ≤ suc left)
          → length (invoke_from n p a (suc left) attempt c).1.0 ≤ suc left
      go live addr at answered e rest more = ground (arith, live, at, e)
      go live addr at lost e rest more = ground (
        arith,
        live,
        at,
        e,
        more c (invoke_from n p a left (suc attempt) (rotate n c)) (rest (rotate n c)),
      )
      go live addr at (status code leader) e rest more = ground (
        arith,
        live,
        at,
        e,
        rest (redirect n (status code leader) c).0,
        more (redirect n (status code leader) c).0
            (invoke_from n p a left (suc attempt) (rotate n (redirect n (status code leader) c).0))
            (rest (rotate n (redirect n (status code leader) c).0)),
        more c (invoke_from n p a left (suc attempt) (rotate n c)) (rest (rotate n c)),
      )

  -- A call is sent to the nodes at most as often as the policy allows attempts.
  pub invoke-bound : (c : LeaderCache) → length (invoke n p a c).1.0 ≤ p.max_attempts
  unfolding invoke
  invoke-bound c = invoke_from-bound p.max_attempts 0 c
