-- ===== src/Storage/PeerDialer/Kept.antt =====
-- No connection of the pool leaks.
use mathlib.Core.Path.{subst}
use distributed_fs.Common.{
  String, Bool, List, [], ◌∷◌, ◌≡◌, ◌⊎◌, refl, sym, none, some, arith, ◌==◌, Option-cases,
  Bool-cases, inl, inr,
}
use distributed_fs.Common.Registry.{
  Registry, lookup, insert, delete, values, lookup-insert, lookup-delete,
}
use distributed_fs.Common.Orders.{IsIn, IsIn-append-left, IsIn-append-right}
use distributed_fs.Storage.Errors.{Result, ok, err}
use distributed_fs.Storage.PeerDialer.{
  PeerDialer, PoolEvent, gets, removes, closes_all, new_peer_dialer, get_cached, close_stale,
  get_or_redial, remove_peer, close_all, pool_step, pool_run,
}

module _ {C : Type 0} where
  -- A connection is in the pool, or closed.
  abbrev pub IsKept : PeerDialer C → C → Type 0
  IsKept d c = ((a : String) × (lookup a d.conns ≡ some c)) ⊎ IsIn d.closed c

  values-lookup : (m : Registry C) (a : String) (c : C) → lookup a m ≡ some c → IsIn (values m) c
  unfolding lookup values
  values-lookup [] a c h = cc
  values-lookup ((k, v) ∷ m) a c h = elim (Bool-cases (k == a)) [
    | inl e ↦ inl (ground (arith, e, h))
    | inr e ↦ inr (values-lookup m a c (ground (arith, e, h)))
  ]

  close_stale-none :
      (address : String) (d : PeerDialer C)
      → lookup address d.conns ≡ none
      → close_stale address d ≡ d
  unfolding close_stale
  close_stale-none address d e = ground (arith, e)

  close_stale-some :
      (address : String) (d : PeerDialer C) (old : C)
      → lookup address d.conns ≡ some old
      → close_stale address d ≡ record d { conns = delete address d.conns; closed = old ∷ d.closed }
  unfolding close_stale
  close_stale-some address d old e = ground (arith, e)

  -- No call but a dial adds a connection, and the address is free after it.
  close_stale-dialed :
      (address : String) (d : PeerDialer C) → (close_stale address d).dialed ≡ d.dialed
  unfolding close_stale
  close_stale-dialed address d = ground arith

  close_stale-free :
      (address : String) (d : PeerDialer C) → lookup address (close_stale address d).conns ≡ none
  unfolding close_stale
  close_stale-free address d = elim (Option-cases (lookup address d.conns)) [
    | inl e ↦ ground (arith, e)
    | inr (old, e) ↦ ground (arith, e, lookup-delete address d.conns address)
  ]

  close_stale-IsKept :
      (address : String) (d : PeerDialer C) (c : C) → IsKept d c → IsKept (close_stale address d) c
  close_stale-IsKept address d c h = elim (Option-cases (lookup address d.conns)) [
    | inl e ↦ subst (λ d'. IsKept d' c) (sym (close_stale-none address d e)) h
    | inr (old, e) ↦
        subst (λ d'. IsKept d' c) (sym (close_stale-some address d old e)) (kept old e h)
  ]
    where
      kept :
          (old : C)
          → lookup address d.conns ≡ some old
          → IsKept d c
          → IsKept (record d { conns = delete address d.conns; closed = old ∷ d.closed }) c
      kept old e (inr i) = inr (inr i)
      kept old e (inl (a, there)) = elim (Bool-cases (address == a)) [
        | inl same ↦ inr (inl (ground (arith, e, there, same)))
        | inr other ↦ inl (a, ground (arith, there, other, lookup-delete address d.conns a))
      ]

  -- After a dial, with the address free before it.
  dialed-IsKept :
      (address : String) (conn : C) (d : PeerDialer C) (c : C)
      → lookup address d.conns ≡ none
      → IsKept d c
      → IsKept (record d { conns = insert address conn d.conns; dialed = conn ∷ d.dialed }) c
  dialed-IsKept address conn d c free (inr i) = inr i
  dialed-IsKept address conn d c free (inl (a, there)) =
      inl (a, ground (arith, free, there, lookup-insert address conn d.conns a))

  redial-IsKept :
      (is_healthy : C → Bool) (dial : Result C) (address : String) (d : PeerDialer C)
      → ((c : C) → IsIn d.dialed c → IsKept d c)
      → (c : C) → IsIn (get_or_redial is_healthy dial address d).0.dialed c
      → IsKept (get_or_redial is_healthy dial address d).0 c
  unfolding get_or_redial
  redial-IsKept is_healthy dial address d h c i =
      elim (Option-cases (get_cached is_healthy address d)) [
        | inr (conn, e) ↦
            let same : d ≡ (get_or_redial is_healthy dial address d).0 = ground (arith, e) in
            subst (λ d'. IsKept d' c) same (h c (subst (λ d'. IsIn d'.dialed c) (sym same) i))
        | inl e ↦ go dial refl e
      ]
    where
      new :
          (conn : C)
          → (conn ≡ c) ⊎ IsIn (close_stale address d).dialed c
          → let d' = close_stale address d in
            IsKept (record d' { conns = insert address conn d'.conns; dialed = conn ∷ d'.dialed }) c
      new conn (inl e) = inl (
        address,
        ground (arith, e, lookup-insert address conn (close_stale address d).conns address),
      )
      new conn (inr before) =
          dialed-IsKept address conn (close_stale address d) c (close_stale-free address d) (
            close_stale-IsKept address d c
              (h c (subst (λ l. IsIn l c) (close_stale-dialed address d) before)))

      go :
          (r : Result C)
          → dial ≡ r
          → get_cached is_healthy address d ≡ none
          → IsKept (get_or_redial is_healthy dial address d).0 c
      go (err x) p e =
          let same : close_stale address d ≡ (get_or_redial is_healthy dial address d).0 =
            ground (arith, e, p) in
          let before : IsIn d.dialed c =
            subst (λ l. IsIn l c) (close_stale-dialed address d)
              (subst (λ d'. IsIn d'.dialed c) (sym same) i) in
          subst (λ d'. IsKept d' c) same (close_stale-IsKept address d c (h c before))
      go (ok conn) p e =
          let d' = close_stale address d in
          let d'' : PeerDialer C = record d' {
            conns = insert address conn d'.conns;
            dialed = conn ∷ d'.dialed;
          } in
          let same : d'' ≡ (get_or_redial is_healthy dial address d).0 = ground (arith, e, p) in
          subst (λ x. IsKept x c) same (new conn (subst (λ x. IsIn x.dialed c) (sym same) i))

  pool_step-IsKept :
      (e : PoolEvent C) (d : PeerDialer C)
      → ((c : C) → IsIn d.dialed c → IsKept d c)
      → (c : C) → IsIn (pool_step e d).dialed c
      → IsKept (pool_step e d) c
  unfolding pool_step remove_peer close_all
  pool_step-IsKept (gets is_healthy dial address) d h c i =
      redial-IsKept is_healthy dial address d h c i
  pool_step-IsKept (removes address) d h c i =
      close_stale-IsKept address d c (h c (subst (λ l. IsIn l c) (close_stale-dialed address d) i))
  pool_step-IsKept closes_all d h c i = closed_all (h c i)
    where
      closed_all : IsKept d c → IsKept (close_all d) c
      closed_all (inl (a, there)) =
          inr (IsIn-append-left (values d.conns) d.closed c (values-lookup d.conns a c there))
      closed_all (inr j) = inr (IsIn-append-right (values d.conns) d.closed c j)

  pool_run-all :
      (es : List (PoolEvent C)) (d : PeerDialer C)
      → ((c : C) → IsIn d.dialed c → IsKept d c)
      → (c : C) → IsIn (pool_run es d).dialed c
      → IsKept (pool_run es d) c
  unfolding pool_run
  pool_run-all [] d h c i = h c i
  pool_run-all (e ∷ es) d h c i = pool_run-all es (pool_step e d) (pool_step-IsKept e d h) c i

  -- No connection leaks: after any sequence of calls of a new pool, every connection that was dialed
  -- is the one that the pool has for some address, or was closed.
  pub pool_run-IsKept :
      (es : List (PoolEvent C)) (c : C)
      → IsIn (pool_run es new_peer_dialer).dialed c
      → IsKept (pool_run es new_peer_dialer) c
  unfolding new_peer_dialer
  pool_run-IsKept es c i = pool_run-all es new_peer_dialer (λ c' j. absurd j) c i
