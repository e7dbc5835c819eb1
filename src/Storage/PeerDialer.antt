-- ===== src/Storage/PeerDialer.antt =====
-- storage/replication/peer_dialer.go: the pool of connections to peers. A connection is of any type
-- `C`; its health when it is looked at, and what gRPC returns for a new one, are inputs. `Get` has two
-- halves, under the read lock and under the write lock: other calls may come between the two.
use mathlib.Core.Path.{subst}
use distributed_fs.Common.{
  String, Bool, true, false, List, [], ◌∷◌, ◌++◌, ◌≡◌, ◌⊎◌, refl, sym, Option, none, some, arith,
  ◌==◌, if◌then◌else◌, All, Option-cases, Bool-cases, inl, inr, ap, ◌∙◌,
}
use distributed_fs.Common.Registry.{
  Registry, lookup, insert, delete, values, lookup-insert, lookup-delete,
}
use distributed_fs.Common.Orders.{IsIn, IsIn-append-left, IsIn-append-right}
use distributed_fs.Storage.Errors.{StoreError, Result, ok, err}
pub mod Kept

-- The pool, and the connections that were dialed and closed.
pub record PeerDialer (C : Type 0) : Type 0 where
  pub conns : Registry C
  pub dialed : List C
  pub closed : List C

pub data PoolEvent (C : Type 0) : Type 0 where
  gets : (C → Bool) → Result C → String → PoolEvent C
  removes : String → PoolEvent C
  closes_all : PoolEvent C

module _ {C : Type 0} where
  unfoldable pub new_peer_dialer : PeerDialer C
  new_peer_dialer = record { conns = []; dialed = []; closed = [] }

  -- The first half: a connection that is cached and healthy.
  unfoldable pub get_cached : (C → Bool) → String → PeerDialer C → Option C
  get_cached is_healthy address d = elim (lookup address d.conns) [
    | none ↦ none
    | some conn ↦ if is_healthy conn then some conn else none
  ]

  -- The stale connection is closed and taken out.
  unfoldable pub close_stale : String → PeerDialer C → PeerDialer C
  close_stale address d = elim (lookup address d.conns) [
    | none ↦ d
    | some old ↦ record d { conns = delete address d.conns; closed = old ∷ d.closed }
  ]

  -- The second half, after the first has found none.
  unfoldable pub get_or_redial :
      (C → Bool) → Result C → String → PeerDialer C → PeerDialer C × Result C
  get_or_redial is_healthy dial address d = elim (get_cached is_healthy address d) [
    | some conn ↦ (d, ok conn)
    | none ↦
        let d' = close_stale address d in
        elim dial [
          | err e ↦ (d', err e)
          | ok conn ↦ (
            record d' { conns = insert address conn d'.conns; dialed = conn ∷ d'.dialed },
            ok conn,
          )
        ]
  ]

  -- `Remove` does what `Get` does with a stale connection.
  unfoldable pub remove_peer : String → PeerDialer C → PeerDialer C
  remove_peer address d = close_stale address d

  unfoldable pub close_all : PeerDialer C → PeerDialer C
  close_all d = record d { conns = []; closed = values d.conns ++ d.closed }

  unfoldable pub pool_step : PoolEvent C → PeerDialer C → PeerDialer C
  pool_step (gets is_healthy dial address) d = (get_or_redial is_healthy dial address d).0
  pool_step (removes address) d = remove_peer address d
  pool_step closes_all d = close_all d

  unfoldable pub pool_run : List (PoolEvent C) → PeerDialer C → PeerDialer C
  pool_run [] d = d
  pool_run (e ∷ es) d = pool_run es (pool_step e d)
