-- ===== src/Leader.antt =====
-- internal/leaderclient: the unary calls to the metadata service, which follow redirects to the
-- leader. A connection is the address that was dialled. Dialling, what a node answers at each
-- attempt and the context are parameters. The sleeps are computed as in Storage/Retry and are not
-- modelled here.
use distributed_fs.Common.{
  ℕ, zero, suc, ◌+◌, ◌%◌, String, Bool, true, false, not, ◌||◌, List, [], ◌∷◌, Option, none, some,
  length, ltb, ◌==◌, min, if◌then◌else◌,
}
use distributed_fs.Storage.Retry.{Policy, Attempts}
pub mod Redirects

-- The codes that the client tells apart; `other` is any other one.
pub data RpcCode : Type 0 where
  unavailable : RpcCode
  deadline_exceeded : RpcCode
  aborted : RpcCode
  failed_precondition : RpcCode
  other : RpcCode

-- What a call returns: a status has the trailer `x-leader-grpc-addr`, `lost` is an error without one.
pub data Reply : Type 0 where
  answered : Reply
  status : RpcCode → Option String → Reply
  lost : Reply

pub record LeaderCache : Type 0 where
  pub current_addr : String
  pub seed_addrs : List String
  pub next_idx : ℕ
  pub conn : Option String

-- The network: what dialling an address returns, and what the node there answers at an attempt.
pub record Network : Type 0 where
  pub dials : String → Bool
  pub calls : ℕ → String → Reply

pub data Invoked : Type 0 where
  ok : Invoked
  failed : Reply → Invoked
  cancelled : Invoked
  no_connection : Invoked
  attempts_exhausted : Invoked

unfoldable pub new_leader_cache : List String → LeaderCache
new_leader_cache seeds = record { current_addr = ""; seed_addrs = seeds; next_idx = 0; conn = none }

unfoldable pub is_retryable_code : RpcCode → Bool
is_retryable_code unavailable = true
is_retryable_code deadline_exceeded = true
is_retryable_code aborted = true
is_retryable_code failed_precondition = true
is_retryable_code other = false

abbrev nth : ℕ → List String → String
nth i [] = ""
nth zero (x ∷ xs) = x
nth (suc i) (x ∷ xs) = nth i xs

unfoldable pub next_addr : LeaderCache → String
next_addr c = elim (c.seed_addrs) [
  | [] ↦ c.current_addr
  | s ∷ ss ↦ nth (c.next_idx % length (s ∷ ss)) (s ∷ ss)
]

abbrev pub advance_next_idx : LeaderCache → LeaderCache
advance_next_idx c = record c { next_idx = suc c.next_idx }

module _ (n : Network) where
  -- Whether there was no error is the second component.
  unfoldable pub update : String → LeaderCache → LeaderCache × Bool
  update addr c = if not (n.dials addr) then (c, false) else elim (c.conn) [
    | some _ ↦
        if c.current_addr == addr
        then (c, true)
        else (record c { conn = some addr; current_addr = addr }, true)
    | none ↦ (record c { conn = some addr; current_addr = addr }, true)
  ]

  -- The loop of `New` over the seeds.
  unfoldable pub connect_first : List String → LeaderCache → Option LeaderCache
  connect_first [] c = none
  connect_first (s ∷ ss) c =
      let (c', connected) = update s c in
      elim connected [ true ↦ some c' | false ↦ connect_first ss (advance_next_idx c) ]

  unfoldable pub new_client : List String → Option LeaderCache
  new_client seeds = connect_first seeds (new_leader_cache seeds)

  -- The next seed, before another attempt.
  unfoldable pub rotate : LeaderCache → LeaderCache
  rotate c =
      let c' = advance_next_idx c in
      let addr = next_addr c' in
      elim (c'.conn) [
        | none ↦ (update addr c').0
        | some _ ↦ if not (addr == "") then (update addr c').0 else c'
      ]

  -- Whether the leader that a status names was dialled.
  unfoldable pub redirect : Reply → LeaderCache → LeaderCache × Bool
  redirect (status failed_precondition (some addr)) c = update addr c
  redirect r c = (c, false)

-- The cache after the call, the addresses that were called, and how `Invoke` returned.
abbrev pub Invocation : Type 0
Invocation = LeaderCache × (List String × Invoked)

module _ {E : Type 0} (n : Network) (p : Policy) (a : Attempts E) where
  -- The end of an attempt that may be repeated, with what follows if it is.
  unfoldable pub again : ℕ → ℕ → String → LeaderCache → Invocation → Invocation
  again zero attempt addr c (c', x) = (c, (addr ∷ [], attempts_exhausted))
  again (suc _) attempt addr c (c', x) = elim (a.cancelled_asleep attempt) [
    | some _ ↦ (rotate n c, (addr ∷ [], cancelled))
    | none ↦ (c', (addr ∷ x.0, x.1))
  ]

  -- The loop, with so many attempts left.
  unfoldable pub invoke_from : ℕ → ℕ → LeaderCache → Invocation
  invoke_from zero attempt c = (c, ([], attempts_exhausted))
  invoke_from (suc left) attempt c = elim (a.cancelled attempt) [
    | some _ ↦ (c, ([], cancelled))
    | none ↦ elim (c.conn) [
      | none ↦ (c, ([], no_connection))
      | some addr ↦ elim (n.calls attempt addr) [
        | answered ↦ (c, (addr ∷ [], ok))
        | lost ↦ again left attempt addr c (invoke_from left (suc attempt) (rotate n c))
        | status code leader ↦
            (let (c', redirected) = redirect n (status code leader) c in
              elim redirected [
                | true ↦
                    let (c'', x) = invoke_from left (suc attempt) c' in (c'', (addr ∷ x.0, x.1))
                | false ↦
                    if is_retryable_code code
                    then again left attempt addr c (invoke_from left (suc attempt) (rotate n c))
                    else (c, (addr ∷ [], failed (status code leader)))
              ])
      ]
    ]
  ]

  unfoldable pub invoke : LeaderCache → Invocation
  invoke c = invoke_from p.max_attempts 0 c
