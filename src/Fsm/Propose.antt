-- ===== src/Fsm/Propose.antt =====
-- `Propose` of metadata/fsm/commands.go and the two proposals of fsm.go. hashicorp/raft is a
-- parameter: it tells how the proposal of an entry ends.
use mathlib.Core.Path.{subst}
use distributed_fs.Common.{ℕ, String, ◌≡◌, refl, sym, Option, none, some}
use distributed_fs.Fsm.Types.{RepairStatus}
use distributed_fs.Fsm.Commands.{Command, update_repair_job, update_node_space}
use distributed_fs.Fsm.State.{MetadataFsm, FsmError}
use distributed_fs.Fsm.Apply.{apply_command, Json, RoundTrips, apply, encode}
use distributed_fs.Fsm.Invariant.Log.{apply-encode}

-- The entry is committed and applied; or it is refused and never applied; or the wait for it
-- ends in an error, and it is applied all the same.
pub data RaftOutcome : Type 0 where
  committed : RaftOutcome
  refused : FsmError → RaftOutcome
  timed_out : FsmError → RaftOutcome

abbrev pub Raft : Type 0 → Type 0
Raft Bytes = Bytes → MetadataFsm → RaftOutcome

unfoldable pub propose :
    {Bytes : Type 0}
    → Json Bytes
    → Raft Bytes
    → Command
    → MetadataFsm
    → MetadataFsm × Option FsmError
propose j raft c s = elim (raft (encode j c) s) [
  | committed ↦ apply j (encode j c) s
  | refused e ↦ (s, some e)
  | timed_out e ↦ ((apply j (encode j c) s).0, some e)
]

-- What the other components know of a proposal.
pub data Outcome (c : Command) (s : MetadataFsm) : MetadataFsm × Option FsmError → Type 0 where
  applied : Outcome c s (apply_command c s)
  not_applied : (e : FsmError) → Outcome c s (s, some e)
  applied_late : (e : FsmError) → Outcome c s ((apply_command c s).0, some e)

-- A proposer, as the components take it.
abbrev pub Proposer : Type 0
Proposer = Command → MetadataFsm → MetadataFsm × Option FsmError

abbrev pub IsProposer : Proposer → Type 0
IsProposer p = (c : Command) (s : MetadataFsm) → Outcome c s (p c s)

-- Whatever Raft does, a proposal applies its own command, or nothing and returns an error.
pub propose-IsProposer :
    {Bytes : Type 0} (j : Json Bytes) (raft : Raft Bytes)
    → RoundTrips j
    → IsProposer (propose j raft)
unfolding propose
propose-IsProposer j raft h c s =
    go (raft (encode j c) s) (apply j (encode j c) s) (sym (apply-encode j h c s))
  where
    go :
        (o : RaftOutcome) (r : MetadataFsm × Option FsmError)
        → apply_command c s ≡ r
        → Outcome c s
            (elim o [ committed ↦ r | refused e ↦ (s, some e) | timed_out e ↦ (r.0, some e) ])
    go committed r q = subst (λ x. Outcome c s x) q applied
    go (refused e) r q = not_applied e
    go (timed_out e) r q = subst (λ x. Outcome c s (x.0, some e)) q (applied_late e)

-- A property that every handler keeps is kept by a proposal.
pub propose-keeps :
    (p : Proposer)
    → IsProposer p
    → (P : MetadataFsm → Type 0) → ((c : Command) (s : MetadataFsm) → P s → P (apply_command c s).0)
    → (c : Command) (s : MetadataFsm) → P s
    → P (p c s).0
propose-keeps p o P keep c s h = go (o c s)
  where
    go : {r : MetadataFsm × Option FsmError} → Outcome c s r → P r.0
    go applied = keep c s h
    go (not_applied e) = h
    go (applied_late e) = keep c s h

-- A proposal without an error has applied its command, and the handler returned no error.
pub propose_ok :
    (p : Proposer)
    → IsProposer p
    → (c : Command) (s : MetadataFsm) → (p c s).1 ≡ none
    → (p c s).0 ≡ (apply_command c s).0
propose_ok p o c s = go (o c s)
  where
    go :
        {r : MetadataFsm × Option FsmError}
        → Outcome c s r
        → r.1 ≡ none
        → r.0 ≡ (apply_command c s).0
    go applied h = refl
    go (not_applied e) h = cc
    go (applied_late e) h = cc

unfoldable pub update_repair_job_status :
    Proposer → ℕ → String → RepairStatus → MetadataFsm → MetadataFsm × Option FsmError
update_repair_job_status p now job_id status = p (
    update_repair_job (record {
      job_id = job_id;
      status = status;
      source_node = "";
      updated_at = now;
      attempts = 0;
      error = "";
    }))

unfoldable pub propose_update_node_space :
    Proposer → ℕ → String → ℕ → ℕ → MetadataFsm → MetadataFsm × Option FsmError
propose_update_node_space p now node_id space cc' = p (
    update_node_space
      (record { node_id = node_id; free_space = space; chunk_count = cc'; updated_at = now }))
