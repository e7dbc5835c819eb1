-- ===== src/Fsm/Snapshot.antt =====
-- Snapshots of metadata/fsm/fsm.go: `Snapshot`, `Persist` and `Restore`. The sink and
-- encoding/json are parameters.
use distributed_fs.Common.{
  ℕ, List, [], ◌∷◌, ◌++◌, ◌≡◌, refl, none, some, Option, Bool, true, false, arith, nat_eq,
  if◌then◌else◌,
}
use distributed_fs.Common.Registry.{Registry}
use distributed_fs.Fsm.Types.{FileRecord, ChunkRecord, NodeEntry, RepairJob, MetadataNodeEntry}
use distributed_fs.Fsm.State.{MetadataFsm, FsmError, new_error, Result, ok, err}

pub record MetadataFsmSnapshot : Type 0 where
  pub file_index : Registry FileRecord
  pub chunk_registry : Registry ChunkRecord
  pub node_registry : Registry NodeEntry
  pub repair_job_registry : Registry RepairJob
  pub md_node_registry : Registry MetadataNodeEntry

-- `utils.DeepCopy` copies each record, under its key; no registry holds a nil pointer. A record is a
-- value here: the slices that the copy shares with the original are not modelled as shared.
unfoldable pub deep_copy : {V : Type 0} → Registry V → Registry V
deep_copy [] = []
deep_copy ((k, v) ∷ m) = (k, v) ∷ deep_copy m

unfoldable pub snapshot : MetadataFsm → MetadataFsmSnapshot
snapshot s = record {
  file_index = deep_copy s.file_index;
  chunk_registry = deep_copy s.chunk_registry;
  node_registry = deep_copy s.node_registry;
  repair_job_registry = deep_copy s.repair_job_registry;
  md_node_registry = deep_copy s.md_node_registry;
}

-- `RestoreFSM`.
unfoldable pub restore_fsm : MetadataFsmSnapshot → MetadataFsm
restore_fsm snap = record {
  file_index = deep_copy snap.file_index;
  chunk_registry = deep_copy snap.chunk_registry;
  node_registry = deep_copy snap.node_registry;
  repair_job_registry = deep_copy snap.repair_job_registry;
  md_node_registry = deep_copy snap.md_node_registry;
}

-- The tag `json:"-"` of `LastSeen`: the field is not written, and reads back as the zero time.
abbrev pub unseen : NodeEntry → NodeEntry
unseen n = record n { last_seen = 0 }

unfoldable pub unseen_all : Registry NodeEntry → Registry NodeEntry
unseen_all [] = []
unseen_all ((k, n) ∷ m) = (k, unseen n) ∷ unseen_all m

pub record SnapshotJson (Bytes : Type 0) : Type 0 where
  pub marshal : MetadataFsmSnapshot → Result Bytes
  pub unmarshal : Bytes → Result MetadataFsmSnapshot
  pub size : Bytes → ℕ

-- What is read back is what was written, but for the field that is not written.
abbrev pub ReadsBack : {Bytes : Type 0} → SnapshotJson Bytes → Type 0
ReadsBack {Bytes} j =
    (snap : MetadataFsmSnapshot) (bytes : Bytes)
    → j.marshal snap ≡ ok bytes
    → j.unmarshal bytes ≡ ok (record snap { node_registry = unseen_all snap.node_registry })

-- A raft.SnapshotSink: how `io.Copy` and `Close` end.
pub record Sink (Bytes : Type 0) : Type 0 where
  pub copy : Bytes → Result ℕ
  pub close : Option FsmError

-- What `Persist` does to the sink, in order.
pub data SinkAction (Bytes : Type 0) : Type 0 where
  write : Bytes → SinkAction Bytes
  close_sink : SinkAction Bytes
  cancel : SinkAction Bytes

module _ {Bytes : Type 0} where
  -- The deferred `Cancel` runs on every error.
  abbrev finish :
      List (SinkAction Bytes) → Option FsmError → List (SinkAction Bytes) × Option FsmError
  finish done none = (done, none)
  finish done (some e) = (done ++ cancel ∷ [], some e)

  -- `Persist`, once `io.Copy` has returned, and once the snapshot is encoded.
  unfoldable pub persist_copied :
      SnapshotJson Bytes → Sink Bytes → Bytes → Result ℕ → List (SinkAction Bytes) × Option FsmError
  persist_copied j sink bytes (err e) = finish (write bytes ∷ []) (some e)
  persist_copied j sink bytes (ok n) =
      if nat_eq n (j.size bytes)
      then finish (write bytes ∷ close_sink ∷ []) sink.close
      else finish (write bytes ∷ []) (some (new_error "Persist: short write"))

  unfoldable pub persist_encoded :
      SnapshotJson Bytes → Sink Bytes → Result Bytes → List (SinkAction Bytes) × Option FsmError
  unfolding persist_copied
  persist_encoded j sink (err e) = finish [] (some e)
  persist_encoded j sink (ok bytes) = persist_copied j sink bytes (sink.copy bytes)

  unfoldable pub persist :
      SnapshotJson Bytes
      → Sink Bytes
      → MetadataFsmSnapshot
      → List (SinkAction Bytes) × Option FsmError
  unfolding persist_encoded
  persist j sink snap = persist_encoded j sink (j.marshal snap)

  -- `Restore`, over the bytes that `io.ReadAll` returns.
  unfoldable pub restore :
      SnapshotJson Bytes → Result Bytes → MetadataFsm → MetadataFsm × Option FsmError
  restore j (err e) s = (s, some e)
  restore j (ok bytes) s = elim (j.unmarshal bytes) [
    | err e ↦ (s, some e)
    | ok snap ↦ (restore_fsm snap, none)
  ]

deep_copy_eq : {V : Type 0} (m : Registry V) → deep_copy m ≡ m
unfolding deep_copy
deep_copy_eq [] = refl
deep_copy_eq ((k, v) ∷ m) = ground (arith, deep_copy_eq m)

-- A state whose snapshot is persisted and restored, on any replica and in any state, is the same
-- state, but that every node's `LastSeen` is the zero time.
pub restore-persist :
    {Bytes : Type 0} (j : SnapshotJson Bytes)
    → ReadsBack j
    → (s s' : MetadataFsm) (bytes : Bytes) → j.marshal (snapshot s) ≡ ok bytes
    → restore j (ok bytes) s' ≡ (record s { node_registry = unseen_all s.node_registry }, none)
unfolding restore snapshot restore_fsm
restore-persist j h s s' bytes e = ground (
  arith,
  h (snapshot s) bytes e,
  deep_copy_eq s.file_index,
  deep_copy_eq s.chunk_registry,
  deep_copy_eq s.node_registry,
  deep_copy_eq (unseen_all s.node_registry),
  deep_copy_eq s.repair_job_registry,
  deep_copy_eq s.md_node_registry,
)

-- The sink was written and closed, or the last action on it is `Cancel`.
pub data Finalised {Bytes : Type 0} : List (SinkAction Bytes) × Option FsmError → Type 0 where
  completed : (b : Bytes) → Finalised (write b ∷ close_sink ∷ [], none)
  cancelled :
      (before : List (SinkAction Bytes)) (e : FsmError) → Finalised (before ++ cancel ∷ [], some e)

module _ {Bytes : Type 0} (j : SnapshotJson Bytes) (sink : Sink Bytes) where
  closed : (b : Bytes) (c : Option FsmError) → Finalised (finish (write b ∷ close_sink ∷ []) c)
  closed b none = completed b
  closed b (some e) = cancelled (write b ∷ close_sink ∷ []) e

  copied : (b : Bytes) (r : Result ℕ) → Finalised (persist_copied j sink b r)
  unfolding persist_copied
  copied b (err e) = cancelled (write b ∷ []) e
  copied b (ok n) = go (nat_eq n (j.size b))
    where
      go :
          (whole : Bool)
          → Finalised (
              if whole
              then finish (write b ∷ close_sink ∷ []) sink.close
              else finish (write b ∷ []) (some (new_error "Persist: short write")))
      go true = closed b sink.close
      go false = cancelled (write b ∷ []) (new_error "Persist: short write")

  encoded : (r : Result Bytes) → Finalised (persist_encoded j sink r)
  unfolding persist_encoded
  encoded (err e) = cancelled [] e
  encoded (ok b) = copied b (sink.copy b)

-- `Persist` either returns no error, and has written the snapshot and closed the sink, or returns
-- an error, and its last action on the sink is `Cancel`.
pub persist_finalises :
    {Bytes : Type 0} (j : SnapshotJson Bytes) (sink : Sink Bytes) (snap : MetadataFsmSnapshot)
    → Finalised (persist j sink snap)
unfolding persist
persist_finalises j sink snap = encoded j sink (j.marshal snap)
