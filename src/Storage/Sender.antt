-- ===== src/Storage/Sender.antt =====
-- storage/replication/manager.go: `replicateToSingleNode`, and the fan-out that calls it.
use distributed_fs.Common.{
  ℕ, zero, suc, ◌+◌, ◌/◌, String, Bool, true, false, not, List, [], ◌∷◌, Option, none, some, Bytes,
  length, ltb, leb, if◌then◌else◌, snoc,
}
use distributed_fs.Storage.Errors.{ok, err}
use distributed_fs.Storage.Disk.{Layout, DiskStore, Os}
use distributed_fs.Storage.Chunk.{ChunkReader, new_chunk_reader, next}
use distributed_fs.Storage.Serve.{Answer, answered, refused}
use distributed_fs.Storage.Peer.{ReplicateChunkRequest, Finish}
pub mod Copies
pub mod Requests
pub mod Transfer
pub mod Quorum

-- How a loop over the frames ends; `exhausted` if the fuel does not last.
pub data Sending : Type 0 where
  sent_all : Sending
  gave_up : Sending
  exhausted : Sending

-- The connection to a peer: whether it is dialled, the stream opened, each frame sent and answered by
-- a positive acknowledgement, and the sending side closed; and how the peer then answers.
pub record Link : Type 0 where
  pub dials : Bool
  pub opens : Bool
  pub acked : ℕ → Bool
  pub closes : Bool
  pub peer : List ReplicateChunkRequest → Answer Finish

module _ (l : Layout) where
  -- The loop, with the requests that were sent.
  unfoldable pub send_requests :
      String
      → (ℕ → Os)
      → (ℕ → Bool)
      → ℕ
      → ℕ
      → Bool
      → ChunkReader
      → List ReplicateChunkRequest × Sending
  send_requests c io acked zero i is_first r = ([], exhausted)
  send_requests c io acked (suc fuel) i is_first r =
      let (r', x) = next l (io i) r in
      elim x [
        | err _ ↦ ([], gave_up)
        | ok none ↦ ([], sent_all)
        | ok (some frame) ↦
            (let req : ReplicateChunkRequest = record {
              chunk_id = c;
              data_bytes = frame.data_bytes;
              is_first = is_first;
              is_last = frame.is_last;
            } in
              elim (acked i) [
                | false ↦ (req ∷ [], gave_up)
                | true ↦ elim (frame.is_last) [
                  | true ↦ (req ∷ [], sent_all)
                  | false ↦
                      let (reqs, e) = send_requests c io acked fuel (suc i) false r' in
                      (req ∷ reqs, e)
                ]
              ])
      ]

  -- The requests that were sent, and whether there was no error.
  unfoldable pub replicate_to_single_node :
      Link → Os → (ℕ → Os) → String → DiskStore → List ReplicateChunkRequest × Bool
  replicate_to_single_node link os io c s =
      if not link.dials
      then ([], false)
      else if not link.opens
      then ([], false)
      else elim (new_chunk_reader l os c s 0) [
        | err _ ↦ ([], false)
        | ok r ↦
            (let (reqs, e) = send_requests c io link.acked (suc (length r.rest)) 0 true r in
              elim e [
                | gave_up ↦ (reqs, false)
                | exhausted ↦ (reqs, false)
                | sent_all ↦ if not link.closes then (reqs, false) else elim (link.peer reqs) [
                  | refused _ ↦ (reqs, false)
                  | answered _ ↦ (reqs, true)
                ]
              ])
      ]

-- What the fan-out receives before it stops: the result of a target, with its address.
pub data Reported : Type 0 where
  replica : String → Bool → Reported
  timed_out : Reported

-- The loop over as many results as there are targets: the nodes that succeeded, and whether it was
-- not cut short. When no more results come, the timer ends it.
unfoldable pub collect_results : ℕ → List Reported → List String → List String × Bool
collect_results zero rs nodes = (nodes, true)
collect_results (suc n) [] nodes = (nodes, false)
collect_results (suc n) (timed_out ∷ rs) nodes = (nodes, false)
collect_results (suc n) (replica addr good ∷ rs) nodes =
    collect_results n rs (if good then snoc nodes addr else nodes)

-- `ReplicateToNodesWithResult`, not async, over the results in the order in which they come.
unfoldable pub replicate_to_nodes : List String → List Reported → List String × Bool
replicate_to_nodes targets results =
    if leb (length targets) 0
    then ([], true)
    else (let (nodes, whole) = collect_results (length targets) results [] in
        if not whole
        then (nodes, false)
        else (nodes, not (ltb (length nodes) (length targets / 2 + 1))))
