-- ===== src/Server/Chunks.antt =====
-- metadata/server/chunk_handlers.go.
use distributed_fs.Common.{String, List, none, length, ltb, if◌then◌else◌}
use distributed_fs.Fsm.Commands.{commit_chunk, evict_chunk_from_node, CommandCommitChunk}
use distributed_fs.Fsm.State.{ok, err}
use distributed_fs.Fsm.Reads.{get_chunk_locations}
use distributed_fs.Scheduler.Schedule.{schedule_repair_for_chunk}
use distributed_fs.Server.{HandlerDeps, Handler, reply, status, not_found, on_leader, proposing}
use distributed_fs.Server.Files.{NodeInfo, transform}

module _ (d : HandlerDeps) where
  unfoldable pub serve_commit_chunk : CommandCommitChunk → Handler Unit
  serve_commit_chunk req = on_leader d (
      proposing d (commit_chunk req) (λ v. elim (get_chunk_locations v.world.fsm req.chunk_id) [
        | err _ ↦ (v, reply tt)
        | ok locations ↦
            if ltb (length locations) d.replication_factor
            then (
              record v { world = schedule_repair_for_chunk d.env req.chunk_id v.world },
              reply tt,
            )
            else (v, reply tt)
      ]))

  -- `GetChunkLocations` has no other error than a chunk that is not found.
  unfoldable pub serve_get_chunk_locations : String → Handler (List NodeInfo)
  serve_get_chunk_locations chunk_id = on_leader d (λ v.
      elim (get_chunk_locations v.world.fsm chunk_id) [
        | err _ ↦ (v, status not_found none)
        | ok nodes ↦ (v, reply (transform nodes))
      ])

  unfoldable pub serve_report_corruption : String → String → Handler Unit
  serve_report_corruption chunk_id reporter_id = on_leader d (
      proposing d
        (evict_chunk_from_node (record {
          chunk_id = chunk_id;
          node_id = reporter_id;
          evicted_at = d.env.now;
          reason = "corruption reported by node";
        }))
        (λ v. (record v { world = schedule_repair_for_chunk d.env chunk_id v.world }, reply tt)))
