-- ===== src/Lib.antt =====
-- Verification of the distributed file system: the metadata service, the storage nodes and the
-- client.
--
-- A metadata node keeps one state machine, replicated by Raft: the registries of files, chunks,
-- storage nodes, metadata nodes and repair jobs. Every change of it, but for the time at which a
-- node was last seen, is a command in the Raft log, which `Apply` hands to one handler. The gRPC
-- handlers, the repair scheduler, the watcher and the reconciler read the state machine directly
-- and change it by proposing commands. The handlers, the watcher and the reconciler call the
-- scheduler, whose `World` they share.
--
-- A storage node keeps chunks as files, with their checksums in an index and a count of the space
-- used. A chunk arrives as a stream of frames, from a client or from a peer: a writer appends them to
-- a temporary file, and the store renames it to the chunk's file when the checksum is right. The node
-- then asks its peers to copy the chunk and commits it to the metadata service.
--
-- The client cuts a file into chunks, writes a manifest of them, asks the metadata service where they
-- go, sends each to a storage node and commits the file. A download asks for the chunks of a file,
-- takes each from the first replica with the right bytes and writes it at its place.
--
-- Which file models which part:
--   Common            lists, Boolean tests, integers, a map as an association list (Registry), lists
--                     by position (Positions) and in another order (Orders), the reading of settings
--                     (Settings)
--   Fsm/Types         metadata/fsm/types.go: the records, with one constructor for each status
--   Fsm/Commands      metadata/fsm/commands.go: the sixteen commands
--   Fsm/State         metadata/fsm/fsm.go: `MetadataFSM`, its errors, the single lookups
--   Fsm/Handlers      `handleCmd...`, by registry: nodes (with `UpdateLastSeen`), files,
--                     chunks, jobs
--   Fsm/Apply         `Apply`, over a JSON codec, and the replay of a log
--   Fsm/Snapshot      `Snapshot`, `Persist`, `Restore`, with their laws
--   Fsm/Reads         the readers that scan a registry
--   Fsm/Propose       `Propose` of metadata/fsm/commands.go over Raft, and the two proposals that
--                     metadata/fsm/fsm.go makes itself
--   Placement         metadata/placement/strategy.go
--   Scheduler         metadata/scheduler/repair_scheduler.go: State, Schedule (the creation of
--                     jobs), Jobs (their life)
--   Watcher           metadata/watcher/node_watcher.go: the sweep
--   Reconcile         metadata/reconcile/reconciler.go: `ReconcileNode`
--   Server            metadata/server: the gRPC handlers, by file (Nodes also has the repair
--                     report); Requests has the sum of the requests
--   Server/Config     metadata/config.go
--   Storage/Errors    internal/errors/errors.go and the errors of the packages of storage
--   Storage/Index     storage/store/checksum_index.go: `BoltChecksumIndex`
--   Storage/Disk      storage/store/disk.go: `DiskStore`
--   Storage/Chunk     storage/chunk: the writer and the reader of a chunk
--   Storage/Serve     storage/server/storage_handler.go: `PutChunk`
--   Storage/Streams   storage/server/storage_handler.go: `GetChunk`, `DeleteChunk`, `VerifyChunk`
--   Storage/Peer      storage/server/replication_handler.go: `ReplicateChunk`
--   Storage/Replication  storage/replication/manager.go: the repair queue and its workers
--   Storage/Sender    storage/replication/manager.go: `replicateToSingleNode` and the fan-out
--   Storage/Worker    storage/replication/manager.go: what a repair worker reports
--   Storage/PeerDialer  storage/replication/peer_dialer.go: the pool of connections
--   Storage/Heartbeat  storage/service: heartbeats and registration
--   Storage/Config    storage/config.go
--   Storage/Retry     internal/retry/retry.go: `Policy.Do`
--   Leader            internal/leaderclient: the calls that follow redirects to the leader
--   Client/Config     client/internal/dfsclientconfig/config.go
--   Client/Errors     the errors of client/internal
--   Client/Chunker    client/internal/chunker/chunker.go
--   Client/Manifest   client/internal/manifest/manifest.go
--   Client/Transfers  client/internal/service/upload.go: the goroutines of an upload
--   Client/Upload     client/internal/service/upload.go: `Upload`
--   Client/Download   client/internal/service/download.go
--   Client/StorageClient  client/internal/storageclient/grpc.go
--   Client/MetadataClient  client/internal/metadataclient/grpc.go
-- The other files of these folders hold proofs, and are named for what they prove.
-- Tests holds the concrete runs.
--
-- How the state corresponds: a Go map is a list of pairs with unique keys; `lookup` is `m[k]` with
-- its `ok`, `insert` is `m[k] = v` and `delete` is `delete(m, k)`. The order of the list stands
-- for the order in which `range` visits the map, which Go leaves open. A record behind a pointer
-- is replaced in its map by the changed record. A handler returns the new state and an error or
-- none. Times are seconds as a natural number, the zero time is 0. Sizes, counts and chunk indexes
-- are natural numbers: the code only compares, counts and stores them.
--
-- Parameters: the JSON codec, with the hypothesis that it reads back what it wrote; Raft, which
-- applies a proposed entry or reports an error; google/uuid; the clock; the snapshot sink. The
-- sorts of the standard library are an insertion sort; among equals it keeps the order of the
-- input, which sort.Sort leaves open.
--
-- On a storage node the system is a parameter as well: `Os` gives the error of each system call, by
-- the call of the store that makes it; filepath.Join, sha256, the multiplication of a delay by a
-- float, the random numbers, the replicator and the metadata client are arguments. Space is counted
-- modulo 2^64, as the code counts it.
--
-- The configurations are given the object that encoding/json makes of a file, the environment, and the
-- parsers of durations and numbers; a parser gives a value or none.
--
-- In the client the goroutines of an upload or a download are a list, in the order in which they end,
-- which is an input: a permutation of the chunks. A goroutine is one step, since the chunks that two
-- of them write do not overlap, and the counters and the manifest are updated under a lock. The
-- disk of the client is a map from paths to contents. What a storage node answers to each attempt is
-- an input, and the theorems about the wire join the client's frames to the handlers of Storage.
--
-- Every function is structurally recursive, but for the loops that send the frames of a chunk
-- (Storage/Streams and Storage/Sender), which have one unit of fuel more than the chunk has bytes,
-- and that of the client (Client/StorageClient), which has one for each byte: a frame that is not the
-- last takes at least one byte.
--
-- Not modelled: mutexes (an operation is one step), goroutines and channels (a worker, a timer or a
-- report is an event, and events come in any order), contexts that are done (but in the retries),
-- logging, the aliasing between a snapshot and the live state, and two writers at once on one chunk.
-- Of the replication manager the semaphore of the streams is not modelled, of a gRPC stream not the
-- sending of the answer. Of the client the progress callbacks, the options and the command line are
-- not modelled. The ticker of the heartbeats is an event, and the loop over the jobs of a
-- response is one step with the reports that it starts. The wiring of the processes is not modelled.

pub mod Common
pub mod Fsm
pub mod Placement
pub mod Scheduler
pub mod Watcher
pub mod Reconcile
pub mod Server
pub mod Storage
pub mod Leader
pub mod Client
pub mod Tests
