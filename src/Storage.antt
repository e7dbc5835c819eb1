-- ===== src/Storage.antt =====
-- The storage node: its checksum index, its chunk store, and the streams that write and read chunks.
pub mod Errors
pub mod Index
pub mod Disk
pub mod Chunk
pub mod Serve
pub mod Streams
pub mod Peer
pub mod Retry
pub mod Replication
pub mod Sender
pub mod Heartbeat
pub mod Worker
pub mod PeerDialer
pub mod Config
