-- ===== src/Client.antt =====
-- The client: its configuration and its calls, the upload and the download.
pub mod Errors
pub mod Config
pub mod Chunker
pub mod Download
pub mod Manifest
pub mod Transfers
pub mod Upload
pub mod StorageClient
pub mod MetadataClient
