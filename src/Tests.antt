-- ===== src/Tests.antt =====
-- Concrete inputs on which the definitions run, and the theorems at them.
mod Wire
mod Sample
mod Log
mod Files
mod Repair
mod Serving
mod Storage
mod Peers
mod Client
mod Uploads
mod Services
