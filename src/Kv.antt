-- ===== src/Kv.antt =====
-- The key-value server on top of the consensus core: kvraft/common.h, kvraft/server.h and
-- kvraft/server.cpp.
pub mod Messages
pub mod Sessions
pub mod Rpc
pub mod Server
pub mod Snapshot
pub mod Requests
mod Tests
