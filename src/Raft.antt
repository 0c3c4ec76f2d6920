-- ===== src/Raft.antt =====
-- The consensus core: raft/raft_protocol.h, raft/raft.h and raft/raft.cpp.
pub mod Types
pub mod Wire
pub mod State
pub mod Log
pub mod Invariant
pub mod Vote
pub mod Election
pub mod Append
pub mod Apply
pub mod Commit
pub mod Propose
pub mod Crc
pub mod Snapshot
pub mod Blob
pub mod Recover
pub mod Reads
pub mod Replicate
mod Tests
