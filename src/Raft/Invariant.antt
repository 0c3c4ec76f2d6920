-- ===== src/Raft/Invariant.antt =====
-- raft/raft.h: the shape of a node's state: its log, its snapshot and its commit index.
use chon_kv.Base.{◌≤◌}
use chon_kv.Raft.State.{RaftState, last_log_index}
use chon_kv.Raft.Log.{IsLog}

pub record IsValid (s : RaftState) : Type 0 where
  pub is_log : IsLog s.snapshot_index s.logs
  pub covered : s.snapshot_index ≤ s.commit_index
  pub committed : s.commit_index ≤ last_log_index s
