-- ===== src/Raft/Append.antt =====
-- raft/raft.cpp: AppendEntries, the follower's side of replication.
pub mod Writes
pub mod Matching
pub mod Refusal
use chon_kv.Base.{
  ℕ, zero, suc, ◌+◌, ◌-◌, Bool, true, false, ◌&&◌, ◌||◌, not, if◌then◌else◌, ltb, leb, ◌==◌, Option,
  none, some, List, [], ◌∷◌, ◌++◌, length, take, min, max,
}
use chon_kv.Store.{LogStore, append, truncate_suffix, last_index}
use chon_kv.Raft.Types.{LogEntry, AppendEntriesArgs, AppendEntriesReply}
use chon_kv.Raft.State.{
  RaftState, is_follower, last_log_index, term_at, convert_to_follower, persist_log,
}

-- `while (f > snapshot_index_ + 1 && logs_[f - 1 - snapshot_index_].term == conflict_term) f--;`
unfoldable pub back_up : ℕ → List LogEntry → ℕ → ℕ → ℕ
back_up snap logs conflict_term zero = 0
back_up snap logs conflict_term (suc g) =
    let rest = back_up snap logs conflict_term g in
    if ltb (snap + 1) (suc g) && term_at logs (g - snap) == conflict_term then rest else suc g

-- The consistency check: `some hint` refuses the entries and tells the leader where to go on. An
-- index that the snapshot covers counts as a match.
unfoldable pub check_prev : RaftState → AppendEntriesArgs → Option ℕ
check_prev s a =
    let snap = s.snapshot_index in
    let t = term_at s.logs (a.prev_log_index - snap) in
    if ltb (last_log_index s) a.prev_log_index
    then some (last_log_index s + 1)
    else if leb snap a.prev_log_index && not (t == a.prev_log_term)
    then some (max (back_up snap s.logs t a.prev_log_index) (snap + 1))
    else none

-- The log, the store behind it, and whether either changed.
pub record Tail : Type 0 where
  pub logs : List LogEntry
  pub log_store : LogStore
  pub log_changed : Bool

-- One round of the loop over the entries: skip what the snapshot covers or the log has, cut the log
-- at a conflict, append.
unfoldable pub put_one : ℕ → Tail → LogEntry → Tail
put_one snap t e =
    let pos = e.index - snap in
    if e.index == 0 || leb e.index snap
    then t
    else if leb e.index (last_index t.logs)
    then (if term_at t.logs pos == e.term then t else record {
      logs = take pos t.logs ++ e ∷ [];
      log_store = append (truncate_suffix t.log_store (e.index - 1)) e;
      log_changed = true;
    })
    else record { logs = t.logs ++ e ∷ []; log_store = append t.log_store e; log_changed = true }

unfoldable pub put_all : ℕ → Tail → List LogEntry → Tail
put_all snap t [] = t
put_all snap t (e ∷ es) = put_all snap (put_one snap t e) es

abbrev pub tail_of : RaftState → Tail
tail_of s = record { logs = s.logs; log_store = s.log_store; log_changed = false }

-- The entries are written, and persisted if anything changed.
unfoldable pub write_entries : AppendEntriesArgs → RaftState → RaftState
write_entries a s =
    let t = put_all s.snapshot_index (tail_of s) a.entries in
    let s' = record s { logs = t.logs; log_store = t.log_store } in
    if t.log_changed then persist_log s' else s'

unfoldable pub follow_commit : AppendEntriesArgs → RaftState → RaftState
follow_commit a s =
    let new_commit = min a.leader_commit (a.prev_log_index + length a.entries) in
    if ltb s.commit_index a.leader_commit && ltb s.commit_index new_commit
    then record s { commit_index = new_commit }
    else s

-- A message of this term or a later one: follow its sender.
unfoldable pub follow : ℕ → AppendEntriesArgs → RaftState → RaftState
follow now a s =
    let t = record s { leader_id = a.leader_id; last_heartbeat = now } in
    if ltb s.current_term a.term || not (is_follower s.state)
    then convert_to_follower a.term t
    else t

-- Raft::AppendEntries
unfoldable pub append_entries : ℕ → AppendEntriesArgs → RaftState → RaftState × AppendEntriesReply
append_entries now a s =
    let f = follow now a s in
    if s.killed || ltb a.term s.current_term
    then (
      s,
      record { term = s.current_term; success = false; next_index = 0; read_ctx = a.read_ctx },
    )
    else elim (check_prev f a) [
      | some hint ↦ (
        f,
        record { term = f.current_term; success = false; next_index = hint; read_ctx = a.read_ctx },
      )
      | none ↦ (
        follow_commit a (write_entries a f),
        record { term = f.current_term; success = true; next_index = 0; read_ctx = a.read_ctx },
      )
    ]
