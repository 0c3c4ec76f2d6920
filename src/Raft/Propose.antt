-- ===== src/Raft/Propose.antt =====
-- raft/raft.cpp: the leader's proposals, Start(command) and ProposeConfChangeTo(server, target).
pub mod Accepted
use chon_kv.Base.{
  ℕ, zero, suc, ◌+◌, ◌-◌, Bool, true, false, ◌&&◌, ◌||◌, not, if◌then◌else◌, ltb, leb, ◌==◌, ℤ, pos,
  minus_one, is_nonneg, at_ℤ, set_ℤ, Option, none, some, List, [], ◌∷◌, ◌++◌, length,
}
use chon_kv.Store.{append}
use chon_kv.Raft.Types.{
  MemberRole, removed, learner, voter, unknown, is_voter, is_removed, of_role, conf_change,
  LogEntry, plain_entry, StartResult,
}
use chon_kv.Raft.State.{
  RaftState, is_leader, last_log_index, raft_state_size, voter_at, member_count, is_removed_self,
  persist, persist_log,
}
use chon_kv.Raft.Commit.{advance_commit_index}

abbrev pub refused : RaftState → StartResult
refused s = record {
  is_leader = false;
  index = minus_one;
  term = s.current_term;
  backpressure = false;
  disk_full = false;
}

-- `max_uncommitted_entries_ > 0 && LastLogIndexLocked() - commit_index_ >= max_uncommitted_entries_`
abbrev pub backlogged : RaftState → Bool
backlogged s =
    ltb 0 s.max_uncommitted_entries
    && leb (s.commit_index + s.max_uncommitted_entries) (last_log_index s)

abbrev pub disk_is_full : RaftState → Bool
disk_is_full s = ltb 0 s.max_raft_state_bytes && leb s.max_raft_state_bytes (raft_state_size s)

-- The entry goes to the log and to the store behind it.
unfoldable pub add_entry : LogEntry → RaftState → RaftState
add_entry e s = record s { logs = s.logs ++ e ∷ []; log_store = append s.log_store e }

-- Raft::Start(command)
unfoldable pub start : List ℕ → RaftState → RaftState × StartResult
start command s =
    let index = last_log_index s + 1 in
    if s.killed || not (is_leader s.state) || s.pending_stepdown || is_removed_self s
    then (s, refused s)
    else if backlogged s
    then (s, (let r = refused s in record r { backpressure = true }))
    else if disk_is_full s
    then (s, (let r = refused s in record r { disk_full = true }))
    else (
      advance_commit_index (persist_log (add_entry (plain_entry s.current_term index command) s)),
      (let r = refused s in record r { is_leader = true; index = pos index }),
    )

abbrev pub is_enumerator : MemberRole → Bool
is_enumerator removed = true
is_enumerator learner = true
is_enumerator voter = true
is_enumerator (unknown v) = false

abbrev pub conf_entry : ℤ → MemberRole → RaftState → LogEntry
conf_entry server target s = record {
  term = s.current_term;
  index = last_log_index s + 1;
  command = [];
  type = conf_change;
  conf_server = server;
  conf_role = of_role target;
}

-- One change at a time, to a node of the configuration, and never the last voter's removal.
unfoldable pub change_allowed : ℤ → MemberRole → RaftState → Bool
change_allowed server target s =
    s.pending_conf_index == 0
    && (elim (at_ℤ s.is_member server) [ none ↦ false | some m ↦ true ])
    && is_enumerator target
    && not (voter_at s.is_member server && not (is_voter target) && leb (member_count s) 1)

-- Raft::ProposeConfChangeTo. A leader that refuses a change still reports that it leads.
unfoldable pub propose_conf_change_to : ℤ → MemberRole → RaftState → RaftState × StartResult
propose_conf_change_to server target s =
    let e = conf_entry server target s in
    let led = (let r = refused s in record r { is_leader = true }) in
    if not (is_leader s.state) || s.pending_stepdown
    then (s, refused s)
    else if not (change_allowed server target s)
    then (s, led)
    else if disk_is_full s
    then (s, (let r = refused s in record r { disk_full = true }))
    else (
      advance_commit_index (
          persist (
            let t = add_entry e s in
            record t {
              removed_at_index =
                  set_ℤ s.removed_at_index server
                    (if is_removed target then pos e.index else minus_one);
              pending_conf_index = e.index;
            })),
      record led { index = pos e.index },
    )
