-- ===== src/Raft/State.antt =====
-- raft/raft.h: the state of class Raft, and the helpers of raft/raft.cpp that every handler uses.
-- A handler runs under mu_ and is a function from the state to the state and its reply. Times are
-- milliseconds handed in by the caller, 0 being `TimePoint{}`; waking other threads (the condition
-- variables) changes no state.
use chon_kv.Base.{
  ℕ, ◌+◌, ◌/◌, Bool, true, false, if◌then◌else◌, ℤ, pos, minus_one, at_ℤ, Option, none, some, List,
  [], ◌∷◌, length, get_elem?, replicate,
}
use chon_kv.Codec.{fields, put_index, put_int, put_list}
use chon_kv.Store.{LogStore, last_index, last_term}
use chon_kv.Raft.Types.{MemberRole, voter, is_voter, is_removed, of_role, LogEntry, plain_entry}
use chon_kv.Raft.Wire.{put_entry}

pub data ServerState : Type 0 where
  follower candidate leader : ServerState

abbrev pub is_leader : ServerState → Bool
is_leader leader = true
is_leader follower = false
is_leader candidate = false

abbrev pub is_follower : ServerState → Bool
is_follower follower = true
is_follower candidate = false
is_follower leader = false

abbrev pub is_candidate : ServerState → Bool
is_candidate candidate = true
is_candidate follower = false
is_candidate leader = false

-- What EncodeRaftStateLocked writes.
pub record Saved : Type 0 where
  pub term : ℕ
  pub voted_for : ℤ
  pub snapshot_index : ℕ
  pub snapshot_term : ℕ
  pub logs : List LogEntry
  pub is_member : List MemberRole
  pub pending_conf_index : ℕ

pub record RaftState : Type 0 where
  pub me : ℕ
  pub peers : ℕ
  pub killed : Bool
  pub state : ServerState
  pub current_term : ℕ
  pub pending_stepdown : Bool
  pub stepdown_after : ℕ
  pub voted_for : ℤ
  pub num_votes : ℕ
  pub num_prevotes : ℕ
  pub vote_granted : List ℕ
  pub prevote_granted : List ℕ
  pub last_heartbeat : ℕ
  pub leader_id : ℤ
  pub logs : List LogEntry
  pub log_store : LogStore
  pub commit_index : ℕ
  pub last_applied : ℕ
  pub snapshot_index : ℕ
  pub snapshot_term : ℕ
  pub snapshot_data : List ℕ
  pub saved_blob_index : ℕ
  -- The transfer of a snapshot that is being received; -1 where there is none.
  pub recv_snap_buf : List ℕ
  pub recv_snap_index : ℤ
  pub recv_snap_last_term : ℤ
  pub recv_snap_epoch : ℤ
  -- The index, term and data of an installed snapshot that the apply loop has not yet handed over.
  pub pending_snapshot : Option (ℕ × ℕ × List ℕ)
  pub snap_epoch : List ℕ
  pub snap_in_flight : List Bool
  pub next_index : List ℕ
  pub match_index : List ℕ
  pub heartbeat_seq : ℕ
  pub last_heartbeat_seq : List ℕ
  pub inflight_log_time : List ℕ
  pub last_ack_time : List ℕ
  pub last_quorum_check : ℕ
  pub cq_consec_fail : List ℕ
  pub lease_expire : ℕ
  pub read_safe_commit : ℕ
  pub is_member : List MemberRole
  pub pending_conf_index : ℕ
  pub removed_at_index : List ℤ
  -- 0 turns the limit off, as any value up to 0 does in the source.
  pub max_uncommitted_entries : ℕ
  pub max_raft_state_bytes : ℕ
  pub raft_state_bytes : ℕ
  -- What persister_ holds: the raft state, and the index, term and data of the snapshot blob.
  pub disk : Saved
  pub snapshot_disk : Option (ℕ × ℕ × List ℕ)

-- The role of a node id; nothing stands at an id out of range.
abbrev pub voter_at : List MemberRole → ℤ → Bool
voter_at ms id = elim (at_ℤ ms id) [ none ↦ false | some m ↦ is_voter m ]

abbrev pub voter_me : RaftState → Bool
voter_me s = voter_at s.is_member (pos s.me)

-- `is_member_.empty() || me_ >= size || is_member_[me_] == kRemoved`
abbrev pub absent_or_removed : RaftState → Bool
absent_or_removed s = elim (get_elem? s.is_member s.me) [ none ↦ true | some m ↦ is_removed m ]

-- IsRemovedSelfLocked
unfoldable pub is_removed_self : RaftState → Bool
is_removed_self s = elim (get_elem? s.is_member s.me) [ none ↦ false | some m ↦ is_removed m ]

-- LastLogIndexLocked and LastLogTermLocked
abbrev pub last_log_index : RaftState → ℕ
last_log_index s = last_index s.logs

abbrev pub last_log_term : RaftState → ℕ
last_log_term s = last_term s.logs

-- `logs_[pos].term`. The invariant on the log keeps every read in range.
abbrev pub term_at : List LogEntry → ℕ → ℕ
term_at logs i = elim (get_elem? logs i) [ none ↦ 0 | some e ↦ e.term ]

-- MemberCountLocked and QuorumSizeLocked
unfoldable pub count_voters : List MemberRole → ℕ
count_voters [] = 0
count_voters (m ∷ ms) = (if is_voter m then 1 else 0) + count_voters ms

abbrev pub member_count : RaftState → ℕ
member_count s = count_voters s.is_member

abbrev pub quorum_size : RaftState → ℕ
quorum_size s = member_count s / 2 + 1

-- EncodeRaftStateLocked: the log is written only where no log store keeps it.
abbrev pub saved : RaftState → Saved
saved s = record {
  term = s.current_term;
  voted_for = s.voted_for;
  snapshot_index = s.snapshot_index;
  snapshot_term = s.snapshot_term;
  logs = if s.log_store.keeps_log_externally then [] else s.logs;
  is_member = s.is_member;
  pending_conf_index = s.pending_conf_index;
}

unfoldable pub put_saved : Saved → List ℕ
put_saved s = fields (
    put_index s.term
    ∷ put_int s.voted_for
    ∷ put_index s.snapshot_index
    ∷ put_index s.snapshot_term
    ∷ put_list put_entry s.logs
    ∷ put_list (λ r. put_int (of_role r)) s.is_member
    ∷ put_index s.pending_conf_index
    ∷ [])

-- PersistLocked. In file mode the source waits here for the flushing thread and other handlers may
-- run meanwhile; the model has no such interleaving.
unfoldable pub persist : RaftState → RaftState
persist s = record s { disk = saved s; raft_state_bytes = length (put_saved (saved s)) }

-- `if (log_store_->KeepsLogExternally()) Sync(false); else PersistLocked(lk);`
unfoldable pub persist_log : RaftState → RaftState
unfolding persist
persist_log s = if s.log_store.keeps_log_externally then s else persist s

-- RaftStateSizeLocked
abbrev pub raft_state_size : RaftState → ℕ
raft_state_size s = s.raft_state_bytes + s.log_store.file_size

-- ConvertToFollowerLocked
unfoldable pub convert_to_follower : ℕ → RaftState → RaftState
unfolding persist
convert_to_follower new_term s = persist (record s {
  state = follower;
  current_term = new_term;
  voted_for = minus_one;
  num_prevotes = 0;
  pending_stepdown = false;
  lease_expire = 0;
})

-- The constructor with nothing persisted: every peer is a voter, the log is its sentinel.
unfoldable pub init : ℕ → ℕ → LogStore → RaftState
init me peers store = record {
  me = me;
  peers = peers;
  killed = false;
  state = follower;
  current_term = 0;
  pending_stepdown = false;
  stepdown_after = 0;
  voted_for = minus_one;
  num_votes = 0;
  num_prevotes = 0;
  vote_granted = [];
  prevote_granted = [];
  last_heartbeat = 0;
  leader_id = minus_one;
  logs = plain_entry 0 0 [] ∷ [];
  log_store = store;
  commit_index = 0;
  last_applied = 0;
  snapshot_index = 0;
  snapshot_term = 0;
  snapshot_data = [];
  saved_blob_index = 0;
  recv_snap_buf = [];
  recv_snap_index = minus_one;
  recv_snap_last_term = minus_one;
  recv_snap_epoch = minus_one;
  pending_snapshot = none;
  snap_epoch = replicate peers 0;
  snap_in_flight = replicate peers false;
  next_index = replicate peers 1;
  match_index = replicate peers 0;
  heartbeat_seq = 0;
  last_heartbeat_seq = replicate peers 0;
  inflight_log_time = replicate peers 0;
  last_ack_time = replicate peers 0;
  last_quorum_check = 0;
  cq_consec_fail = replicate peers 0;
  lease_expire = 0;
  read_safe_commit = 0;
  is_member = replicate peers voter;
  pending_conf_index = 0;
  removed_at_index = replicate peers minus_one;
  max_uncommitted_entries = 10000;
  max_raft_state_bytes = 0;
  raft_state_bytes = 0;
  disk = record {
    term = 0;
    voted_for = minus_one;
    snapshot_index = 0;
    snapshot_term = 0;
    logs = [];
    is_member = [];
    pending_conf_index = 0;
  };
  snapshot_disk = none;
}
