-- ===== src/Raft/Types.antt =====
-- raft/raft_protocol.h: roles, log entries and the messages between nodes. Terms, indices and
-- offsets are int64_t that never go below 0 and are natural numbers here; node ids, roles on the
-- wire and the frozen indices keep their sign.
use chon_kv.Base.{
  ℕ, zero, suc, Bool, true, false, ◌&&◌, ◌||◌, ℤ, pos, negsuc, is_nonneg, minus_one, at_ℤ, none,
  some, List,
}

-- `unknown` is a value with no enumerator, which a cast from an int can give.
pub data MemberRole : Type 0 where
  removed learner voter : MemberRole
  unknown : ℤ → MemberRole

-- `static_cast<MemberRole>(int)` and `static_cast<int>(MemberRole)`
unfoldable pub to_role : ℤ → MemberRole
to_role (pos zero) = removed
to_role (pos (suc zero)) = learner
to_role (pos (suc (suc zero))) = voter
to_role (pos (suc (suc (suc n)))) = unknown (pos (suc (suc (suc n))))
to_role (negsuc n) = unknown (negsuc n)

unfoldable pub of_role : MemberRole → ℤ
of_role removed = pos 0
of_role learner = pos 1
of_role voter = pos 2
of_role (unknown v) = v

abbrev pub is_voter : MemberRole → Bool
is_voter voter = true
is_voter removed = false
is_voter learner = false
is_voter (unknown v) = false

abbrev pub is_removed : MemberRole → Bool
is_removed removed = true
is_removed learner = false
is_removed voter = false
is_removed (unknown v) = false

pub data EntryType : Type 0 where
  normal conf_change no_op : EntryType
  unknown : ℤ → EntryType

unfoldable pub to_entry_type : ℤ → EntryType
to_entry_type (pos zero) = normal
to_entry_type (pos (suc zero)) = conf_change
to_entry_type (pos (suc (suc zero))) = no_op
to_entry_type (pos (suc (suc (suc n)))) = unknown (pos (suc (suc (suc n))))
to_entry_type (negsuc n) = unknown (negsuc n)

unfoldable pub of_entry_type : EntryType → ℤ
of_entry_type normal = pos 0
of_entry_type conf_change = pos 1
of_entry_type no_op = pos 2
of_entry_type (unknown v) = v

abbrev pub is_conf_change : EntryType → Bool
is_conf_change conf_change = true
is_conf_change normal = false
is_conf_change no_op = false
is_conf_change (unknown v) = false

pub record LogEntry : Type 0 where
  pub term : ℕ
  pub index : ℕ
  pub command : List ℕ
  pub type : EntryType
  pub conf_server : ℤ
  pub conf_role : ℤ

-- `LogEntry{term, index, command}` with the defaults of the other fields.
abbrev pub plain_entry : ℕ → ℕ → List ℕ → LogEntry
plain_entry t i c = record {
  term = t;
  index = i;
  command = c;
  type = normal;
  conf_server = minus_one;
  conf_role = pos 0;
}

-- RequestVoteArgs and RequestPreVoteArgs have the same fields, and so have their replies.
pub record VoteArgs : Type 0 where
  pub term : ℕ
  pub candidate_id : ℤ
  pub last_log_index : ℕ
  pub last_log_term : ℕ

pub record VoteReply : Type 0 where
  pub term : ℕ
  pub vote_granted : Bool

pub record AppendEntriesArgs : Type 0 where
  pub term : ℕ
  pub leader_id : ℤ
  pub prev_log_index : ℕ
  pub prev_log_term : ℕ
  pub entries : List LogEntry
  pub leader_commit : ℕ
  pub read_ctx : ℕ

pub record AppendEntriesReply : Type 0 where
  pub term : ℕ
  pub success : Bool
  pub next_index : ℕ
  pub read_ctx : ℕ

pub record ReadIndexArgs : Type 0 where
  pub term : ℕ

pub record ReadIndexReply : Type 0 where
  pub term : ℕ
  pub read_index : ℤ

pub record InstallSnapshotArgs : Type 0 where
  pub term : ℕ
  pub leader_id : ℤ
  pub last_included_index : ℕ
  pub last_included_term : ℕ
  pub offset : ℤ
  pub chunk_size : ℤ
  pub done : Bool
  pub crc : ℤ
  pub epoch : ℤ
  pub chunk : List ℕ
  pub members : List ℤ

pub record InstallSnapshotReply : Type 0 where
  pub term : ℕ
  pub ok_install : Bool

pub record StartResult : Type 0 where
  pub is_leader : Bool
  pub index : ℤ
  pub term : ℕ
  pub backpressure : Bool
  pub disk_full : Bool

-- A node whose log stops at the entry that removed it: its frozen index is set, or its role says so.
unfoldable pub is_removed_frozen : List MemberRole → List ℤ → ℤ → Bool
is_removed_frozen is_member removed_at_index s =
    is_nonneg s
    && ((elim (at_ℤ removed_at_index s) [ none ↦ false | some r ↦ is_nonneg r ])
        || (elim (at_ℤ is_member s) [ none ↦ false | some m ↦ is_removed m ]))

-- What a node hands to the state machine.
pub record ApplyMsg : Type 0 where
  pub command_valid : Bool
  pub command : List ℕ
  pub command_index : ℕ
  pub entry_type : EntryType
  pub snapshot_valid : Bool
  pub snapshot : List ℕ
  pub snapshot_term : ℕ
  pub snapshot_index : ℕ
