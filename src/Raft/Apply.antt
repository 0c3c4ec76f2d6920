-- ===== src/Raft/Apply.antt =====
-- raft/raft.cpp: ApplyLoop. A round takes what is committed and not yet applied, or an installed
-- snapshot, and hands it to the state machine. Warnings and metrics are left out.
pub mod Rounds
pub mod InStep
mod Tests
use chon_kv.Base.{
  ℕ, zero, suc, ◌+◌, ◌-◌, ◌/◌, ◌%◌, Bool, true, false, ◌&&◌, not, if◌then◌else◌, ltb, leb, ◌==◌, ℤ,
  pos, negsuc, minus_one, is_nonneg, ltz, Option, none, some, List, [], ◌∷◌, ◌++◌, length,
  get_elem?, set_ℤ, min,
}
use chon_kv.Raft.Types.{
  EntryType, normal, conf_change, no_op, is_conf_change, MemberRole, voter, learner, removed,
  to_role, is_removed, LogEntry, ApplyMsg,
}
use chon_kv.Raft.State.{RaftState, is_leader, voter_me, persist}

-- kMaxApplyBatch
abbrev pub max_apply_batch : ℕ
max_apply_batch = 128

-- kStepdownGraceMs
abbrev pub stepdown_grace_ms : ℕ
stepdown_grace_ms = 200

-- std::to_string of an int: its digits, ten at most, and a sign.
unfoldable pub digits : ℕ → ℕ → List ℕ
digits zero n = []
digits (suc left) n =
    let rest = digits left (n / 10) in
    if ltb n 10 then (48 + n) ∷ [] else rest ++ (48 + n % 10) ∷ []

unfoldable pub to_string : ℤ → List ℕ
to_string (pos n) = digits 10 n
to_string (negsuc n) = 45 ∷ digits 10 (suc n)

abbrev pub role_letter : MemberRole → ℕ
role_letter voter = 86
role_letter learner = 76
role_letter removed = 82
role_letter (MemberRole.unknown v) = 82

-- "CONF:<server>:<role>"
unfoldable pub conf_command : LogEntry → List ℕ
conf_command e =
    67 ∷ 79 ∷ 78 ∷ 70 ∷ 58 ∷ to_string e.conf_server ++ 58 ∷ role_letter (to_role e.conf_role) ∷ []

-- The message for the entry at an index.
abbrev pub command_msg : ℕ → List ℕ → EntryType → ApplyMsg
command_msg i c t = record {
  command_valid = true;
  command = c;
  command_index = i;
  entry_type = t;
  snapshot_valid = false;
  snapshot = [];
  snapshot_term = 0;
  snapshot_index = 0;
}

unfoldable pub msg_by_type : EntryType → ℕ → LogEntry → ApplyMsg
msg_by_type conf_change i e = command_msg i (conf_command e) conf_change
msg_by_type no_op i e = command_msg i e.command no_op
msg_by_type normal i e = command_msg i e.command normal
msg_by_type (EntryType.unknown v) i e = command_msg i e.command normal

unfoldable pub entry_msg : ℕ → LogEntry → ApplyMsg
entry_msg i e = msg_by_type e.type i e

abbrev pub in_range : ℤ → RaftState → Bool
in_range server s = is_nonneg server && ltz server (pos (length s.is_member))

-- A configuration change takes effect when it is applied.
unfoldable pub set_role : ℕ → LogEntry → RaftState → RaftState
set_role i e s =
    let target = to_role e.conf_role in
    if in_range e.conf_server s
    then record s {
      is_member = set_ℤ s.is_member e.conf_server target;
      removed_at_index =
          set_ℤ s.removed_at_index e.conf_server (if is_removed target then pos i else minus_one);
    }
    else s

unfoldable pub clear_pending : LogEntry → RaftState → RaftState
clear_pending e s =
    if e.index == s.pending_conf_index then record s { pending_conf_index = 0 } else s

unfoldable pub apply_conf : ℕ → ℕ → LogEntry → RaftState → RaftState
apply_conf now i e s =
    let t = persist (clear_pending e (set_role i e s)) in
    if not (voter_me t) && is_leader t.state
    then record t { pending_stepdown = true; stepdown_after = now + stepdown_grace_ms }
    else t

unfoldable pub apply_entry : ℕ → ℕ → LogEntry → RaftState → RaftState
apply_entry now i e s =
    let t = record s { last_applied = i } in
    if is_conf_change e.type then apply_conf now i e t else t

-- The loop over the indices. `gate` is whether an installation holds the gate before an index is
-- taken (install_gate_depth_ > 0), which another thread may raise while PersistLocked waits.
unfoldable pub apply_from : ℕ → (ℕ → Bool) → ℕ → ℕ → RaftState → RaftState × List ApplyMsg
apply_from now gate zero i s = (s, [])
apply_from now gate (suc left) i s =
    let skip =
      apply_from now gate left (suc i)
        (if ltb s.last_applied i then record s { last_applied = i } else s) in
    if gate i
    then (s, [])
    else if leb i s.snapshot_index
    then skip
    else elim (get_elem? s.logs (i - s.snapshot_index)) [
      | none ↦ (s, [])
      | some e ↦
          let rest = apply_from now gate left (suc i) (apply_entry now i e s) in
          (rest.0, entry_msg i e ∷ rest.1)
    ]

-- The last index that a round takes.
abbrev pub apply_stop : RaftState → ℕ
apply_stop s =
    min s.commit_index
      (min (s.snapshot_index + length s.logs - 1) (s.last_applied + max_apply_batch))

abbrev pub snapshot_only : ℕ × ℕ × List ℕ → ApplyMsg
snapshot_only (i, t, blob) = record {
  command_valid = false;
  command = [];
  command_index = 0;
  entry_type = normal;
  snapshot_valid = true;
  snapshot = blob;
  snapshot_term = t;
  snapshot_index = i;
}

-- An installed snapshot goes first.
unfoldable pub round_of :
    ℕ → (ℕ → Bool) → Option (ℕ × ℕ × List ℕ) → RaftState → RaftState × List ApplyMsg
round_of now gate (some p) s = (record s { pending_snapshot = none }, snapshot_only p ∷ [])
round_of now gate none s =
    let batch = apply_from now gate (apply_stop s - s.last_applied) (suc s.last_applied) s in
    if ltb s.last_applied s.commit_index then batch else (s, [])

-- A round of the loop that found something to do: the state, and the messages that it pushes to the
-- channel in their order.
unfoldable pub apply_round : ℕ → (ℕ → Bool) → RaftState → RaftState × List ApplyMsg
apply_round now gate s = round_of now gate s.pending_snapshot s
