-- ===== src/Raft/Apply/Tests.antt =====
-- A round of ApplyLoop at a node with two entries to apply, and the server above it.
use chon_kv.Base.{◌≡◌, refl, false, pos, negsuc, [], ◌∷◌, arith}
use chon_kv.Store.{LogStore}
use chon_kv.Raft.Types.{plain_entry, LogEntry, conf_change, to_role}
use chon_kv.Raft.State.{RaftState, init}
use chon_kv.Raft.Invariant.{IsValid}
use chon_kv.Raft.Apply.{apply_round, conf_command, to_string, digits}
use chon_kv.Raft.Apply.Rounds.{Round, open_gate, apply_round-Round}
use chon_kv.Raft.Apply.InStep.{InStep, apply_round-InStep}
use chon_kv.Kv.Messages.{Op, put_op, append_name}
use chon_kv.Kv.Sessions.{find_session, existing_seq, find_fence}
use chon_kv.Kv.Server.{KvState}
use chon_kv.Kv.Server.Once.{Spec, Serves}
use chon_kv.Kv.Snapshot.{apply_msgs}

abbrev memory : LogStore
memory = record {
  keeps_log_externally = false;
  entries = [];
  offsets = [];
  file_size = 0;
  aborted = false;
}

-- Node 2 is to become a learner.
abbrev change : LogEntry
change = record {
  term = 2;
  index = 3;
  command = [];
  type = conf_change;
  conf_server = pos 2;
  conf_role = pos 1;
}

-- Three entries are committed behind the sentinel, the first of them applied.
abbrev node : RaftState
unfolding init
node = record (init 1 3 memory) {
  current_term = 2;
  logs = plain_entry 0 0 [] ∷ plain_entry 1 1 (7 ∷ []) ∷ plain_entry 2 2 (8 ∷ []) ∷ change ∷ [];
  commit_index = 3;
  last_applied = 1;
}

node-IsValid : IsValid node
unfolding init
node-IsValid = record {
  is_log = record { contiguous = (refl, (refl, (refl, (refl, tt)))); sentinel = omega arith };
  covered = omega arith;
  committed = omega arith;
}

abbrev server : KvState
server = record {
  kv_store = [];
  sessions = [];
  session_cap = 10;
  max_idle_index = 10;
  fenced = [];
  msg_replies = [];
  last_cmd_index = 1;
}

apply_round-Round_example : Round node (apply_round 5 open_gate node)
unfolding init
apply_round-Round_example = apply_round-Round 5 node node-IsValid refl (omega arith) (omega arith)

abbrev appending : Op
appending = record {
  key = 97 ∷ [];
  value = 9 ∷ [];
  method = append_name;
  client_id = pos 7;
  seq_id = 3;
}

-- The second entry is a client's command.
abbrev busy_node : RaftState
unfolding init
busy_node = record node {
  logs =
      plain_entry 0 0 []
      ∷ plain_entry 1 1 (7 ∷ [])
      ∷ plain_entry 2 2 (put_op appending)
      ∷ change
      ∷ [];
}

busy_node-IsValid : IsValid busy_node
unfolding init
busy_node-IsValid = record {
  is_log = record { contiguous = (refl, (refl, (refl, (refl, tt)))); sentinel = omega arith };
  covered = omega arith;
  committed = omega arith;
}

abbrev empty_table : Spec
empty_table = record { kv_store = []; last_seq = λ c. 0 }

server-Serves : Serves empty_table server 128
unfolding find_session existing_seq find_fence
server-Serves = record {
  refines = record { store = refl; seqs = λ c. refl };
  distinct = tt;
  room = omega arith;
}

apply_round-InStep_example :
    InStep empty_table busy_node
      (apply_round 5 open_gate busy_node).0
      (apply_msgs (apply_round 5 open_gate busy_node).1 server)
unfolding init
apply_round-InStep_example =
    apply_round-InStep 5 busy_node empty_table server busy_node-IsValid refl (omega arith)
      (omega arith) refl server-Serves

-- "CONF:2:L" and a negative number
change_named : conf_command change ≡ 67 ∷ 79 ∷ 78 ∷ 70 ∷ 58 ∷ 50 ∷ 58 ∷ 76 ∷ []
unfolding conf_command to_string digits to_role
change_named = refl

negative_named : to_string (negsuc 119) ≡ 45 ∷ 49 ∷ 50 ∷ 48 ∷ []
unfolding to_string digits
negative_named = refl
