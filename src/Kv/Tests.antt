-- ===== src/Kv/Tests.antt =====
-- The theorems on the server at a concrete state whose table holds one session.
use chon_kv.Base.{ℕ, ◌≡◌, refl, some, ℤ, pos, List, [], ◌∷◌, arith}
use chon_kv.Raft.Types.{normal}
use chon_kv.Kv.Messages.{Op, put_op, append_name}
use chon_kv.Kv.Sessions.{
  find_session, remove_session, get_seq, put_seq, find_fence, set_fence, add_fence, reap_idle,
  reap_over, existing_seq,
}
use chon_kv.Kv.Server.{
  KvState, apply_op, apply_command, find_key, reap, run_op, execute, set_key, value_of, less_bytes,
  answer_waiter,
}
use chon_kv.Kv.Sessions.Reap.{known}
use chon_kv.Kv.Server.Once.{Spec, Refines, Serves}
use chon_kv.Kv.Server.Runs.{
  apply_ops, spec_ops, apply_ops-Refines, apply_op_once, apply_command-put_op,
}

-- Client 7 has executed command 2.
abbrev server : KvState
server = record {
  kv_store = record { key = 97 ∷ []; value = 1 ∷ [] } ∷ [];
  sessions = record { client_id = pos 7; last_seq = 2; last_index = 4 } ∷ [];
  session_cap = 1;
  max_idle_index = 10;
  fenced = [];
  msg_replies = [];
  last_cmd_index = 4;
}

abbrev appending : ℤ → ℕ → Op
appending c n = record {
  key = 97 ∷ [];
  value = 9 ∷ [];
  method = append_name;
  client_id = c;
  seq_id = n;
}

abbrev table : Spec
table = record { kv_store = server.kv_store; last_seq = λ c. known c server.sessions server.fenced }

-- Two clients, one of them repeating a command; each new session reaps the other.
abbrev ops : List (ℕ × Op)
ops = (5, appending (pos 8) 1) ∷ (6, appending (pos 7) 2) ∷ (7, appending (pos 8) 1) ∷ []

server-Serves : Serves table server 3
unfolding find_session
server-Serves = record {
  refines = record { store = refl; seqs = λ c. refl };
  distinct = (omega arith, (refl, tt));
  room = omega arith;
}

apply_ops-Refines_example : Refines (spec_ops ops table) (apply_ops ops server)
apply_ops-Refines_example = apply_ops-Refines ops table server server-Serves

apply_op_once_example :
    (apply_op 20
      (appending (pos 9) 1)
      (apply_ops ops (apply_op 5 (appending (pos 9) 1) server))).kv_store
    ≡ (apply_ops ops (apply_op 5 (appending (pos 9) 1) server)).kv_store
unfolding find_session
apply_op_once_example =
    apply_op_once 5 20 (appending (pos 9) 1) ops server (omega arith, (refl, tt)) (omega arith)

apply_command-put_op_example :
    apply_command normal 5 (put_op (appending (pos 8) 1)) server
    ≡ apply_op 5 (appending (pos 8) 1) server
apply_command-put_op_example = apply_command-put_op 5 (appending (pos 8) 1) server (record {
  key = omega arith;
  value = omega arith;
  method = omega arith;
  client_id = omega arith;
  seq_id = omega arith;
})

-- Client 8's command runs once, client 7's repeated one not at all.
ops_run_once : find_key (97 ∷ []) (apply_ops ops server).kv_store ≡ some (1 ∷ 9 ∷ [])
unfolding apply_ops apply_op run_op reap reap_idle reap_over get_seq put_seq find_session
    remove_session find_fence set_fence add_fence existing_seq execute set_key value_of less_bytes
    find_key answer_waiter
ops_run_once = refl
