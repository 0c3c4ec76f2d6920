-- ===== src/Kv/Requests/Tests.antt =====
-- The theorems on the client's calls at concrete turns.
use chon_kv.Base.{
  ◌≡◌, refl, ℕ, true, false, Bool, some, pos, List, [], ◌∷◌, arith, here, there, minus_one,
}
use chon_kv.Codec.{
  decode_all, get_int, get_zigzag, get_varint, get_bytes, get_index, put_int, put_zigzag,
  put_varint, put_bytes, put_index,
}
use chon_kv.Raft.Types.{ApplyMsg, StartResult, normal}
use chon_kv.Kv.Messages.{put_op, get_op, put_name, ok, of_err}
use chon_kv.Kv.Sessions.{
  find_session, remove_session, get_seq, put_seq, find_fence, set_fence, add_fence, reap_idle,
  reap_over, existing_seq,
}
use chon_kv.Kv.Server.{
  KvState, apply_op, apply_command, reap, run_op, execute, set_key, less_bytes, answer_waiter,
}
use chon_kv.Kv.Rpc.{
  GetReply, PutAppendArgs, PutAppendReply, op_of, to_err, put_get_args, get_get_args, put_get_reply,
  get_get_reply, put_write_args, get_write_args, put_write_reply, get_write_reply,
}
use chon_kv.Kv.Rpc.RoundTrip.{decode_get, decode_put_append}
use chon_kv.Kv.Snapshot.{apply_msg}
use chon_kv.Kv.Requests.{
  ReadTurn, get, Attempt, WaitTurn, Event, message, waiter_made, Waited, aborted, waiting, returned,
  put_append, wait_op, wait_result, wait_loop, wait_turn, run_events, step_event, submit,
  put_waiter, find_waiter, erase_waiter, is_answered, is_ok, close_waiter, waiter_of,
}
use chon_kv.Kv.Requests.Reads.{Replied, get-Replied}
use chon_kv.Kv.Requests.Writes.{Backed, Carried, put_append-Backed}
use chon_kv.Kv.Requests.Timeout.{IsOver, put_append-IsOver}

abbrev server : KvState
server = record {
  kv_store = [];
  sessions = [];
  session_cap = 10;
  max_idle_index = 10;
  fenced = [];
  msg_replies = [];
  last_cmd_index = 4;
}

abbrev setting : ℕ → PutAppendArgs
setting c = record { key = 97 ∷ []; value = 5 ∷ []; op = put_name; client_id = pos c; seq_id = 1 }

abbrev reply : GetReply
reply = record { err = ok; value = 5 ∷ []; leader_id = minus_one }

decode_get_example :
    (decode_all get_get_args
        (put_get_args (record { key = 97 ∷ []; client_id = pos 7; seq_id = 3 }))
      ≡ some (record { key = 97 ∷ []; client_id = pos 7; seq_id = 3 }))
    × (decode_all get_get_reply (put_get_reply reply) ≡ some reply)
unfolding of_err to_err
decode_get_example =
    decode_get (record { key = 97 ∷ []; client_id = pos 7; seq_id = 3 }) reply
      (record { key = omega arith; client_id = omega arith; seq_id = omega arith })
      (record { err = (refl, omega arith); value = omega arith; leader_id = omega arith })

abbrev written : PutAppendReply
written = record { err = ok; leader_id = pos 2 }

decode_put_append_example :
    (decode_all get_write_args (put_write_args (setting 7)) ≡ some (setting 7))
    × (decode_all get_write_reply (put_write_reply written) ≡ some written)
unfolding of_err to_err
decode_put_append_example =
    decode_put_append (setting 7) written
      (record {
        key = omega arith;
        value = omega arith;
        op = omega arith;
        client_id = omega arith;
        seq_id = omega arith;
      })
      (record { err = (refl, omega arith); leader_id = omega arith })

-- The state reaches the read index, 5, at the second turn.
abbrev turns : List ReadTurn
turns =
    record { state = server; dead = false; elapsed = 100 }
    ∷ record { state = record server { last_cmd_index = 5 }; dead = false; elapsed = 1001 }
    ∷ []

get-Replied_example : Replied 5 (97 ∷ []) turns (get (pos 0) (pos 5) (pos 1) (97 ∷ []) turns)
get-Replied_example = get-Replied (pos 0) (pos 1) 5 (97 ∷ []) turns (there (here (omega arith)))

abbrev placed : StartResult
placed = record {
  is_leader = true;
  index = pos 5;
  term = 2;
  backpressure = false;
  disk_full = false;
}

abbrev attempts : ℕ → Attempt
attempts n = record { result = placed; dead = false }

abbrev committed : ℕ → ApplyMsg
committed c = record {
  command_valid = true;
  command = put_op (op_of (setting c));
  command_index = 5;
  entry_type = normal;
  snapshot_valid = false;
  snapshot = [];
  snapshot_term = 0;
  snapshot_index = 0;
}

abbrev one_turn : List Event → List WaitTurn
one_turn es = record { events = es; dead = false; elapsed = 1001; leader = pos 0 } ∷ []

put_append-Backed_example : Backed (Carried 5 (pos 7) 1 (one_turn (message (committed 7) ∷ []))) (
    put_append
      (pos 0)
      (setting 7)
      placed
      attempts
      (pos 0)
      (one_turn (message (committed 7) ∷ []))
      server)
unfolding submit
put_append-Backed_example =
    put_append-Backed (pos 0) (setting 7) placed attempts (pos 0)
      (one_turn (message (committed 7) ∷ [])) server ((tt, tt), tt)

put_append-IsOver_example :
    IsOver (put_append (pos 0) (setting 7) placed attempts (pos 0) (one_turn []) server)
put_append-IsOver_example =
    put_append-IsOver (pos 0) (setting 7) placed attempts (pos 0) (one_turn []) server
      (here (omega arith))

abbrev says_ok : Waited → Bool
says_ok aborted = false
says_ok (waiting s) = false
says_ok (returned e leader s) = elim e [ ok ↦ true | _ ↦ false ]

-- Where another WaitOp takes over the waiter of the index, client 7 is told of client 8's command.
taken_over :
    says_ok (
      put_append
        (pos 0)
        (setting 7)
        placed
        attempts
        (pos 0)
        (one_turn (waiter_made (waiter_of (op_of (setting 8)) 5) ∷ message (committed 8) ∷ []))
        server)
    ≡ true
unfolding put_append wait_op wait_result wait_loop wait_turn run_events step_event submit put_waiter
    find_waiter erase_waiter is_answered is_ok close_waiter op_of apply_msg apply_command decode_all
    get_op put_op get_int get_zigzag get_varint get_bytes get_index put_int put_zigzag put_varint
    put_bytes put_index apply_op run_op reap reap_idle reap_over get_seq put_seq find_session
    remove_session find_fence set_fence add_fence existing_seq execute set_key less_bytes
    answer_waiter
taken_over = refl
