-- ===== src/Raft/Replicate/Tests.antt =====
-- The theorems on replication at a leader and a follower of a cluster of three.
use chon_kv.Base.{◌≡◌, refl, true, false, pos, [], ◌∷◌, arith}
use chon_kv.Store.{LogStore}
use chon_kv.Raft.Types.{plain_entry, AppendEntriesArgs, AppendEntriesReply, is_removed_frozen}
use chon_kv.Raft.State.{RaftState, leader, init, persist, convert_to_follower}
use chon_kv.Raft.Invariant.{IsValid}
use chon_kv.Raft.Append.{append_entries, follow, check_prev}
use chon_kv.Raft.Append.Matching.{Accepted}
use chon_kv.Raft.Replicate.{
  entries, replicate_round, plan, send_round, batch, batch_end, prev_term, collect, on_append_reply,
  chunks,
}
use chon_kv.Raft.Replicate.Sent.{IsSound, replicate_round-IsSound}
use chon_kv.Raft.Replicate.Chunks.{assemble, chunks-assemble}
use chon_kv.Raft.Replicate.Delivery.{replicate_round-append_entries}
use chon_kv.Raft.Replicate.Replies.{Replied, on_append_reply-Replied}

abbrev memory : LogStore
memory = record {
  keeps_log_externally = false;
  entries = [];
  offsets = [];
  file_size = 0;
  aborted = false;
}

-- Node 1 leads term 2 and has sent nothing yet; node 0 is empty.
abbrev chief : RaftState
unfolding init
chief = record (init 1 3 memory) {
  state = leader;
  current_term = 2;
  logs = plain_entry 0 0 [] ∷ plain_entry 1 1 (7 ∷ []) ∷ plain_entry 2 2 (8 ∷ []) ∷ [];
  commit_index = 1;
}

chief-IsValid : IsValid chief
unfolding init
chief-IsValid = record {
  is_log = record { contiguous = (refl, (refl, (refl, tt))); sentinel = omega arith };
  covered = omega arith;
  committed = omega arith;
}

abbrev fresh : RaftState
unfolding init
fresh = init 0 3 memory

fresh-IsValid : IsValid fresh
unfolding init
fresh-IsValid = record {
  is_log = record { contiguous = (refl, tt); sentinel = omega arith };
  covered = omega arith;
  committed = omega arith;
}

abbrev whole_log : AppendEntriesArgs
whole_log = record {
  term = 2;
  leader_id = pos 1;
  prev_log_index = 0;
  prev_log_term = 0;
  entries = plain_entry 1 1 (7 ∷ []) ∷ plain_entry 2 2 (8 ∷ []) ∷ [];
  leader_commit = 1;
  read_ctx = 0;
}

round_sends_log : (replicate_round 500 0 0 chief).1 ≡ entries whole_log
unfolding init replicate_round plan send_round batch batch_end prev_term collect is_removed_frozen
round_sends_log = refl

replicate_round-IsSound_example : IsSound chief (replicate_round 500 0 0 chief).1
replicate_round-IsSound_example = replicate_round-IsSound 500 0 0 chief chief-IsValid

replicate_round-append_entries_example :
    Accepted whole_log fresh (append_entries 501 whole_log fresh).0
unfolding init append_entries follow convert_to_follower persist check_prev
replicate_round-append_entries_example =
    replicate_round-append_entries 500 501 0 0 chief fresh whole_log chief-IsValid fresh-IsValid
      round_sends_log ((λ lt le. absurd (omega arith)), ((λ lt le. absurd (omega arith)), tt)) refl

abbrev success : AppendEntriesReply
success = record { term = 2; success = true; next_index = 0; read_ctx = 0 }

on_append_reply-Replied_example :
    Replied 0 whole_log true success chief (on_append_reply 502 0 whole_log true success chief)
on_append_reply-Replied_example =
    on_append_reply-Replied 502 0 whole_log true success chief chief-IsValid

chunks-assemble_example : assemble (chunks (1 ∷ 2 ∷ 3 ∷ [])) [] ≡ 1 ∷ 2 ∷ 3 ∷ []
chunks-assemble_example = chunks-assemble (1 ∷ 2 ∷ 3 ∷ [])
