-- ===== src/Raft/Reads/Tests.antt =====
-- raft/raft.cpp: ReadIndex on the leader of three servers.
use chon_kv.Base.{pos, arith, ◌≡◌, refl, true, false, none, List, [], ◌∷◌}
use chon_kv.Store.{LogStore}
use chon_kv.Raft.Types.{AppendEntriesArgs, plain_entry}
use chon_kv.Raft.State.{RaftState, leader, init, count_voters, convert_to_follower, persist}
use chon_kv.Raft.Election.{count_granted_votes}
use chon_kv.Raft.Reads.{
  ReadTable, no_reads, read_heartbeat, find_round, put_round, active_round, serves, Ticket,
  join_round, start_round, is_open, join_or_start, waits, begin_read, counted, ack_round,
  ack_active, record_read_ack, is_active, leave, round_turn, read_turn, ReadEvent, opened, acked_by,
  turned, reads_of, after_turn, step_reads, run_reads,
}
use chon_kv.Raft.Reads.Delivery.{Follows, append_entries-Follows}
use chon_kv.Raft.Append.{append_entries, follow, check_prev}
use chon_kv.Raft.Replicate.{prev_term}
use chon_kv.Raft.Reads.Confirmed.{IsConfirmed, read_index-IsConfirmed}

abbrev memory : LogStore
memory = record {
  keeps_log_externally = false;
  entries = [];
  offsets = [];
  file_size = 0;
  aborted = false;
}

abbrev head_node : RaftState
unfolding init
head_node = record (init 0 3 memory) {
  state = leader;
  current_term = 2;
  logs = plain_entry 0 0 [] ∷ plain_entry 1 1 (7 ∷ []) ∷ plain_entry 2 2 (8 ∷ []) ∷ [];
  commit_index = 2;
  read_safe_commit = 2;
}

abbrev first_ticket : Ticket
first_ticket = record { ctx = 1; term = 2; read_index = 2; starter = true }

-- Another caller joins, server 2 answers, and the other caller leaves.
abbrev meanwhile : List ReadEvent
meanwhile =
    opened 0 head_node
    ∷ acked_by head_node 1 2
    ∷ turned false head_node (record first_ticket { starter = false })
    ∷ []

abbrev first_reads : ReadTable
unfolding join_or_start start_round put_round
first_reads = (join_or_start head_node none no_reads).1

-- A caller that comes when the round is done begins a round of its own.
done_round :
    begin_read 0 head_node (run_reads (acked_by head_node 1 2 ∷ []) first_reads)
    ≡ waits
        (record first_ticket { ctx = 2 })
        (start_round head_node (run_reads (acked_by head_node 1 2 ∷ []) first_reads)).1
unfolding init begin_read serves active_round join_or_start join_round start_round is_open put_round
    find_round run_reads step_reads reads_of after_turn record_read_ack ack_active ack_round counted
    count_voters count_granted_votes
done_round = refl

read_index-IsConfirmed_example : IsConfirmed head_node 1 meanwhile first_reads head_node 2
unfolding init begin_read serves active_round join_or_start join_round start_round is_open put_round
    find_round run_reads step_reads reads_of after_turn record_read_ack ack_active ack_round counted
    count_voters count_granted_votes read_turn round_turn leave is_active
read_index-IsConfirmed_example =
    read_index-IsConfirmed 0 [] head_node first_ticket first_reads meanwhile false head_node 2 _
      refl refl

-- The heartbeat of the first round, at a server that is a term behind and has another entry.
abbrev behind_node : RaftState
unfolding init
behind_node = record (init 1 3 memory) {
  current_term = 1;
  logs = plain_entry 0 0 [] ∷ plain_entry 1 1 (7 ∷ []) ∷ plain_entry 1 2 (9 ∷ []) ∷ [];
  commit_index = 1;
}

abbrev heartbeat : AppendEntriesArgs
heartbeat = record {
  term = 2;
  leader_id = pos 0;
  prev_log_index = 2;
  prev_log_term = 2;
  entries = [];
  leader_commit = 2;
  read_ctx = 1;
}

append_entries-Follows_example :
    Follows 1 head_node behind_node
      (append_entries 9 heartbeat behind_node).0
      (append_entries 9 heartbeat behind_node).1.read_ctx
unfolding init read_heartbeat prev_term append_entries follow convert_to_follower persist check_prev
append_entries-Follows_example =
    append_entries-Follows 9 1 1 head_node behind_node heartbeat refl refl (omega arith)
