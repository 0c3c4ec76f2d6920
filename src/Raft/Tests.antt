-- ===== src/Raft/Tests.antt =====
-- The theorems on the consensus core at concrete states of a cluster of three.
use chon_kv.Base.{
  ℕ, ◌≤◌, ◌<◌, ◌≡◌, ◌≢◌, refl, ◌⊎◌, true, false, ℤ, pos, negsuc, [], ◌∷◌, some, arith,
}
use chon_kv.Codec.{decode_all}
use chon_kv.Store.{LogStore, append}
use chon_kv.Raft.Types.{
  plain_entry, to_entry_type, of_entry_type, to_role, VoteArgs, AppendEntriesArgs,
  InstallSnapshotArgs, learner, voter, removed,
}
use chon_kv.Raft.Wire.{
  put_vote_args, get_vote_args, put_append_args, get_append_args, put_snapshot_args,
  get_snapshot_args,
}
use chon_kv.Raft.Wire.RoundTrip.{IsIndex, EntryFits, message_round_trips}
use chon_kv.Raft.State.{
  RaftState, leader, init, persist, persist_log, convert_to_follower, count_voters,
}
use chon_kv.Raft.Invariant.{IsValid}
use chon_kv.Raft.Vote.{request_vote, may_vote, vote_in_term, enter_term}
use chon_kv.Raft.Vote.Safety.{Granted, request_vote-Granted}
use chon_kv.Raft.Vote.Once.{ask, replicate, receive, receive_all, votes_once}
use chon_kv.Raft.Election.{count_granted_votes, count_live, leader_tick}
use chon_kv.Raft.Election.Quorum.{Common, quorums_intersect}
use chon_kv.Raft.Election.StepDown.{QuorumLost, deposed_leader_votes_again}
use chon_kv.Raft.Append.{
  append_entries, follow, follow_commit, write_entries, check_prev, put_all, put_one,
}
use chon_kv.Raft.Append.Matching.{Accepted, append_entries-Accepted, SameLog}
use chon_kv.Raft.Append.Refusal.{TooShort, Conflict, append_entries-refused}
use chon_kv.Raft.Commit.{
  advance_commit_index, may_commit, term_ok, matched, sort, insert_sorted, voter_matches,
}
use chon_kv.Raft.Commit.Quorum.{
  Commits, advance_commit_index-Commits, advance_commit_index_progress, OwnTail, count_holders,
}
use chon_kv.Raft.Propose.{start, propose_conf_change_to}
use chon_kv.Raft.Propose.Accepted.{
  Started, Rejected, Changed, start_cases, propose_conf_change_to_cases,
}
use chon_kv.Raft.Snapshot.{
  snapshot, install_snapshot, install, receive_chunk, hear, align, place, overwrite, take_members,
  save_snapshot_blob,
}
use chon_kv.Raft.Crc.{crc32, crc32_update, crc32_raw, table_entry, xor}
use chon_kv.Raft.Snapshot.Compaction.{Snapped, snapshot_cases}
use chon_kv.Raft.Snapshot.Outcome.{Ends, install_snapshot-Ends}

abbrev memory : LogStore
memory = record {
  keeps_log_externally = false;
  entries = [];
  offsets = [];
  file_size = 0;
  aborted = false;
}

-- Node 1 of three, with two entries of terms 1 and 2 behind the sentinel, the first committed.
abbrev node : RaftState
unfolding init
node = record (init 1 3 memory) {
  current_term = 2;
  logs = plain_entry 0 0 [] ∷ plain_entry 1 1 (7 ∷ []) ∷ plain_entry 2 2 (8 ∷ []) ∷ [];
  commit_index = 1;
}

node-IsValid : IsValid node
unfolding init
node-IsValid = record {
  is_log = record { contiguous = (refl, (refl, (refl, tt))); sentinel = omega arith };
  covered = omega arith;
  committed = omega arith;
}

abbrev ballot : ℤ → VoteArgs
ballot c = record { term = 3; candidate_id = c; last_log_index = 2; last_log_term = 2 }

request_vote-Granted_example :
    Granted (ballot (pos 0)) node (request_vote 9 (ballot (pos 0)) node).0
unfolding init request_vote vote_in_term enter_term may_vote convert_to_follower persist
request_vote-Granted_example = request_vote-Granted 9 (ballot (pos 0)) node refl

-- An AppendEntries that replaces the entry of term 2 and adds one.
abbrev two_entries : AppendEntriesArgs
two_entries = record {
  term = 3;
  leader_id = pos 0;
  prev_log_index = 1;
  prev_log_term = 1;
  entries = plain_entry 3 2 (9 ∷ []) ∷ plain_entry 3 3 (10 ∷ []) ∷ [];
  leader_commit = 2;
  read_ctx = 0;
}

append_entries-Accepted_example : Accepted two_entries node (append_entries 9 two_entries node).0
unfolding init append_entries follow convert_to_follower persist check_prev
append_entries-Accepted_example =
    append_entries-Accepted 9 two_entries node node-IsValid (refl, (refl, tt))
      ((λ lt le. absurd (omega arith)), ((λ lt le. absurd (omega arith)), tt)) refl

-- The same with a previous entry that is of another term here.
abbrev misfit : AppendEntriesArgs
misfit = record two_entries { prev_log_index = 2; prev_log_term = 3; entries = [] }

append_entries-refused_example :
    SameLog node (append_entries 9 misfit node).0
    × (0 < (append_entries 9 misfit node).1.next_index)
    × (TooShort misfit 0 node.logs (append_entries 9 misfit node).1.next_index
        ⊎ Conflict misfit 0 node.logs (append_entries 9 misfit node).1.next_index)
unfolding init append_entries follow convert_to_follower persist check_prev
append_entries-refused_example = append_entries-refused 9 misfit node refl (omega arith) refl

-- The same candidate asks once more, with a longer log.
abbrev again : ℤ → VoteArgs
again c = record (ballot c) { last_log_index = 4 }

votes_once_example : (ballot (pos 0)).candidate_id ≡ (again (pos 0)).candidate_id
unfolding init request_vote vote_in_term enter_term may_vote convert_to_follower persist receive
    receive_all append_entries follow check_prev write_entries follow_commit put_all put_one
    persist_log append
votes_once_example =
    votes_once 9 12 (ballot (pos 0)) (again (pos 0))
      (ask 10 (ballot (pos 2)) ∷ replicate 11 misfit ∷ []) node refl refl refl refl

quorums_intersect_example :
    Common (voter ∷ voter ∷ learner ∷ voter ∷ []) (1 ∷ 1 ∷ 1 ∷ 0 ∷ []) (0 ∷ 1 ∷ 0 ∷ 1 ∷ [])
unfolding count_voters count_granted_votes
quorums_intersect_example =
    quorums_intersect (voter ∷ voter ∷ learner ∷ voter ∷ []) (1 ∷ 1 ∷ 1 ∷ 0 ∷ [])
      (0 ∷ 1 ∷ 0 ∷ 1 ∷ []) (omega arith) (omega arith)

-- The same node as leader of term 2; node 2 holds its whole log.
abbrev chief : RaftState
unfolding init
chief = record node {
  state = leader;
  voted_for = pos 1;
  match_index = 0 ∷ 0 ∷ 2 ∷ [];
  cq_consec_fail = 5 ∷ 0 ∷ 5 ∷ [];
}

chief-IsValid : IsValid chief
unfolding init
chief-IsValid = record {
  is_log = record { contiguous = (refl, (refl, (refl, tt))); sentinel = omega arith };
  covered = omega arith;
  committed = omega arith;
}

advance_commit_index-Commits_example : Commits chief (advance_commit_index chief).commit_index
unfolding init advance_commit_index may_commit term_ok matched sort insert_sorted voter_matches
    count_voters
advance_commit_index-Commits_example = advance_commit_index-Commits chief (omega arith)

chief-OwnTail : OwnTail chief 2
unfolding init count_holders
chief-OwnTail = record {
  valid = chief-IsValid;
  role = refl;
  own = λ i lo hi. let e : i ≡ 2 = omega arith in rw e refl;
  bounded = refl;
}

advance_commit_index_progress_example : 2 ≤ (advance_commit_index chief).commit_index
unfolding init count_holders count_voters
advance_commit_index_progress_example =
    advance_commit_index_progress chief 2 chief-OwnTail (omega arith) (omega arith)

start_cases_example :
    (((start (5 ∷ []) chief).1.is_leader ≡ true)
      × Started (5 ∷ []) chief (start (5 ∷ []) chief).0 (start (5 ∷ []) chief).1)
    ⊎ (((start (5 ∷ []) chief).1.is_leader ≡ false)
        × Rejected chief (start (5 ∷ []) chief).0 (start (5 ∷ []) chief).1)
start_cases_example = start_cases (5 ∷ []) chief chief-IsValid

propose_conf_change_to_cases_example :
    let r = propose_conf_change_to (pos 2) removed chief in
    ((chief.state ≡ leader)
      × (chief.pending_stepdown ≡ false)
      × Changed (pos 2) removed chief r.0 r.1)
    ⊎ Rejected chief r.0 r.1
propose_conf_change_to_cases_example =
    propose_conf_change_to_cases (pos 2) removed chief chief-IsValid

chief-QuorumLost : QuorumLost 1000 chief
unfolding init count_voters count_live
chief-QuorumLost = record { role = refl; due = omega arith; few = omega arith }

abbrev rival : VoteArgs
rival = record { term = 2; candidate_id = pos 0; last_log_index = 2; last_log_term = 2 }

deposed_leader_votes_again_example :
    ((leader_tick 1000 chief).current_term ≡ 2)
    × ((request_vote 1001 rival (leader_tick 1000 chief)).1.vote_granted ≡ true)
    × ((request_vote 1001 rival (leader_tick 1000 chief)).0.current_term ≡ 2)
    × ((request_vote 1001 rival (leader_tick 1000 chief)).0.voted_for ≢ pos 1)
unfolding init
deposed_leader_votes_again_example =
    deposed_leader_votes_again 1000 1001 chief rival chief-QuorumLost refl refl refl (λ e. cc) refl
      refl refl

abbrev chunk : InstallSnapshotArgs
chunk = record {
  term = 3;
  leader_id = pos 0;
  last_included_index = 2;
  last_included_term = 2;
  offset = pos 0;
  chunk_size = pos 2;
  done = true;
  crc = negsuc 1228127597;
  epoch = pos 1;
  chunk = 1 ∷ 2 ∷ [];
  members = pos 2 ∷ pos 2 ∷ pos 2 ∷ [];
}

fits : (t i c : ℕ) → IsIndex t → IsIndex i → EntryFits (plain_entry t i (c ∷ []))
unfolding to_entry_type of_entry_type
fits t i c ht hi = record {
  term = ht;
  index = hi;
  command = omega arith;
  type = refl;
  type_int = omega arith;
  server = omega arith;
  role = omega arith;
}

message_round_trips_example :
    (decode_all get_vote_args (put_vote_args (ballot (pos 2))) ≡ some (ballot (pos 2)))
    × (decode_all get_append_args (put_append_args two_entries) ≡ some two_entries)
    × (decode_all get_snapshot_args (put_snapshot_args chunk) ≡ some chunk)
message_round_trips_example =
    message_round_trips (ballot (pos 2)) two_entries chunk (omega arith)
      (record {
        term = omega arith;
        leader = omega arith;
        prev_index = omega arith;
        prev_term = omega arith;
        commit = omega arith;
        ctx = omega arith;
        each =
            (fits 3 2 9 (omega arith) (omega arith), (fits 3 3 10 (omega arith) (omega arith), tt));
        count = omega arith;
      })
      (omega arith)

snapshot_cases_example :
    ((node.snapshot_index < 1)
      × (1 ≤ node.commit_index)
      × Snapped 1 (4 ∷ []) node (snapshot 1 (4 ∷ []) node))
    ⊎ (((1 ≤ node.snapshot_index) ⊎ (node.commit_index < 1)) × (snapshot 1 (4 ∷ []) node ≡ node))
snapshot_cases_example = snapshot_cases 1 (4 ∷ []) node node-IsValid

install_snapshot-Ends_example :
    Ends chunk node (install_snapshot 9 chunk node).0 (install_snapshot 9 chunk node).1.ok_install
unfolding init
install_snapshot-Ends_example = install_snapshot-Ends 9 chunk node node-IsValid (omega arith)

-- The chunk above is a whole snapshot, and the node takes it.
chunk_is_installed : (install_snapshot 9 chunk node).1.ok_install ≡ true
unfolding init install_snapshot install receive_chunk hear align place overwrite take_members
    save_snapshot_blob convert_to_follower persist persist_log crc32 crc32_update crc32_raw
    table_entry xor to_role
chunk_is_installed = refl
