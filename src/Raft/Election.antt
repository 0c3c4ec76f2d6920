-- ===== src/Raft/Election.antt =====
-- raft/raft.cpp: the candidate's side of an election (StartElection, StartRealElection, the
-- callbacks of the vote RPCs, BecomeLeaderIfQuorumLocked) and CheckQuorum, by which a leader that
-- has lost its quorum steps down.
pub mod Quorum
pub mod StepDown
use chon_kv.Base.{
  ℕ, zero, suc, ◌+◌, ◌-◌, ◌/◌, Bool, true, false, ◌&&◌, ◌||◌, not, if◌then◌else◌, ltb, leb, ◌==◌, ℤ,
  pos, minus_one, set_ℤ, Option, none, some, List, [], ◌∷◌, ◌++◌, length, get_elem?, set, replicate,
  map,
}
use chon_kv.Store.{append}
use chon_kv.Raft.Types.{
  MemberRole, is_voter, is_removed, to_role, no_op, is_conf_change, LogEntry, VoteArgs, VoteReply,
}
use chon_kv.Raft.State.{
  RaftState, ServerState, follower, candidate, leader, is_leader, is_follower, is_candidate,
  voter_me, quorum_size, last_log_index, last_log_term, convert_to_follower, persist, persist_log,
}

-- kElectionTimeoutMin, kCheckQuorumIntervalMs, kCQMaxConsecFail, kCQStaleWindowMs
abbrev pub election_timeout_min : ℕ
election_timeout_min = 150

abbrev pub check_quorum_interval_ms : ℕ
check_quorum_interval_ms = 150

abbrev pub cq_max_consec_fail : ℕ
cq_max_consec_fail = 5

abbrev pub cq_stale_window_ms : ℕ
cq_stale_window_ms = 150

-- CountGrantedVotes
unfoldable pub count_granted_votes : List MemberRole → List ℕ → ℕ
count_granted_votes [] votes = 0
count_granted_votes (m ∷ ms) [] = 0
count_granted_votes (m ∷ ms) (v ∷ votes) =
    (if is_voter m && v == 1 then 1 else 0) + count_granted_votes ms votes

-- The last index in the uncommitted tail that holds a configuration change, 0 if none does. The
-- list is what stands from index `i` on; `found` is the last hit so far.
unfoldable pub scan_conf_change : ℕ → ℕ → List LogEntry → ℕ → ℕ
scan_conf_change commit i [] found = found
scan_conf_change commit i (e ∷ es) found =
    scan_conf_change commit (suc i) es (if ltb commit i && is_conf_change e.type then i else found)

-- The frozen indices, rebuilt from the configuration changes in the log.
unfoldable pub rebuild_removed : List LogEntry → List ℤ → List ℤ
rebuild_removed [] r = r
rebuild_removed (e ∷ es) r = rebuild_removed es (
    if is_conf_change e.type
    then set_ℤ r e.conf_server (if is_removed (to_role e.conf_role) then pos e.index else minus_one)
    else r)

-- The no-op that a new leader appends when its log reaches past the commit index.
abbrev pub noop_entry : RaftState → LogEntry
noop_entry s = record {
  term = s.current_term;
  index = last_log_index s + 1;
  command = [];
  type = no_op;
  conf_server = minus_one;
  conf_role = pos 0;
}

unfoldable pub add_noop : RaftState → RaftState
add_noop s =
    let e = noop_entry s in
    if ltb s.commit_index (last_log_index s)
    then (let t =
          persist_log (record s { logs = s.logs ++ e ∷ []; log_store = append s.log_store e }) in
        record t { read_safe_commit = last_log_index t })
    else record s { read_safe_commit = s.commit_index }

unfoldable pub take_office : ℕ → RaftState → RaftState
take_office now s = record s {
  next_index = replicate s.peers (last_log_index s + 1);
  match_index = replicate s.peers 0;
  heartbeat_seq = s.heartbeat_seq + 1;
  last_heartbeat = now;
  state = leader;
  leader_id = pos s.me;
  pending_stepdown = false;
  cq_consec_fail = replicate s.peers 0;
  pending_conf_index = scan_conf_change s.commit_index s.snapshot_index s.logs 0;
  removed_at_index = rebuild_removed s.logs (replicate s.peers minus_one);
}

-- Raft::BecomeLeaderIfQuorumLocked
unfoldable pub become_leader_if_quorum : ℕ → RaftState → RaftState
become_leader_if_quorum now s =
    if is_candidate s.state
      && voter_me s
      && leb (quorum_size s) (count_granted_votes s.is_member s.vote_granted)
    then take_office now (add_noop (record s { last_quorum_check = now }))
    else s

-- `assign(peers, 0)`, then this node's own vote.
abbrev pub own_vote : RaftState → List ℕ
own_vote s = if voter_me s then set (replicate s.peers 0) s.me 1 else replicate s.peers 0

-- Raft::StartRealElection up to the RPCs: a new term, a vote for oneself, both persisted.
unfoldable pub start_real_election : ℕ → RaftState → RaftState
start_real_election now s =
    let t = record s { num_prevotes = 0 } in
    if s.killed
      || not (is_follower s.state)
      || not (voter_me s)
      || ltb now (s.last_heartbeat + election_timeout_min)
    then t
    else (let c = persist (record t {
      state = candidate;
      current_term = s.current_term + 1;
      voted_for = pos s.me;
      num_votes = if voter_me s then 1 else 0;
      vote_granted = own_vote s;
      last_heartbeat = now;
    }) in
        become_leader_if_quorum now c)

-- The message that SendRequestVoteRPCs sends, if this node is still a candidate and a voter.
unfoldable pub vote_request : RaftState → Option VoteArgs
vote_request s =
    if s.killed || not (is_candidate s.state) || not (voter_me s)
    then none
    else some (record {
      term = s.current_term;
      candidate_id = pos s.me;
      last_log_index = last_log_index s;
      last_log_term = last_log_term s;
    })

-- The callback of RequestVote: `sent` is the request, `i` the node that answered.
unfoldable pub on_vote_reply : ℕ → VoteArgs → ℕ → VoteReply → RaftState → RaftState
on_vote_reply now sent i r s =
    if s.killed
    then s
    else if ltb s.current_term r.term
    then (let t = convert_to_follower r.term s in record t { last_heartbeat = now })
    else if is_candidate s.state && sent.term == s.current_term && r.vote_granted && voter_me s
    then become_leader_if_quorum now
        (record s { num_votes = s.num_votes + 1; vote_granted = set s.vote_granted i 1 })
    else s

-- Raft::StartElection: the pre-vote round, with the request to send to the other voters. A round
-- that this node alone decides goes straight to the election.
unfoldable pub start_election : ℕ → RaftState → RaftState × Option VoteArgs
start_election now s =
    let c = (if is_candidate s.state then convert_to_follower s.current_term s else s) in
    let t = record c {
      num_prevotes = (if voter_me c then 1 else 0);
      prevote_granted = own_vote c;
    } in
    let request : VoteArgs = record {
      term = t.current_term;
      candidate_id = pos t.me;
      last_log_index = last_log_index t;
      last_log_term = last_log_term t;
    } in
    if s.killed || is_leader s.state || not (voter_me s)
    then (s, none)
    else if ltb now (c.last_heartbeat + election_timeout_min)
    then (c, none)
    else if is_follower t.state
        && leb (quorum_size t) (count_granted_votes t.is_member t.prevote_granted)
    then (start_real_election now t, none)
    else (t, some request)

-- The callback of RequestPreVote.
unfoldable pub on_pre_vote_reply : ℕ → VoteArgs → ℕ → VoteReply → RaftState → RaftState
on_pre_vote_reply now sent i r s =
    let t = record s {
      num_prevotes = s.num_prevotes + 1;
      prevote_granted = set s.prevote_granted i 1;
    } in
    if s.killed
    then s
    else if ltb s.current_term r.term
    then (let c = convert_to_follower r.term s in record c { last_heartbeat = now })
    else if sent.term == s.current_term && is_follower s.state && r.vote_granted
    then (if leb (quorum_size t) (count_granted_votes t.is_member t.prevote_granted)
        then start_real_election now t
        else t)
    else s

-- The other voters that CheckQuorum counts as alive: few enough failures in a row, or an answer of
-- late. `i` is the id of the head of the lists.
unfoldable pub count_live : ℕ → ℕ → ℕ → List MemberRole → List ℕ → List ℕ → ℕ
count_live now me i [] fails acks = 0
count_live now me i (m ∷ ms) [] acks = 0
count_live now me i (m ∷ ms) (f ∷ fails) [] = 0
count_live now me i (m ∷ ms) (f ∷ fails) (a ∷ acks) =
    (if is_voter m
        && not (i == me)
        && (ltb f cq_max_consec_fail || (not (a == 0) && ltb now (a + cq_stale_window_ms)))
      then 1
      else 0)
    + count_live now me (suc i) ms fails acks

-- The leader's tick in ElectionTimerLoop: check the quorum when it is due, then ask for a heartbeat.
unfoldable pub leader_tick : ℕ → RaftState → RaftState
leader_tick now s =
    let live =
      (if voter_me s then 1 else 0)
      + count_live now s.me 0 s.is_member s.cq_consec_fail s.last_ack_time in
    let c = record s { last_quorum_check = now } in
    if not (is_leader s.state)
    then s
    else if leb (s.last_quorum_check + check_quorum_interval_ms) now
    then (if ltb live (quorum_size s)
        then convert_to_follower s.current_term c
        else record c { heartbeat_seq = s.heartbeat_seq + 1 })
    else record s { heartbeat_seq = s.heartbeat_seq + 1 }
