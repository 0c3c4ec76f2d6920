-- ===== src/Raft/Vote.antt =====
-- raft/raft.cpp: RequestVote and RequestPreVote, the voter's side of an election.
pub mod Safety
pub mod Once
use chon_kv.Base.{
  ℕ, Bool, true, false, ◌&&◌, ◌||◌, not, if◌then◌else◌, ltb, leb, ◌==◌, minus_one, eqz,
}
use chon_kv.Raft.Types.{VoteArgs, VoteReply}
use chon_kv.Raft.State.{
  RaftState, voter_at, absent_or_removed, last_log_index, last_log_term, convert_to_follower,
  persist,
}

-- The candidate's log is not behind this node's.
abbrev pub up_to_date : RaftState → VoteArgs → Bool
up_to_date s a =
    ltb (last_log_term s) a.last_log_term
    || (a.last_log_term == last_log_term s && leb (last_log_index s) a.last_log_index)

abbrev pub answer : RaftState → Bool → RaftState × VoteReply
answer s granted = (s, record { term = s.current_term; vote_granted = granted })

-- What keeps a node that has reached the candidate's term from voting.
unfoldable pub may_vote : RaftState → VoteArgs → Bool
may_vote s a =
    voter_at s.is_member a.candidate_id
    && not (absent_or_removed s)
    && (eqz s.voted_for minus_one || eqz s.voted_for a.candidate_id)
    && up_to_date s a

unfoldable pub vote_in_term : ℕ → VoteArgs → RaftState → RaftState × VoteReply
unfolding persist
vote_in_term now a s =
    if may_vote s a
    then answer (persist (record s { voted_for = a.candidate_id; last_heartbeat = now })) true
    else answer s false

-- A larger term is taken over first; `reply.term` is the term after that.
unfoldable pub enter_term : ℕ → RaftState → RaftState
unfolding convert_to_follower
enter_term t s = if ltb s.current_term t then convert_to_follower t s else s

-- Raft::RequestVote
unfoldable pub request_vote : ℕ → VoteArgs → RaftState → RaftState × VoteReply
request_vote now a s =
    if s.killed || ltb a.term s.current_term
    then answer s false
    else vote_in_term now a (enter_term a.term s)

-- Raft::RequestPreVote: no state changes.
unfoldable pub request_pre_vote : VoteArgs → RaftState → RaftState × VoteReply
request_pre_vote a s = answer s (
    not s.killed
    && voter_at s.is_member a.candidate_id
    && not (absent_or_removed s)
    && up_to_date s a)
