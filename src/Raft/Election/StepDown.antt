-- ===== src/Raft/Election/StepDown.antt =====
-- raft/raft.cpp: CheckQuorum in ElectionTimerLoop and ConvertToFollowerLocked, followed by
-- RequestVote in the same term.
use chon_kv.Base.{
  ℕ, ◌≤◌, ◌<◌, ◌≡◌, refl, ◌≢◌, true, false, pos, arith, ◌∙◌, sym, if◌then◌else◌, ◌+◌,
}
use chon_kv.Raft.Types.{VoteArgs}
use chon_kv.Raft.State.{
  RaftState, leader, voter_at, voter_me, quorum_size, absent_or_removed, convert_to_follower,
}
use chon_kv.Raft.Vote.{may_vote, vote_in_term, enter_term, request_vote, up_to_date}
use chon_kv.Raft.Vote.Safety.{Granted, request_vote-Granted}
use chon_kv.Raft.Election.{leader_tick, count_live, check_quorum_interval_ms}

-- The voters that CheckQuorum finds alive are fewer than a quorum, and the check is due.
pub record QuorumLost (now : ℕ) (s : RaftState) : Type 0 where
  pub role : s.state ≡ leader
  pub due : s.last_quorum_check + check_quorum_interval_ms ≤ now
  pub few :
      (if voter_me s then 1 else 0)
        + count_live now s.me 0 s.is_member s.cq_consec_fail s.last_ack_time
      < quorum_size s

deposed :
    (now : ℕ) (s : RaftState)
    → QuorumLost now s
    → leader_tick now s ≡ convert_to_follower s.current_term (record s { last_quorum_check = now })
unfolding leader_tick
deposed now s q = ground (arith, q.role, q.due, q.few)

grants_again :
    (now later : ℕ) (s : RaftState) (b : VoteArgs)
    → s.killed ≡ false
    → b.term ≡ s.current_term
    → voter_at s.is_member b.candidate_id ≡ true
    → absent_or_removed s ≡ false
    → up_to_date s b ≡ true
    → (request_vote later b
        (convert_to_follower s.current_term (record s { last_quorum_check = now }))).1.vote_granted
      ≡ true
unfolding request_vote enter_term vote_in_term may_vote convert_to_follower
grants_again now later s b alive same cand present log = ground arith

-- A leader that had voted for itself in its term, is alive and not removed, and loses its quorum at
-- a tick stays in the term; it then grants a vote of the same term to another voter whose log is
-- not behind.
pub deposed_leader_votes_again :
    (now later : ℕ) (s : RaftState) (b : VoteArgs)
    → QuorumLost now s
    → s.killed ≡ false
    → s.voted_for ≡ pos s.me
    → b.term ≡ s.current_term
    → b.candidate_id ≢ pos s.me
    → voter_at s.is_member b.candidate_id ≡ true
    → absent_or_removed s ≡ false
    → up_to_date s b ≡ true
    → ((leader_tick now s).current_term ≡ s.current_term)
      × ((request_vote later b (leader_tick now s)).1.vote_granted ≡ true)
      × ((request_vote later b (leader_tick now s)).0.current_term ≡ s.current_term)
      × ((request_vote later b (leader_tick now s)).0.voted_for ≢ s.voted_for)
deposed_leader_votes_again now later s b q alive own same other cand present log =
    rw (deposed now s q) (kept, granted, g.term ∙ same, λ e. other (sym g.vote ∙ e ∙ own))
  where
    d : RaftState
    d = convert_to_follower s.current_term (record s { last_quorum_check = now })

    kept : d.current_term ≡ s.current_term
    kept = unfold convert_to_follower in refl

    granted : (request_vote later b d).1.vote_granted ≡ true
    granted = grants_again now later s b alive same cand present log

    g : Granted b d (request_vote later b d).0
    g = request_vote-Granted later b d granted
