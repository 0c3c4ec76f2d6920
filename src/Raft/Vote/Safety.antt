-- ===== src/Raft/Vote/Safety.antt =====
-- raft/raft.cpp: the grant of a vote by RequestVote.
use chon_kv.Base.{
  ℕ, ◌≤◌, ◌<◌, ◌≡◌, ◌⊎◌, inl, inr, true, false, ltb, ltb→lt, ◌∙◌, ◌||◌, minus_one, eqz_iff,
  Bool-cases, arith,
}
use chon_kv.Raft.Types.{VoteArgs}
use chon_kv.Raft.State.{RaftState, voter_at, last_log_index, last_log_term, convert_to_follower}
use chon_kv.Raft.Vote.{may_vote, vote_in_term, enter_term, request_vote}

-- What the test says, part by part.
pub record MayVote (s : RaftState) (a : VoteArgs) : Type 0 where
  pub candidate : voter_at s.is_member a.candidate_id ≡ true
  pub free : (s.voted_for ≡ minus_one) ⊎ (s.voted_for ≡ a.candidate_id)
  pub log :
      (last_log_term s < a.last_log_term)
      ⊎ ((last_log_term s ≡ a.last_log_term) × (last_log_index s ≤ a.last_log_index))

pub may_vote-MayVote : (s : RaftState) (a : VoteArgs) → may_vote s a ≡ true → MayVote s a
unfolding may_vote
may_vote-MayVote s a h = record {
  candidate = ground arith;
  free = ground (arith, eqz_iff s.voted_for minus_one, eqz_iff s.voted_for a.candidate_id);
  log = ground arith;
}

-- What holds once `a` was granted by a node that was in state `s` and is in state `t`.
pub record Granted (a : VoteArgs) (s t : RaftState) : Type 0 where
  pub term : t.current_term ≡ a.term
  pub not_behind : s.current_term ≤ a.term
  pub vote : t.voted_for ≡ a.candidate_id
  pub free : (s.current_term < a.term) ⊎ (s.voted_for ≡ minus_one) ⊎ (s.voted_for ≡ a.candidate_id)
  pub candidate : voter_at s.is_member a.candidate_id ≡ true
  pub log :
      (last_log_term s < a.last_log_term)
      ⊎ ((last_log_term s ≡ a.last_log_term) × (last_log_index s ≤ a.last_log_index))
  pub disk_term : t.disk.term ≡ a.term
  pub disk_vote : t.disk.voted_for ≡ a.candidate_id

pub vote_in_term-Granted :
    (now : ℕ) (a : VoteArgs) (s : RaftState)
    → (vote_in_term now a s).1.vote_granted ≡ true
    → MayVote s a
      × ((vote_in_term now a s).0.current_term ≡ s.current_term)
      × ((vote_in_term now a s).0.voted_for ≡ a.candidate_id)
      × ((vote_in_term now a s).0.disk.term ≡ s.current_term)
      × ((vote_in_term now a s).0.disk.voted_for ≡ a.candidate_id)
unfolding vote_in_term
vote_in_term-Granted now a s h = elim (Bool-cases (may_vote s a)) [
  | inl e ↦ (may_vote-MayVote s a e, rw e, rw e, rw e, rw e)
  | inr e ↦ cc (rw e at h)
]

-- Entering a term keeps the log and the members, and forgets the vote only with the old term.
pub record Entered (t : ℕ) (s u : RaftState) : Type 0 where
  pub logs : u.logs ≡ s.logs
  pub is_member : u.is_member ≡ s.is_member
  pub case :
      ((s.current_term < t) × (u.current_term ≡ t) × (u.voted_for ≡ minus_one))
      ⊎ ((t ≤ s.current_term) × (u ≡ s))

pub enter_term-Entered : (t : ℕ) (s : RaftState) → Entered t s (enter_term t s)
unfolding enter_term convert_to_follower
enter_term-Entered t s = elim (Bool-cases (ltb s.current_term t)) [
  | inl e ↦ record { logs = rw e; is_member = rw e; case = inl (ltb→lt _ _ e, rw e, rw e) }
  | inr e ↦ record { logs = rw e; is_member = rw e; case = inr (ground arith, rw e) }
]

-- A granted vote binds the node to the candidate in memory and on disk, in a term that it was not
-- past, and in that term it had voted for nobody else; the candidate is a voter whose log is not
-- behind.
pub request_vote-Granted :
    (now : ℕ) (a : VoteArgs) (s : RaftState)
    → (request_vote now a s).1.vote_granted ≡ true
    → Granted a s (request_vote now a s).0
unfolding request_vote
request_vote-Granted now a s h = elim (Bool-cases (s.killed || ltb a.term s.current_term)) [
  | inl e ↦ absurd (refused (rw e at h))
  | inr e ↦ rw e (granted (rw e at h) (ground arith))
]
  where
    refused : false ≡ true → ⊥
    refused p = cc

    u : RaftState
    u = enter_term a.term s

    granted :
        (vote_in_term now a u).1.vote_granted ≡ true
        → s.current_term ≤ a.term
        → Granted a s (vote_in_term now a u).0
    granted g le =
        let en = enter_term-Entered a.term s in
        let vg = vote_in_term-Granted now a u g in
        let t : u.current_term ≡ a.term = ground (arith, en.case) in
        record {
          term = vg.1 ∙ t;
          not_behind = le;
          vote = vg.2;
          free = ground (arith, en.case, vg.0.free);
          candidate = rw (← en.is_member) vg.0.candidate;
          log = rw (← en.logs) vg.0.log;
          disk_term = vg.3 ∙ t;
          disk_vote = vg.4;
        }
