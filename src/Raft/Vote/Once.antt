-- ===== src/Raft/Vote/Once.antt =====
-- raft/raft.cpp: RequestVote, RequestPreVote and AppendEntries, one after the other on a follower.
use chon_kv.Base.{
  ℕ, ◌<◌, ◌≡◌, refl, ◌∙◌, sym, ◌≢◌, ◌⊎◌, inl, inr, true, not, ltb, ◌||◌, Bool-cases, Option-cases,
  ℤ, pos, negsuc, minus_one, List, [], ◌∷◌, arith,
}
use chon_kv.Raft.Types.{VoteArgs, AppendEntriesArgs}
use chon_kv.Raft.State.{
  RaftState, follower, is_follower, voter_at, convert_to_follower, persist, persist_log,
}
use chon_kv.Raft.Vote.{may_vote, vote_in_term, enter_term, request_vote, request_pre_vote}
use chon_kv.Raft.Vote.Safety.{may_vote-MayVote, Granted, request_vote-Granted}
use chon_kv.Raft.Append.{check_prev, follow, write_entries, follow_commit, append_entries}

-- What a follower is sent.
pub data Message : Type 0 where
  ask : ℕ → VoteArgs → Message
  pre_ask : VoteArgs → Message
  replicate : ℕ → AppendEntriesArgs → Message

unfoldable pub receive : Message → RaftState → RaftState
receive (ask now a) s = (request_vote now a s).0
receive (pre_ask a) s = (request_pre_vote a s).0
receive (replicate now a) s = (append_entries now a s).0

unfoldable pub receive_all : List Message → RaftState → RaftState
receive_all [] s = s
receive_all (m ∷ ms) s = receive_all ms (receive m s)

-- The node is past term `t`, or in it with its vote given to `c`.
pub record Holds (t : ℕ) (c : ℤ) (s : RaftState) : Type 0 where
  pub role : s.state ≡ follower
  pub vote : (t < s.current_term) ⊎ ((t ≡ s.current_term) × (s.voted_for ≡ c))

vote_in_term-Holds :
    (t : ℕ) (c : ℤ) (now : ℕ) (a : VoteArgs) (s : RaftState)
    → c ≢ minus_one
    → Holds t c s
    → Holds t c (vote_in_term now a s).0
unfolding vote_in_term persist
vote_in_term-Holds t c now a s ne h = elim (Bool-cases (may_vote s a)) [
  | inl e ↦ rw e (record {
    role = h.role;
    vote = elim h.vote [
      | inl past ↦ inl past
      | inr (here, mine) ↦ elim (may_vote-MayVote s a e).free [
        | inl free ↦ absurd (ne (sym mine ∙ free))
        | inr same ↦ inr (here, sym same ∙ mine)
      ]
    ];
  })
  | inr e ↦ rw e h
]

enter_term-Holds : (t u : ℕ) (c : ℤ) (s : RaftState) → Holds t c s → Holds t c (enter_term u s)
unfolding enter_term convert_to_follower
enter_term-Holds t u c s h = elim (Bool-cases (ltb s.current_term u)) [
  | inl e ↦ rw e (record { role = refl; vote = inl (ground (arith, h.vote)) })
  | inr e ↦ rw e h
]

request_vote-Holds :
    (t : ℕ) (c : ℤ) (now : ℕ) (a : VoteArgs) (s : RaftState)
    → c ≢ minus_one
    → Holds t c s
    → Holds t c (request_vote now a s).0
unfolding request_vote
request_vote-Holds t c now a s ne h = elim (Bool-cases (s.killed || ltb a.term s.current_term)) [
  | inl e ↦ rw e h
  | inr e ↦
      rw e (vote_in_term-Holds t c now a (enter_term a.term s) ne (enter_term-Holds t a.term c s h))
]

follow-Holds :
    (t : ℕ) (c : ℤ) (now : ℕ) (a : AppendEntriesArgs) (s : RaftState)
    → Holds t c s
    → Holds t c (follow now a s)
unfolding follow convert_to_follower
follow-Holds t c now a s h =
    elim (Bool-cases (ltb s.current_term a.term || not (is_follower s.state))) [
      | inl e ↦ rw e (record { role = refl; vote = inl (ground (arith, h.role, h.vote)) })
      | inr e ↦ rw e (record { role = h.role; vote = h.vote })
    ]

write-Holds :
    (t : ℕ) (c : ℤ) (a : AppendEntriesArgs) (s : RaftState)
    → Holds t c s
    → Holds t c (follow_commit a (write_entries a s))
unfolding follow_commit write_entries persist_log
write-Holds t c a s h = record { role = ground arith; vote = ground arith }

append_entries-Holds :
    (t : ℕ) (c : ℤ) (now : ℕ) (a : AppendEntriesArgs) (s : RaftState)
    → Holds t c s
    → Holds t c (append_entries now a s).0
unfolding append_entries
append_entries-Holds t c now a s h = elim (Bool-cases (s.killed || ltb a.term s.current_term)) [
  | inl e ↦ rw e h
  | inr e ↦ elim (Option-cases (check_prev (follow now a s) a)) [
    | inl none_ ↦ rw (e, none_) (write-Holds t c a (follow now a s) (follow-Holds t c now a s h))
    | inr (hint, e') ↦ rw (e, e') (follow-Holds t c now a s h)
  ]
]

receive-Holds :
    (t : ℕ) (c : ℤ) (m : Message) (s : RaftState)
    → c ≢ minus_one
    → Holds t c s
    → Holds t c (receive m s)
unfolding receive request_pre_vote
receive-Holds t c (ask now a) s ne h = request_vote-Holds t c now a s ne h
receive-Holds t c (pre_ask a) s ne h = h
receive-Holds t c (replicate now a) s ne h = append_entries-Holds t c now a s h

receive_all-Holds :
    (t : ℕ) (c : ℤ) (ms : List Message) (s : RaftState)
    → c ≢ minus_one
    → Holds t c s
    → Holds t c (receive_all ms s)
unfolding receive_all
receive_all-Holds t c [] s ne h = h
receive_all-Holds t c (m ∷ ms) s ne h =
    receive_all-Holds t c ms (receive m s) ne (receive-Holds t c m s ne h)

-- Only a node of the configuration can be voted for, so a vote is never the "none" of the source.
candidate-ne : (a : VoteArgs) (s u : RaftState) → Granted a s u → a.candidate_id ≢ minus_one
candidate-ne a s u g = named a.candidate_id g.candidate
  where
    named : (c : ℤ) → voter_at s.is_member c ≡ true → c ≢ minus_one
    named (pos n) h = λ p. cc
    named (negsuc n) h = λ p. cc h

enter_term_role : (t : ℕ) (s : RaftState) → s.state ≡ follower → (enter_term t s).state ≡ follower
unfolding enter_term convert_to_follower
enter_term_role t s h = ground arith

vote_in_term_role :
    (now : ℕ) (a : VoteArgs) (s : RaftState)
    → s.state ≡ follower
    → (vote_in_term now a s).0.state ≡ follower
unfolding vote_in_term persist
vote_in_term_role now a s h = ground arith

request_vote_role :
    (now : ℕ) (a : VoteArgs) (s : RaftState)
    → s.state ≡ follower
    → (request_vote now a s).0.state ≡ follower
unfolding request_vote
request_vote_role now a s h = elim (Bool-cases (s.killed || ltb a.term s.current_term)) [
  | inl e ↦ rw e h
  | inr e ↦ rw e (vote_in_term_role now a (enter_term a.term s) (enter_term_role a.term s h))
]

-- A follower that granted its vote to one candidate and, after any messages, to another of the same
-- term, has granted it to the same candidate twice.
pub votes_once :
    (first then_ : ℕ) (a b : VoteArgs) (ms : List Message) (s : RaftState)
    → s.state ≡ follower
    → (request_vote first a s).1.vote_granted ≡ true
    → (request_vote then_ b (receive_all ms (request_vote first a s).0)).1.vote_granted ≡ true
    → a.term ≡ b.term
    → a.candidate_id ≡ b.candidate_id
votes_once first then_ a b ms s role ga gb same =
    let g = request_vote-Granted first a s ga in
    let ne = candidate-ne a s _ g in
    let held =
      receive_all-Holds a.term a.candidate_id ms (request_vote first a s).0 ne
        (record { role = request_vote_role first a s role; vote = inr (sym g.term, g.vote) }) in
    let g' = request_vote-Granted then_ b (receive_all ms (request_vote first a s).0) gb in
    elim held.vote [
      | inl past ↦ absurd (omega (arith, g'.not_behind))
      | inr (here, mine) ↦ elim g'.free [
        | inl behind ↦ absurd (omega arith)
        | inr (inl none_) ↦ absurd (ne (sym mine ∙ none_))
        | inr (inr other) ↦ sym mine ∙ other
      ]
    ]
