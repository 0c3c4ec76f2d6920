-- ===== src/Raft/Reads/Delivery.antt =====
-- raft/raft.cpp: a heartbeat of ReadIndex at the server it is sent to.
use chon_kv.Base.{
  false, ℕ, ◌≤◌, ◌≡◌, refl, ◌∙◌, subst, inl, inr, Bool-cases, Option-cases, ltb, ◌||◌, not, ◌==◌,
  some, [], arith, pos,
}
use mathlib.Core.Option.{some-injective}
use chon_kv.Raft.Types.{AppendEntriesArgs}
use chon_kv.Raft.State.{RaftState, is_leader, is_follower, voter_at, convert_to_follower, persist}
use chon_kv.Raft.Append.{append_entries, follow, check_prev, write_entries, put_all, follow_commit}
use chon_kv.Raft.Append.Matching.{follow-SameLog}
use chon_kv.Raft.Reads.{read_heartbeat}

-- What is sent.
record IsHeartbeat (c : ℕ) (s : RaftState) (a : AppendEntriesArgs) : Type 0 where
  term : a.term ≡ s.current_term
  sender : a.leader_id ≡ pos s.me
  entries : a.entries ≡ []
  read_ctx : a.read_ctx ≡ c

read_heartbeat-IsHeartbeat :
    (c v : ℕ) (s : RaftState) (a : AppendEntriesArgs)
    → read_heartbeat c v s ≡ some a
    → IsHeartbeat c s a
unfolding read_heartbeat
read_heartbeat-IsHeartbeat c v s a e =
    elim (Bool-cases (v == s.me || not (is_leader s.state) || not (voter_at s.is_member (pos v)))) [
      | inl h ↦ cc (rw (h, read_heartbeat) at e)
      | inr h ↦
          subst (IsHeartbeat c s) (some-injective _ a (rw (h, read_heartbeat) at e))
            (record { term = refl; sender = refl; entries = refl; read_ctx = refl })
    ]

follow-term :
    (now : ℕ) (a : AppendEntriesArgs) (f : RaftState)
    → ltb a.term f.current_term ≡ false
    → (follow now a f).current_term ≡ a.term
unfolding follow convert_to_follower persist
follow-term now a f h = elim (Bool-cases (ltb f.current_term a.term || not (is_follower f.state))) [
  | inl e ↦ rw (e, follow, convert_to_follower, persist) refl
  | inr e ↦ rw (e, follow) (ground (arith, h, e))
]

-- Where a state stands behind another one that follows a leader.
record IsSame (s t : RaftState) : Type 0 where
  term : t.current_term ≡ s.current_term
  leader : t.leader_id ≡ s.leader_id
  logs : t.logs ≡ s.logs

write_entries-IsSame :
    (a : AppendEntriesArgs) (s : RaftState) → a.entries ≡ [] → IsSame s (write_entries a s)
unfolding write_entries put_all
write_entries-IsSame a s e =
    rw (e, write_entries, put_all) (record { term = refl; leader = refl; logs = refl })

follow_commit-IsSame : (a : AppendEntriesArgs) (s : RaftState) → IsSame s (follow_commit a s)
unfolding follow_commit
follow_commit-IsSame a s = record {
  term = ground arith;
  leader = ground arith;
  logs = ground arith;
}

follow-leader :
    (now : ℕ) (a : AppendEntriesArgs) (f : RaftState) → (follow now a f).leader_id ≡ a.leader_id
unfolding follow convert_to_follower persist
follow-leader now a f = elim (Bool-cases (ltb f.current_term a.term || not (is_follower f.state))) [
  | inl e ↦ rw (e, follow, convert_to_follower, persist) refl
  | inr e ↦ rw (e, follow) refl
]

-- What a server has done whose answer counts.
pub record Follows (c : ℕ) (s f g : RaftState) (read_ctx : ℕ) : Type 0 where
  pub echo : read_ctx ≡ c
  pub term : g.current_term ≡ s.current_term
  pub earlier : f.current_term ≤ s.current_term
  pub leader : g.leader_id ≡ pos s.me
  pub logs : g.logs ≡ f.logs

-- Where a leader's heartbeat for a round of reads comes to a server that runs, and the answer is of no
-- later term than the leader's: the answer carries the round's number, the server was in no later term
-- and is in the leader's term now, with the sender as its leader and its log as it was.
pub append_entries-Follows :
    (now c v : ℕ) (s f : RaftState) (a : AppendEntriesArgs)
    → read_heartbeat c v s ≡ some a
    → f.killed ≡ false
    → (append_entries now a f).1.term ≤ s.current_term
    → Follows c s f (append_entries now a f).0 (append_entries now a f).1.read_ctx
unfolding append_entries
append_entries-Follows now c v s f a sent runs kept =
    let h = read_heartbeat-IsHeartbeat c v s a sent in
    elim (Bool-cases (ltb a.term f.current_term)) [
      | inl e ↦ absurd (ground (arith, h.term, rw (runs, e, append_entries) at kept, e))
      | inr e ↦
          let going : (f.killed || ltb a.term f.current_term) ≡ false = ground (arith, runs, e) in
          elim (Option-cases (check_prev (follow now a f) a)) [
            | inl g ↦
                rw (going, g, append_entries)
                  (record {
                    echo = h.read_ctx;
                    term =
                        (follow_commit-IsSame a _).term
                        ∙ ((write_entries-IsSame a (follow now a f) h.entries).term
                            ∙ (follow-term now a f e ∙ h.term));
                    earlier = ground (arith, h.term, e);
                    leader =
                        (follow_commit-IsSame a _).leader
                        ∙ ((write_entries-IsSame a (follow now a f) h.entries).leader
                            ∙ (follow-leader now a f ∙ h.sender));
                    logs =
                        (follow_commit-IsSame a _).logs
                        ∙ ((write_entries-IsSame a (follow now a f) h.entries).logs
                            ∙ (follow-SameLog now a f).logs);
                  })
            | inr (n, g) ↦
                rw (going, g, append_entries)
                  (record {
                    echo = h.read_ctx;
                    term = follow-term now a f e ∙ h.term;
                    earlier = ground (arith, h.term, e);
                    leader = follow-leader now a f ∙ h.sender;
                    logs = (follow-SameLog now a f).logs;
                  })
          ]
    ]
