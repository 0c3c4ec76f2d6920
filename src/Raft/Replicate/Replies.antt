-- ===== src/Raft/Replicate/Replies.antt =====
-- raft/raft.cpp: the callback of ReplicateLoop for the reply to an AppendEntries.
use chon_kv.Base.{
  ℕ, ◌+◌, ◌≤◌, ◌≡◌, refl, sym, ◌∙◌, ◌⊎◌, inl, inr, Bool, true, false, not, ◌||◌, if◌then◌else◌, ltb,
  ◌==◌, Bool-cases, get_or, set, length, max, arith, List,
}
use chon_kv.Raft.Types.{AppendEntriesArgs, AppendEntriesReply}
use chon_kv.Raft.State.{RaftState, leader, is_leader, convert_to_follower}
use chon_kv.Raft.Invariant.{IsValid}
use chon_kv.Raft.Commit.{advance_commit_index, may_commit}
use chon_kv.Raft.Commit.Quorum.{advance_commit_index-Kept, advance_commit_index-IsValid}
use chon_kv.Raft.Replicate.{note_reply, on_success, on_refusal, count_reply, on_append_reply}

-- The match indices `ms` after a success of the batch `a` at server `v`.
pub record Counted (v : ℕ) (a : AppendEntriesArgs) (ok : Bool) (r : AppendEntriesReply)
    (s : RaftState) (ms : List ℕ) : Type 0 where
  pub came : ok ≡ true
  pub success : r.success ≡ true
  pub same_term : a.term ≡ s.current_term
  pub role : s.state ≡ leader
  pub moved :
      ms
      ≡ set s.match_index v (max (get_or s.match_index v 0) (a.prev_log_index + length a.entries))

pub record Replied (v : ℕ) (a : AppendEntriesArgs) (ok : Bool) (r : AppendEntriesReply)
    (s t : RaftState) : Type 0 where
  pub valid : IsValid t
  pub logs : t.logs ≡ s.logs
  pub commit_index : s.commit_index ≤ t.commit_index
  pub match_index : (t.match_index ≡ s.match_index) ⊎ Counted v a ok r s t.match_index

-- What a reply that counts for nothing leaves.
record Aside (s t : RaftState) : Type 0 where
  logs : t.logs ≡ s.logs
  snapshot_index : t.snapshot_index ≡ s.snapshot_index
  commit_index : t.commit_index ≡ s.commit_index
  match_index : t.match_index ≡ s.match_index

Aside-Replied :
    (v : ℕ) (a : AppendEntriesArgs) (ok : Bool) (r : AppendEntriesReply) (s t : RaftState)
    → IsValid s
    → Aside s t
    → Replied v a ok r s t
Aside-Replied v a ok r s t valid e = record {
  valid = record {
    is_log = rw (e.logs, e.snapshot_index) valid.is_log;
    covered = rw (e.commit_index, e.snapshot_index) valid.covered;
    committed = rw (e.commit_index, e.logs) valid.committed;
  };
  logs = e.logs;
  commit_index = omega (arith, e.commit_index);
  match_index = inl e.match_index;
}

note_reply-Aside : (v : ℕ) (ok : Bool) (s : RaftState) → Aside s (note_reply v ok s)
unfolding note_reply
note_reply-Aside v ok s = record {
  logs = refl;
  snapshot_index = refl;
  commit_index = refl;
  match_index = refl;
}

newer_term-Aside :
    (now term : ℕ) (s : RaftState)
    → Aside s (let f = convert_to_follower term s in record f { last_heartbeat = now })
unfolding convert_to_follower
newer_term-Aside now term s = record {
  logs = refl;
  snapshot_index = refl;
  commit_index = refl;
  match_index = refl;
}

on_refusal-Aside : (v : ℕ) (r : AppendEntriesReply) (s : RaftState) → Aside s (on_refusal v r s)
unfolding on_refusal
on_refusal-Aside v r s = record {
  logs = refl;
  snapshot_index = refl;
  commit_index = refl;
  match_index = refl;
}

Aside-trans : (s t u : RaftState) → Aside s t → Aside t u → Aside s u
Aside-trans s t u h k = record {
  logs = k.logs ∙ h.logs;
  snapshot_index = k.snapshot_index ∙ h.snapshot_index;
  commit_index = k.commit_index ∙ h.commit_index;
  match_index = k.match_index ∙ h.match_index;
}

match_index-advance : (s : RaftState) → (advance_commit_index s).match_index ≡ s.match_index
unfolding advance_commit_index
match_index-advance s = elim (Bool-cases (may_commit s)) [ inl e ↦ rw e refl | inr e ↦ rw e refl ]

-- Committing on a state whose log is that of `s`.
advanced-Replied :
    (v : ℕ) (a : AppendEntriesArgs) (ok : Bool) (r : AppendEntriesReply) (s t : RaftState)
    → IsValid t
    → t.logs ≡ s.logs
    → t.commit_index ≡ s.commit_index
    → Counted v a ok r s t.match_index
    → Replied v a ok r s (advance_commit_index t)
advanced-Replied v a ok r s t valid logs commit c =
    let k = advance_commit_index-Kept t in
    record {
      valid = advance_commit_index-IsValid t valid;
      logs = k.logs ∙ logs;
      commit_index = omega (arith, k.commit, commit);
      match_index = inr (record {
        came = c.came;
        success = c.success;
        same_term = c.same_term;
        role = c.role;
        moved = match_index-advance t ∙ c.moved;
      });
    }

on_success-Replied :
    (now v : ℕ) (a : AppendEntriesArgs) (r : AppendEntriesReply) (s t : RaftState)
    → IsValid s
    → Aside s t
    → r.success ≡ true
    → a.term ≡ s.current_term
    → s.state ≡ leader
    → Replied v a true r s (on_success now v a t)
unfolding on_success
on_success-Replied now v a r s t valid e success same role =
    advanced-Replied v a true r s _
      (record { is_log = ground arith; covered = ground arith; committed = ground arith })
      (ground (arith, e.logs)) (ground (arith, e.commit_index))
      (record {
        came = refl;
        success = success;
        same_term = same;
        role = role;
        moved = ground (arith, e.match_index);
      })

acked-Aside :
    (now v : ℕ) (ok : Bool) (s : RaftState)
    → Aside s (let n = note_reply v ok s in record n { last_ack_time = set n.last_ack_time v now })
acked-Aside now v ok s =
    let e = note_reply-Aside v ok s in
    record {
      logs = e.logs;
      snapshot_index = e.snapshot_index;
      commit_index = e.commit_index;
      match_index = e.match_index;
    }

note_reply_role :
    (v : ℕ) (ok : Bool) (s : RaftState)
    → ((note_reply v ok s).state ≡ s.state) × ((note_reply v ok s).current_term ≡ s.current_term)
unfolding note_reply
note_reply_role v ok s = (refl, refl)

by_test :
    (P : RaftState → Type 0) (b : Bool) (x y : RaftState)
    → (b ≡ true → P x)
    → (b ≡ false → P y)
    → P (if b then x else y)
by_test P true x y h k = h refl
by_test P false x y h k = k refl

came-Replied :
    (now v : ℕ) (a : AppendEntriesArgs) (r : AppendEntriesReply) (s : RaftState)
    → IsValid s
    → Replied v a true r s (count_reply now v a true r s)
unfolding count_reply
came-Replied now v a r s valid =
    let n = note_reply v true s in
    let role = note_reply_role v true s in
    elim (Bool-cases (ltb n.current_term r.term)) [
      | inl newer ↦
          rw (newer, count_reply)
            (Aside-Replied v a true r s _ valid
              (Aside-trans s _ _ (note_reply-Aside v true s) (newer_term-Aside now r.term _)))
      | inr current ↦
          elim (Bool-cases (not (a.term == n.current_term) || not (is_leader n.state))) [
            | inl stale ↦
                rw (current, stale, count_reply)
                  (Aside-Replied v a true r s _ valid (note_reply-Aside v true s))
            | inr fresh ↦
                rw (current, fresh, count_reply)
                  (by_test (Replied v a true r s) r.success _ _
                    (λ won.
                      on_success-Replied now v a r s _ valid (acked-Aside now v true s) won
                        (same_term n fresh ∙ role.1) (sym role.0 ∙ leads n fresh))
                    (λ _.
                      Aside-Replied v a true r s _ valid
                        (Aside-trans s _ _ (acked-Aside now v true s) (on_refusal-Aside v r _))))
          ]
    ]
  where
    same_term :
        (n : RaftState)
        → (not (a.term == n.current_term) || not (is_leader n.state)) ≡ false
        → a.term ≡ n.current_term
    same_term n h = ground (arith, h)

    leads :
        (n : RaftState)
        → (not (a.term == n.current_term) || not (is_leader n.state)) ≡ false
        → n.state ≡ leader
    leads n h = ground (arith, h)

counted-Replied :
    (now v : ℕ) (a : AppendEntriesArgs) (ok : Bool) (r : AppendEntriesReply) (s : RaftState)
    → IsValid s
    → Replied v a ok r s (count_reply now v a ok r s)
unfolding count_reply
counted-Replied now v a true r s valid = came-Replied now v a r s valid
counted-Replied now v a false r s valid =
    Aside-Replied v a false r s _ valid (note_reply-Aside v false s)

-- On a well-formed state, the reply to an AppendEntries leaves the state well-formed, the log as it is
-- and the commit index no lower; match indices change only on a leader, by a success of its current
-- term, and then the server's is raised to the last entry of the batch.
pub on_append_reply-Replied :
    (now v : ℕ) (a : AppendEntriesArgs) (ok : Bool) (r : AppendEntriesReply) (s : RaftState)
    → IsValid s
    → Replied v a ok r s (on_append_reply now v a ok r s)
unfolding on_append_reply
on_append_reply-Replied now v a ok r s valid =
    by_test (Replied v a ok r s) s.killed s (count_reply now v a ok r s)
      (λ _.
        Aside-Replied v a ok r s s valid
          (record { logs = refl; snapshot_index = refl; commit_index = refl; match_index = refl }))
      (λ _. counted-Replied now v a ok r s valid)
