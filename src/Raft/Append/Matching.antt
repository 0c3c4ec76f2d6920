-- ===== src/Raft/Append/Matching.antt =====
-- raft/raft.cpp: AppendEntries where it reports success.
use chon_kv.Base.{
  ℕ, ◌+◌, ◌-◌, ◌≤◌, ◌≡◌, ap, ◌∙◌, inl, inr, true, not, ltb, ◌||◌, Bool-cases, Option-cases, none,
  arith, length, get_elem?, min, max,
}
use chon_kv.Store.{last_index}
use chon_kv.Raft.Types.{AppendEntriesArgs}
use chon_kv.Raft.State.{
  RaftState, is_follower, term_at, last_log_index, convert_to_follower, persist_log,
}
use chon_kv.Raft.Log.{Contiguous}
use chon_kv.Raft.Invariant.{IsValid}
use chon_kv.Raft.Append.{
  tail_of, put_all, check_prev, write_entries, follow_commit, follow, append_entries,
}
use chon_kv.Raft.Append.Writes.{PutAll, put_all-PutAll, Agrees, NoConflict, Keeps, put_all-Keeps}

-- The parts of the state that the messages' bookkeeping leaves alone.
pub record SameLog (s t : RaftState) : Type 0 where
  pub logs : t.logs ≡ s.logs
  pub snapshot_index : t.snapshot_index ≡ s.snapshot_index
  pub commit_index : t.commit_index ≡ s.commit_index

pub follow-SameLog : (now : ℕ) (a : AppendEntriesArgs) (s : RaftState) → SameLog s (follow now a s)
unfolding follow convert_to_follower
follow-SameLog now a s =
    elim (Bool-cases (ltb s.current_term a.term || not (is_follower s.state))) [
      | inl e ↦ record { logs = rw e; snapshot_index = rw e; commit_index = rw e }
      | inr e ↦ record { logs = rw e; snapshot_index = rw e; commit_index = rw e }
    ]

pub SameLog-IsValid : (s t : RaftState) → SameLog s t → IsValid s → IsValid t
SameLog-IsValid s t e v = record {
  is_log = rw (e.logs, e.snapshot_index) v.is_log;
  covered = rw (e.commit_index, e.snapshot_index) v.covered;
  committed = rw (e.commit_index, e.logs) v.committed;
}

-- What `write_entries` leaves of the state is the loop's log and the rest as it was.
record Wrote (a : AppendEntriesArgs) (s t : RaftState) : Type 0 where
  logs : t.logs ≡ (put_all s.snapshot_index (tail_of s) a.entries).logs
  snapshot_index : t.snapshot_index ≡ s.snapshot_index
  commit_index : t.commit_index ≡ s.commit_index

write_entries-Wrote : (a : AppendEntriesArgs) (s : RaftState) → Wrote a s (write_entries a s)
unfolding write_entries persist_log
write_entries-Wrote a s =
    let t = put_all s.snapshot_index (tail_of s) a.entries in
    record { logs = ground arith; snapshot_index = ground arith; commit_index = ground arith }

-- What an accepted AppendEntries guarantees about the state `t` it leaves.
pub record Accepted (a : AppendEntriesArgs) (s t : RaftState) : Type 0 where
  pub valid : IsValid t
  pub prev_matched :
      s.snapshot_index ≤ a.prev_log_index
      → term_at s.logs (a.prev_log_index - s.snapshot_index) ≡ a.prev_log_term
  pub prefix :
      (j : ℕ) → s.snapshot_index + j ≤ a.prev_log_index → get_elem? t.logs j ≡ get_elem? s.logs j
  pub agrees : Agrees s.snapshot_index t.logs a.entries
  pub reach : a.prev_log_index + length a.entries ≤ last_log_index t
  pub kept :
      (j : ℕ) → s.snapshot_index + j ≤ s.commit_index → get_elem? t.logs j ≡ get_elem? s.logs j
  pub commit :
      t.commit_index
      ≡ max s.commit_index (min a.leader_commit (a.prev_log_index + length a.entries))

module _ (a : AppendEntriesArgs) (s : RaftState) (v : IsValid s)
    (consecutive : Contiguous (a.prev_log_index + 1) a.entries)
    (no_conflict : NoConflict s.commit_index s.snapshot_index s.logs a.entries) where
  -- The consistency check was passed.
  check_prev-none :
      check_prev s a ≡ none
      → (a.prev_log_index ≤ last_log_index s)
        × (s.snapshot_index ≤ a.prev_log_index
            → term_at s.logs (a.prev_log_index - s.snapshot_index) ≡ a.prev_log_term)
  unfolding check_prev
  check_prev-none h = (ground arith, λ le. ground arith)

  written :
      a.prev_log_index ≤ last_log_index s
      → PutAll s.snapshot_index
          (a.prev_log_index + 1)
          a.entries
          (tail_of s)
          (put_all s.snapshot_index (tail_of s) a.entries)
  written le = put_all-PutAll _ _ a.entries (tail_of s) v.is_log consecutive (omega arith)

  keeps :
      a.prev_log_index ≤ last_log_index s
      → Keeps s.commit_index s.snapshot_index
          (tail_of s)
          (put_all s.snapshot_index (tail_of s) a.entries)
  keeps le =
      put_all-Keeps _ _ _ a.entries (tail_of s) v.is_log consecutive (omega arith) v.committed
        no_conflict

  follow_commit-SameLog :
      (t : RaftState)
      → ((follow_commit a t).logs ≡ t.logs)
        × ((follow_commit a t).snapshot_index ≡ t.snapshot_index)
        × ((follow_commit a t).commit_index
            ≡ max t.commit_index (min a.leader_commit (a.prev_log_index + length a.entries)))
  unfolding follow_commit
  follow_commit-SameLog t = (ground arith, ground arith, ground arith)

  accepted : check_prev s a ≡ none → Accepted a s (follow_commit a (write_entries a s))
  accepted h =
      let w = write_entries-Wrote a s in
      let f = follow_commit-SameLog (write_entries a s) in
      let c = check_prev-none h in
      let p = written c.0 in
      let k = keeps c.0 in
      let logs = f.0 ∙ w.logs in
      record {
        valid = record {
          is_log = rw (logs, f.1, w.snapshot_index) p.is_log;
          covered = omega (arith, f.1, f.2, w.snapshot_index, w.commit_index, v.covered);
          committed = omega (arith, f.2, w.commit_index, ap last_index logs, k.reach, p.reach);
        };
        prev_matched = c.1;
        prefix = λ j le. rw logs (p.kept j (omega arith));
        agrees = rw logs p.agrees;
        reach = omega (arith, ap last_index logs, p.reach);
        kept = λ j le. rw logs (k.same j le);
        commit =
            f.2
            ∙ ap (λ i. max i (min a.leader_commit (a.prev_log_index + length a.entries)))
                w.commit_index;
      }

Accepted-SameLog :
    (a : AppendEntriesArgs) (s f t : RaftState) → SameLog s f → Accepted a f t → Accepted a s t
Accepted-SameLog a s f t e c = record {
  valid = c.valid;
  prev_matched =
      λ h. rw (← e.logs, ← e.snapshot_index) (c.prev_matched (omega (arith, e.snapshot_index)));
  prefix = λ j h. rw (← e.logs) (c.prefix j (omega (arith, e.snapshot_index)));
  agrees = rw (← e.snapshot_index) c.agrees;
  reach = c.reach;
  kept = λ j h. rw (← e.logs) (c.kept j (omega (arith, e.snapshot_index, e.commit_index)));
  commit = rw (← e.commit_index) c.commit;
}

-- If the entries are consecutive from `prev_log_index + 1` on and do not contradict what is already
-- committed here, an AppendEntries that reports success leaves a well-formed log which held the
-- previous entry's term, holds each entry's term at its index, reaches the last of them, and has
-- not changed up to `prev_log_index` nor up to the commit index; the commit index has moved to the
-- leader's, cut at the last entry sent, and never back.
pub append_entries-Accepted :
    (now : ℕ) (a : AppendEntriesArgs) (s : RaftState)
    → IsValid s
    → Contiguous (a.prev_log_index + 1) a.entries
    → NoConflict s.commit_index s.snapshot_index s.logs a.entries
    → (append_entries now a s).1.success ≡ true
    → Accepted a s (append_entries now a s).0
unfolding append_entries
append_entries-Accepted now a s v c n h =
    elim (Bool-cases (s.killed || ltb a.term s.current_term)) [
      | inl e ↦ cc (rw e at h)
      | inr e ↦ elim (Option-cases (check_prev f a)) [
        | inl none_ ↦
            rw (e, none_)
              (Accepted-SameLog a s f _ same (
                accepted a f (SameLog-IsValid s f same v) c
                  (rw (same.commit_index, same.snapshot_index, same.logs) n) none_))
        | inr (hint, e') ↦ cc (rw (e, e') at h)
      ]
    ]
  where
    f : RaftState
    f = follow now a s

    same : SameLog s f
    same = follow-SameLog now a s
