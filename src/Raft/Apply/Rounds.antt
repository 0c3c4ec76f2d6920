-- ===== src/Raft/Apply/Rounds.antt =====
-- raft/raft.cpp: which entries a round of ApplyLoop hands over.
use chon_kv.Base.{
  ℕ, zero, suc, ◌+◌, ◌-◌, ◌≤◌, ◌<◌, ◌≡◌, refl, sym, ap, subst, ◌∙◌, inl, inr, Bool, true, false,
  ltb, leb, ◌==◌, not, ◌&&◌, Bool-cases, ◌⊎◌, none, some, List, [], ◌∷◌, length, get_elem?, take,
  drop, min, arith,
}
use mathlib.Core.Option.{some-injective}
use chon_kv.Store.{last_index}
use chon_kv.Raft.Types.{LogEntry, ApplyMsg, is_conf_change}
use chon_kv.Raft.State.{RaftState, persist, voter_me, is_leader}
use chon_kv.Raft.Log.{IsLog, last_index-IsLog, get_elem?-in_range}
use chon_kv.Raft.Invariant.{IsValid}
use chon_kv.Raft.Apply.{
  entry_msg, set_role, clear_pending, apply_conf, apply_entry, apply_from, round_of, apply_round,
  apply_stop, max_apply_batch, in_range,
}

-- What the application of one entry leaves alone.
record Kept (i : ℕ) (s t : RaftState) : Type 0 where
  logs : t.logs ≡ s.logs
  snapshot : t.snapshot_index ≡ s.snapshot_index
  commit : t.commit_index ≡ s.commit_index
  applied : t.last_applied ≡ i

set_role-Kept : (i : ℕ) (e : LogEntry) (s : RaftState) → Kept s.last_applied s (set_role i e s)
unfolding set_role
set_role-Kept i e s = elim (Bool-cases (in_range e.conf_server s)) [
  | inl h ↦ rw h (record { logs = refl; snapshot = refl; commit = refl; applied = refl })
  | inr h ↦ rw h (record { logs = refl; snapshot = refl; commit = refl; applied = refl })
]

clear_pending-Kept : (e : LogEntry) (s : RaftState) → Kept s.last_applied s (clear_pending e s)
unfolding clear_pending
clear_pending-Kept e s = elim (Bool-cases (e.index == s.pending_conf_index)) [
  | inl h ↦ rw h (record { logs = refl; snapshot = refl; commit = refl; applied = refl })
  | inr h ↦ rw h (record { logs = refl; snapshot = refl; commit = refl; applied = refl })
]

apply_conf-Kept :
    (now i : ℕ) (e : LogEntry) (s : RaftState) → Kept s.last_applied s (apply_conf now i e s)
unfolding apply_conf persist
apply_conf-Kept now i e s =
    let a = set_role-Kept i e s in
    let b = clear_pending-Kept e (set_role i e s) in
    let t : Kept s.last_applied s (persist (clear_pending e (set_role i e s))) = record {
      logs = b.logs ∙ a.logs;
      snapshot = b.snapshot ∙ a.snapshot;
      commit = b.commit ∙ a.commit;
      applied = b.applied ∙ a.applied;
    } in
    elim (Bool-cases (
      not (voter_me (persist (clear_pending e (set_role i e s))))
      && is_leader (persist (clear_pending e (set_role i e s))).state)) [
        | inl h ↦ rw h (record {
          logs = t.logs;
          snapshot = t.snapshot;
          commit = t.commit;
          applied = t.applied;
        })
        | inr h ↦ rw h t
      ]

apply_entry-Kept : (now i : ℕ) (e : LogEntry) (s : RaftState) → Kept i s (apply_entry now i e s)
unfolding apply_entry
apply_entry-Kept now i e s = elim (Bool-cases (is_conf_change e.type)) [
  | inl h ↦ rw h (
      let k = apply_conf-Kept now i e (record s { last_applied = i }) in
      record { logs = k.logs; snapshot = k.snapshot; commit = k.commit; applied = k.applied })
  | inr h ↦ rw h (record { logs = refl; snapshot = refl; commit = refl; applied = refl })
]

-- The messages of consecutive entries, the first of them at index `i`.
unfoldable pub entry_msgs : ℕ → List LogEntry → List ApplyMsg
entry_msgs i [] = []
entry_msgs i (e ∷ es) = entry_msg i e ∷ entry_msgs (suc i) es

-- The entries from one index on, `n` of them, were handed over.
pub record Handed (n i : ℕ) (s : RaftState) (r : RaftState × List ApplyMsg) : Type 0 where
  pub msgs : r.1 ≡ entry_msgs i (take n (drop (i - s.snapshot_index) s.logs))
  pub applied : r.0.last_applied + 1 ≡ i + n
  pub logs : r.0.logs ≡ s.logs
  pub snapshot : r.0.snapshot_index ≡ s.snapshot_index
  pub commit : r.0.commit_index ≡ s.commit_index

drop_at :
    {A : Type 0} (n : ℕ) (xs : List A) (x : A)
    → get_elem? xs n ≡ some x
    → drop n xs ≡ x ∷ drop (suc n) xs
drop_at n [] x h = cc h
drop_at zero (y ∷ ys) x h = ap (λ z. z ∷ ys) (some-injective y x h)
drop_at (suc n) (y ∷ ys) x h = drop_at n ys x h

-- One entry more in front.
handed_first :
    (i n : ℕ) (s t : RaftState) (e : LogEntry) (ms : List ApplyMsg)
    → Kept i s t
    → get_elem? s.logs (i - s.snapshot_index) ≡ some e
    → s.snapshot_index < i
    → ms ≡ entry_msgs (suc i) (take n (drop (suc i - t.snapshot_index) t.logs))
    → entry_msg i e ∷ ms ≡ entry_msgs i (take (suc n) (drop (i - s.snapshot_index) s.logs))
unfolding entry_msgs
handed_first i n s t e ms k found h m =
    let next : suc i - t.snapshot_index ≡ suc (i - s.snapshot_index) = omega (arith, k.snapshot) in
    rw (drop_at (i - s.snapshot_index) s.logs e found, m, k.logs, next) refl

-- No installation holds the gate.
abbrev pub open_gate : ℕ → Bool
open_gate i = false

apply_from-Handed :
    (now n i : ℕ) (s : RaftState)
    → s.snapshot_index < i
    → i ≡ suc s.last_applied
    → i - s.snapshot_index + n ≤ length s.logs
    → Handed n i s (apply_from now open_gate n i s)
unfolding apply_from entry_msgs
apply_from-Handed now zero i s h e fits = record {
  msgs = refl;
  applied = omega arith;
  logs = refl;
  snapshot = refl;
  commit = refl;
}
apply_from-Handed now (suc n) i s h e fits =
    let past : leb i s.snapshot_index ≡ false = ground arith in
    let found = get_elem?-in_range (i - s.snapshot_index) s.logs (omega arith) in
    let k = apply_entry-Kept now i found.0 s in
    let t = apply_entry now i found.0 s in
    let next =
      apply_from-Handed now n (suc i) t (omega (arith, k.snapshot)) (omega (arith, k.applied))
        (omega (arith, k.snapshot, ap length k.logs)) in
    rw (past, found.1)
      (record {
        msgs = handed_first i n s t found.0 _ k found.1 h next.msgs;
        applied = omega (arith, next.applied);
        logs = next.logs ∙ k.logs;
        snapshot = next.snapshot ∙ k.snapshot;
        commit = next.commit ∙ k.commit;
      })

-- A round: `count` entries behind the last one applied, as many as are committed or as a batch holds.
pub record Round (s : RaftState) (r : RaftState × List ApplyMsg) : Type 0 where
  pub count : ℕ
  pub moves : 0 < count
  pub few : count ≤ max_apply_batch
  pub full : (count ≡ max_apply_batch) ⊎ (r.0.last_applied ≡ s.commit_index)
  pub handed : Handed count (suc s.last_applied) s r
  pub bounded : r.0.last_applied ≤ r.0.commit_index
  pub valid : IsValid r.0

stop_is :
    (s : RaftState)
    → IsValid s
    → apply_stop s ≡ min s.commit_index (s.last_applied + max_apply_batch)
stop_is s v =
    omega (arith, v.committed, v.covered, last_index-IsLog s.snapshot_index s.logs v.is_log)

Handed-IsValid :
    (n i : ℕ) (s : RaftState) (r : RaftState × List ApplyMsg)
    → IsValid s
    → Handed n i s r
    → IsValid r.0
Handed-IsValid n i s r v h = record {
  is_log =
      subst (λ b. IsLog b r.0.logs) (sym h.snapshot)
        (subst (IsLog s.snapshot_index) (sym h.logs) v.is_log);
  covered = omega (arith, v.covered, h.snapshot, h.commit);
  committed = omega (arith, v.committed, h.commit, ap last_index h.logs);
}

le_or_gt : (a b : ℕ) → (a ≤ b) ⊎ (b < a)
le_or_gt a b = elim (Bool-cases (leb a b)) [
  | inl e ↦ inl (ground arith)
  | inr e ↦ inr (ground arith)
]

taken :
    (now : ℕ) (s : RaftState)
    → IsValid s
    → s.snapshot_index ≤ s.last_applied
    → s.last_applied < s.commit_index
    → Round s (apply_from now open_gate (apply_stop s - s.last_applied) (suc s.last_applied) s)
taken now s v shot more =
    let stop = stop_is s v in
    let n = apply_stop s - s.last_applied in
    let h =
      apply_from-Handed now n (suc s.last_applied) s (omega arith) refl
        (omega (arith, stop, v.committed, last_index-IsLog s.snapshot_index s.logs v.is_log)) in
    record {
      count = n;
      moves = omega (arith, stop);
      few = omega (arith, stop);
      full = elim (le_or_gt s.commit_index (s.last_applied + max_apply_batch)) [
        | inl le ↦ inr (omega (arith, stop, h.applied))
        | inr gt ↦ inl (omega (arith, stop))
      ];
      handed = h;
      bounded = omega (arith, stop, h.applied, h.commit);
      valid = Handed-IsValid n (suc s.last_applied) s _ v h;
    }

-- On a well-formed state that has applied its snapshot, has no installed snapshot to hand over and has
-- something committed to apply, a round of ApplyLoop that no installation interrupts hands over the
-- entries of the log behind the last one applied, each once and in their order: up to the commit index,
-- or a whole batch of them. The last applied index moves to the last of them and not past the commit
-- index, and log, snapshot and commit index stay.
pub apply_round-Round :
    (now : ℕ) (s : RaftState)
    → IsValid s
    → s.pending_snapshot ≡ none
    → s.snapshot_index ≤ s.last_applied
    → s.last_applied < s.commit_index
    → Round s (apply_round now open_gate s)
unfolding apply_round round_of
apply_round-Round now s v quiet shot more =
    let busy : ltb s.last_applied s.commit_index ≡ true = ground (arith, more) in
    subst (λ p. Round s (round_of now open_gate p s)) (sym quiet)
      (rw busy (taken now s v shot more))
