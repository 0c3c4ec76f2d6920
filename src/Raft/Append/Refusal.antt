-- ===== src/Raft/Append/Refusal.antt =====
-- raft/raft.cpp: AppendEntries where it refuses, and the hint by which the leader goes on.
use chon_kv.Base.{
  ℕ, zero, suc, ◌+◌, ◌-◌, ◌≤◌, ◌<◌, ◌≡◌, ◌≢◌, ◌⊎◌, inl, inr, false, ltb, ◌==◌, ◌||◌, ◌&&◌,
  Bool-cases, Option-cases, some, List, arith, max,
}
use mathlib.Core.Path.{subst₂}
use native.Mathlib.Decide.{dec_lt}
use chon_kv.Store.{last_index}
use chon_kv.Raft.Types.{LogEntry, AppendEntriesArgs}
use chon_kv.Raft.State.{RaftState, term_at, last_log_index}
use chon_kv.Raft.Append.{back_up, check_prev, follow, append_entries}
use chon_kv.Raft.Append.Matching.{SameLog, follow-SameLog}

-- `g` is where the run of entries of term `ct` that ends at `f` begins, or the first index behind
-- the snapshot.
pub record RunStart (snap : ℕ) (logs : List LogEntry) (ct f g : ℕ) : Type 0 where
  pub upper : g ≤ f
  pub lower : snap + 1 ≤ f → snap + 1 ≤ g
  pub run : (i : ℕ) → g ≤ i → i < f → term_at logs (i - snap) ≡ ct
  pub first : (g ≤ snap + 1) ⊎ (term_at logs (g - 1 - snap) ≢ ct)

back_up-RunStart :
    (snap : ℕ) (logs : List LogEntry) (ct f : ℕ) → RunStart snap logs ct f (back_up snap logs ct f)
unfolding back_up
back_up-RunStart snap logs ct zero = record {
  upper = omega arith;
  lower = λ h. omega arith;
  run = λ i h k. absurd (omega arith);
  first = inl (omega arith);
}
back_up-RunStart snap logs ct (suc g) =
    let ih = back_up-RunStart snap logs ct g in
    elim (Bool-cases (ltb (snap + 1) (suc g) && term_at logs (g - snap) == ct)) [
      | inl back ↦ rw back (record {
        upper = omega (arith, ih.upper);
        lower = λ h. ih.lower (ground arith);
        run = λ i h k. run_to ih i h k (ground arith);
        first = ih.first;
      })
      | inr stop ↦ rw stop (record {
        upper = omega arith;
        lower = λ h. h;
        run = λ i h k. absurd (omega arith);
        first = stopped (ground arith);
      })
    ]
  where
    run_to :
        RunStart snap logs ct g (back_up snap logs ct g)
        → (i : ℕ) → back_up snap logs ct g ≤ i
        → i < suc g
        → term_at logs (g - snap) ≡ ct
        → term_at logs (i - snap) ≡ ct
    run_to ih i h k e = elim (dec_lt i g) [
      | yes lt ↦ ih.run i h lt
      | no ge ↦ let same : i ≡ g = omega arith in rw same e
    ]

    stopped :
        (suc g ≤ snap + 1) ⊎ (term_at logs (g - snap) ≢ ct)
        → (suc g ≤ snap + 1) ⊎ (term_at logs (suc g - 1 - snap) ≢ ct)
    stopped h = let same : suc g - 1 ≡ g = omega arith in rw same h

-- Why the consistency check refuses, and the hint it gives: either the log is too short, and the
-- hint is its next index; or the entry at `prev_log_index` has another term, and the hint is the
-- start of that term's run of entries, behind the snapshot.
pub record TooShort (a : AppendEntriesArgs) (snap : ℕ) (logs : List LogEntry) (hint : ℕ)
    : Type 0 where
  pub short : last_index logs < a.prev_log_index
  pub next : hint ≡ last_index logs + 1

pub record Conflict (a : AppendEntriesArgs) (snap : ℕ) (logs : List LogEntry) (hint : ℕ)
    : Type 0 where
  pub reach : a.prev_log_index ≤ last_index logs
  pub behind : snap ≤ a.prev_log_index
  pub differs : term_at logs (a.prev_log_index - snap) ≢ a.prev_log_term
  pub lower : snap < hint
  pub upper : (snap < a.prev_log_index → hint ≤ a.prev_log_index) × (hint ≤ a.prev_log_index + 1)
  pub run :
      (i : ℕ)
      → hint ≤ i
      → i ≤ a.prev_log_index
      → term_at logs (i - snap) ≡ term_at logs (a.prev_log_index - snap)
  pub first :
      (hint ≡ snap + 1) ⊎ (term_at logs (hint - 1 - snap) ≢ term_at logs (a.prev_log_index - snap))

conflict :
    (a : AppendEntriesArgs) (snap : ℕ) (logs : List LogEntry)
    → a.prev_log_index ≤ last_index logs
    → snap ≤ a.prev_log_index
    → term_at logs (a.prev_log_index - snap) ≢ a.prev_log_term
    → (g : ℕ) → RunStart snap logs (term_at logs (a.prev_log_index - snap)) a.prev_log_index g
    → Conflict a snap logs (max g (snap + 1))
conflict a snap logs le behind differs g r = record {
  reach = le;
  behind = behind;
  differs = differs;
  lower = omega arith;
  upper = (λ h. omega (arith, r.upper), omega (arith, r.upper));
  run = λ i h k. elim (dec_lt i a.prev_log_index) [
    | yes lt ↦ r.run i (omega arith) lt
    | no ge ↦ let same : i ≡ a.prev_log_index = omega arith in rw same
  ];
  first = elim (dec_lt (snap + 1) g) [
    | yes lt ↦
        let same : max g (snap + 1) ≡ g = omega arith in
        inr (rw same (elim r.first [ inl le' ↦ absurd (omega arith) | inr ne ↦ ne ]))
    | no ge ↦ inl (omega arith)
  ];
}

check_prev-cases :
    (a : AppendEntriesArgs) (s : RaftState) (hint : ℕ)
    → check_prev s a ≡ some hint
    → TooShort a s.snapshot_index s.logs hint ⊎ Conflict a s.snapshot_index s.logs hint
unfolding check_prev
check_prev-cases a s hint h = elim (Bool-cases (ltb (last_log_index s) a.prev_log_index)) [
  | inl short ↦ inl (record { short = ground arith; next = ground arith })
  | inr long ↦
      let t = term_at s.logs (a.prev_log_index - s.snapshot_index) in
      let g = back_up s.snapshot_index s.logs t a.prev_log_index in
      let e : max g (s.snapshot_index + 1) ≡ hint = ground arith in
      inr (
        rw (← e) (
          conflict a s.snapshot_index s.logs (ground arith) (ground arith) (ground arith) g
            (back_up-RunStart s.snapshot_index s.logs t a.prev_log_index)))
]

-- On a node that was not killed, a refused AppendEntries that is not of an older term leaves log and
-- commit index alone, and its hint is positive: the next index of a log that is too short, or the first index behind the
-- snapshot of the run of conflicting entries that ends at `prev_log_index`.
pub append_entries-refused :
    (now : ℕ) (a : AppendEntriesArgs) (s : RaftState)
    → s.killed ≡ false
    → s.current_term ≤ a.term
    → (append_entries now a s).1.success ≡ false
    → SameLog s (append_entries now a s).0
      × (0 < (append_entries now a s).1.next_index)
      × (TooShort a s.snapshot_index s.logs (append_entries now a s).1.next_index
          ⊎ Conflict a s.snapshot_index s.logs (append_entries now a s).1.next_index)
unfolding append_entries
append_entries-refused now a s alive le h = rw going (elim (Option-cases (check_prev f a)) [
  | inl none_ ↦ cc (rw (going, none_) at h)
  | inr (hint, e) ↦ rw e (same, positive hint (why hint e), why hint e)
])
  where
    f : RaftState
    f = follow now a s

    same : SameLog s f
    same = follow-SameLog now a s

    going : s.killed || ltb a.term s.current_term ≡ false
    going = ground arith

    why :
        (hint : ℕ)
        → check_prev f a ≡ some hint
        → TooShort a s.snapshot_index s.logs hint ⊎ Conflict a s.snapshot_index s.logs hint
    why hint e =
        subst₂ (λ logs snap. TooShort a snap logs hint ⊎ Conflict a snap logs hint) same.logs
          same.snapshot_index (check_prev-cases a f hint e)

    positive :
        (hint : ℕ)
        → TooShort a s.snapshot_index s.logs hint ⊎ Conflict a s.snapshot_index s.logs hint
        → 0 < hint
    positive hint (inl c) = omega (arith, c.next)
    positive hint (inr c) = omega (arith, c.lower)
