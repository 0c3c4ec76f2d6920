-- ===== src/Raft/Replicate/Sent.antt =====
-- raft/raft.cpp: the entries that a round of ReplicateLoop sends.
use chon_kv.Base.{
  ℕ, zero, suc, ◌+◌, ◌-◌, ◌≤◌, ◌<◌, ◌≡◌, refl, sym, ap, subst, ◌∙◌, inl, inr, Bool, true, false,
  ◌&&◌, ◌||◌, not, ltb, leb, ◌==◌, Bool-cases, Option-cases, some, List, [], ◌∷◌, arith, length,
  get_elem?, get_or, set,
}
use chon_kv.Raft.Types.{LogEntry, AppendEntriesArgs}
use chon_kv.Raft.State.{RaftState, is_leader, last_log_index, term_at}
use chon_kv.Raft.Log.{Contiguous, IsLog, get_elem?-Contiguous, get_elem?-in_range, last_index-IsLog}
use chon_kv.Raft.Invariant.{IsValid}
use chon_kv.Raft.Replicate.{
  collect, Outgoing, idle, entries, whole_snapshot, Plan, plan, batch_end, prev_term, batch,
  snapshot_to_send, send_round, replicate_round, max_entries_per_rpc, max_bytes_per_rpc,
}

-- `es` is a part of the log from index `i` on.
pub record Taken (snap i : ℕ) (logs es : List LogEntry) : Type 0 where
  pub consecutive : Contiguous i es
  pub from_log :
      (j : ℕ) (e : LogEntry) → get_elem? es j ≡ some e → get_elem? logs (i - snap + j) ≡ some e

empty_batch : (snap i : ℕ) (logs : List LogEntry) → Taken snap i logs []
empty_batch snap i logs = record { consecutive = tt; from_log = λ j e h. cc h }

one_more :
    (snap i : ℕ) (logs es : List LogEntry) (e : LogEntry)
    → IsLog snap logs
    → snap < i
    → get_elem? logs (i - snap) ≡ some e
    → Taken snap (suc i) logs es
    → Taken snap i logs (e ∷ es)
one_more snap i logs es e v lt here t = record {
  consecutive =
      (omega (arith, get_elem?-Contiguous snap (i - snap) logs e v.contiguous here), t.consecutive);
  from_log = from_log;
}
  where
    from_log :
        (j : ℕ) (f : LogEntry)
        → get_elem? (e ∷ es) j ≡ some f
        → get_elem? logs (i - snap + j) ≡ some f
    from_log zero f h = ap (get_elem? logs) (omega arith) ∙ here ∙ h
    from_log (suc j) f h =
        ap (get_elem? logs) {x = i - snap + suc j} (omega arith) ∙ t.from_log j f h

collect-Taken :
    (snap : ℕ) (logs : List LogEntry) (next n i bytes : ℕ)
    → IsLog snap logs
    → snap < i
    → Taken snap i logs (collect snap logs next n i bytes)
unfolding collect
collect-Taken snap logs next zero i bytes v lt = empty_batch snap i logs
collect-Taken snap logs next (suc n) i bytes v lt =
    elim (Option-cases (get_elem? logs (i - snap))) [
      | inl gone ↦ rw (gone, collect) (empty_batch snap i logs)
      | inr (e, here) ↦
          let behind : leb i snap ≡ false = ground (arith, lt) in
          elim (Bool-cases (ltb next i && ltb max_bytes_per_rpc (bytes + length e.command))) [
            | inl full ↦ rw (here, behind, full, collect) (empty_batch snap i logs)
            | inr fits ↦
                rw (here, behind, fits, collect)
                  (one_more snap i logs _ e v lt here (
                    collect-Taken snap logs next n (suc i) (bytes + length e.command) v
                      (omega arith)))
          ]
    ]

length-collect :
    (snap : ℕ) (logs : List LogEntry) (next n i bytes : ℕ)
    → length (collect snap logs next n i bytes) ≤ n
unfolding collect
length-collect snap logs next zero i bytes = omega arith
length-collect snap logs next (suc n) i bytes = elim (Option-cases (get_elem? logs (i - snap))) [
  | inl gone ↦ rw (gone, collect) (omega arith)
  | inr (e, here) ↦ elim (Bool-cases (leb i snap)) [
    | inl under ↦
        rw (here, under, collect) (omega (arith, length-collect snap logs next n (suc i) bytes))
    | inr behind ↦
        elim (Bool-cases (ltb next i && ltb max_bytes_per_rpc (bytes + length e.command))) [
          | inl full ↦ rw (here, behind, full, collect) (omega arith)
          | inr fits ↦
              rw (here, behind, fits, collect)
                (omega (arith, length-collect snap logs next n (suc i) (bytes + length e.command)))
        ]
  ]
]

-- The message `a` of a leader in state `s`.
pub record Sent (s : RaftState) (a : AppendEntriesArgs) : Type 0 where
  pub term : a.term ≡ s.current_term
  pub leader_commit : a.leader_commit ≡ s.commit_index
  pub taken : Taken s.snapshot_index (a.prev_log_index + 1) s.logs a.entries
  pub few : length a.entries ≤ max_entries_per_rpc
  pub prev_matched :
      s.snapshot_index ≤ a.prev_log_index
      → a.prev_log_index ≤ last_log_index s
      → a.prev_log_term ≡ term_at s.logs (a.prev_log_index - s.snapshot_index)

prev_term-matched :
    (p : ℕ) (s : RaftState)
    → IsValid s
    → s.snapshot_index ≤ p
    → p ≤ last_log_index s
    → prev_term p s ≡ term_at s.logs (p - s.snapshot_index)
unfolding prev_term
prev_term-matched p s v lo hi =
    let e : ltb p s.snapshot_index ≡ false = ground (arith, lo) in
    let here =
      get_elem?-in_range (p - s.snapshot_index) s.logs
        (omega (arith, last_index-IsLog s.snapshot_index s.logs v.is_log)) in
    rw (e, here.1, prev_term, term_at) refl

batch-Sent :
    (ctx : ℕ) (p : Plan) (may : Bool) (s : RaftState)
    → IsValid s
    → 1 ≤ p.next
    → (may ≡ true → s.snapshot_index < p.next)
    → Sent s (batch ctx p may s)
unfolding batch batch_end
batch-Sent ctx p true s v one ahead =
    let e : p.next - 1 + 1 ≡ p.next = omega arith in
    record {
      term = refl;
      leader_commit = refl;
      taken =
          subst (λ k. Taken s.snapshot_index k s.logs (batch ctx p true s).entries) (sym e)
            (collect-Taken s.snapshot_index s.logs p.next
              (batch_end p (last_log_index s) + 1 - p.next) p.next 0 v.is_log (ahead refl));
      few = omega (
        arith,
        length-collect s.snapshot_index s.logs p.next (batch_end p (last_log_index s) + 1 - p.next)
            p.next 0,
      );
      prev_matched = prev_term-matched (p.next - 1) s v;
    }
batch-Sent ctx p false s v one ahead = record {
  term = refl;
  leader_commit = refl;
  taken = empty_batch s.snapshot_index (p.next - 1 + 1) s.logs;
  few = omega arith;
  prev_matched = prev_term-matched (p.next - 1) s v;
}

plan_positive : (now v : ℕ) (s : RaftState) → 1 ≤ (plan now v s).next
unfolding plan
plan_positive now v s = ground arith

plan_ahead :
    (now v : ℕ) (s : RaftState)
    → (plan now v s).removed ≡ true
    → (plan now v s).may_send_log ≡ true
    → s.snapshot_index < (plan now v s).next
unfolding plan
plan_ahead now v s r m = ground arith

-- What a leader in state `s` may send.
abbrev pub IsSound : RaftState → Outgoing → Type 0
IsSound s idle = Unit {0}
IsSound s (entries a) = Sent s a
IsSound s (whole_snapshot a) =
    (a.term ≡ s.current_term)
    × ((a.last_included_index ≡ s.snapshot_index) × (a.chunk ≡ s.snapshot_data))

send_round-IsSound :
    (now ctx v : ℕ) (p : Plan) (s : RaftState)
    → IsValid s
    → 1 ≤ p.next
    → (p.removed ≡ true → p.may_send_log ≡ true → s.snapshot_index < p.next)
    → IsSound s (send_round now ctx v p s).1
unfolding send_round snapshot_to_send
send_round-IsSound now ctx v p s valid one ahead =
    let lagging = leb p.next s.snapshot_index && not p.removed in
    let may = p.may_send_log && not lagging in
    let sent : Sent s (batch ctx p may s) =
      batch-Sent ctx p may s valid one (λ m. clear p.removed ahead m) in
    elim (Bool-cases (lagging && not (get_or s.snap_in_flight v false))) [
      | inl e ↦ rw e (refl, (refl, refl))
      | inr e ↦ elim (Bool-cases may) [
        | inl m ↦ rw (e, m, send_round) (subst (λ b. Sent s (batch ctx p b s)) m sent)
        | inr m ↦ rw (e, m, send_round) (subst (λ b. Sent s (batch ctx p b s)) m sent)
      ]
    ]
  where
    clear :
        (r : Bool)
        → (r ≡ true → p.may_send_log ≡ true → s.snapshot_index < p.next)
        → (p.may_send_log && not (leb p.next s.snapshot_index && not r)) ≡ true
        → s.snapshot_index < p.next
    clear true h m = h refl (ground (arith, m))
    clear false h m = ground (arith, m)

next_index_aside :
    (s : RaftState) (ns : List ℕ) (o : Outgoing)
    → IsSound (record s { next_index = ns }) o
    → IsSound s o
next_index_aside s ns idle h = tt
next_index_aside s ns (entries a) h = record {
  term = h.term;
  leader_commit = h.leader_commit;
  taken = h.taken;
  few = h.few;
  prev_matched = h.prev_matched;
}
next_index_aside s ns (whole_snapshot a) h = h

-- On a well-formed state, a round of the leader sends nothing; or the snapshot it has, in its term; or
-- an AppendEntries of its term and commit index whose entries are the consecutive ones of its log behind
-- prev_log_index, at most 1024 of them, with the term that its log has at prev_log_index.
pub replicate_round-IsSound :
    (now ctx v : ℕ) (s : RaftState) → IsValid s → IsSound s (replicate_round now ctx v s).1
unfolding replicate_round
replicate_round-IsSound now ctx v s valid =
    elim (Bool-cases (s.killed || not (is_leader s.state))) [
      | inl a ↦ rw (a, replicate_round) tt
      | inr a ↦ elim (Bool-cases (s.pending_stepdown && leb s.stepdown_after now)) [
        | inl b ↦ rw (a, b, replicate_round) tt
        | inr b ↦
            elim (Bool-cases (
              not (plan now v s).may_send_log
              && get_or s.last_heartbeat_seq v 0 == s.heartbeat_seq)) [
                | inl c ↦ rw (a, b, c, replicate_round) tt
                | inr c ↦
                    rw (a, b, c, replicate_round)
                      (next_index_aside s (set s.next_index v (plan now v s).next_index) _ (
                        send_round-IsSound now ctx v (plan now v s)
                          (record s { next_index = set s.next_index v (plan now v s).next_index })
                          (record {
                            is_log = valid.is_log;
                            covered = valid.covered;
                            committed = valid.committed;
                          })
                          (plan_positive now v s) (plan_ahead now v s)))
              ]
      ]
    ]
