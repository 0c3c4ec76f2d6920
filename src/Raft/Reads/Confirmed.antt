-- ===== src/Raft/Reads/Confirmed.antt =====
-- raft/raft.cpp: what stands behind an index that ReadIndex returns.
use chon_kv.Base.{
  ℕ, ◌≤◌, ◌≡◌, refl, sym, ap, not, ◌||◌, ◌∙◌, subst, inl, inr, Bool, true, false, ◌&&◌, ◌==◌,
  Bool-cases, Option-cases, Option, none, some, List, arith,
}
use mathlib.Core.Option.{some-injective}
use chon_kv.Raft.State.{RaftState}
use chon_kv.Raft.Reads.Begun.{held, run_reads-Held, IsBegun, begin_read-IsBegun}
use chon_kv.Raft.Reads.Numbered.{run_reads-IsNumbered}
use chon_kv.Raft.Reads.Heard.{Heard, run_reads-Heard}
use chon_kv.Raft.Reads.{
  ReadIndexCtx, ReadTable, no_reads, find_round, serves, Ticket, waits, begin_read, round_turn,
  read_turn, ReadEvent, run_reads,
}

-- What the turn in which a caller gets its index has found.
record Got (z : RaftState) (k : Ticket) (u : ReadTable) (i : ℕ) : Type 0 where
  round : ReadIndexCtx
  found : find_round k.ctx u.rounds ≡ some round
  done : round.done ≡ true
  in_term : round.term ≡ z.current_term
  serving : serves z ≡ true
  index : k.read_index ≡ i

abbrev first : Option (Option ℕ × ReadTable) → Option ℕ
first none = none
first (some r) = r.0

read_turn-Got :
    (expired : Bool) (z : RaftState) (k : Ticket) (u v : ReadTable) (i : ℕ)
    → read_turn expired z k u ≡ some (some i, v)
    → Got z k u i
unfolding read_turn round_turn
read_turn-Got expired z k u v i e = elim (Option-cases (find_round k.ctx u.rounds)) [
  | inl f ↦ cc (ap first (rw (f, read_turn) at e))
  | inr (r, f) ↦ of_round r f (rw (f, read_turn) at e)
]
  where
    never :
        (r : ReadIndexCtx)
        → (not z.killed && r.done) ≡ false
        → round_turn expired z k r u ≡ some (some i, v)
        → Got z k u i
    never r h e =
        elim (Bool-cases
          (z.killed || not (k.term == z.current_term) || not (serves z) || expired)) [
            | inl g ↦ cc (ap first (rw (h, g, round_turn) at e))
            | inr g ↦ cc (ap first (rw (h, g, round_turn) at e))
          ]

    of_round :
        (r : ReadIndexCtx)
        → find_round k.ctx u.rounds ≡ some r
        → round_turn expired z k r u ≡ some (some i, v)
        → Got z k u i
    of_round r f e = elim (Bool-cases (not z.killed)) [
      | inl a ↦ elim (Bool-cases r.done) [
        | inl d ↦ elim (Bool-cases (r.term == z.current_term)) [
          | inl m ↦ elim (Bool-cases (serves z)) [
            | inl g ↦ record {
              round = r;
              found = f;
              done = d;
              in_term = ground (arith, m);
              serving = g;
              index = some-injective k.read_index i (ap first (rw (a, d, m, g, round_turn) at e));
            }
            | inr g ↦ cc (ap first (rw (a, d, m, g, round_turn) at e))
          ]
          | inr m ↦ cc (ap first (rw (a, d, m, round_turn) at e))
        ]
        | inr d ↦ never r (rw (a, d) refl) e
      ]
      | inr a ↦ never r (rw a refl) e
    ]

-- What ReadIndex has made sure of when it returns.
pub record IsConfirmed (s : RaftState) (c : ℕ) (es : List ReadEvent) (u : ReadTable) (z : RaftState)
    (i : ℕ) : Type 0 where
  pub index : i ≡ s.commit_index
  pub safe : s.read_safe_commit ≤ i
  pub same_term : z.current_term ≡ s.current_term
  pub serving : serves z ≡ true
  pub heard : Heard c s.current_term es u

-- ReadIndex on a leader, called in the state `s` after any history of reads, `es` being what happens
-- between the call and the turn at which it returns an index, in the state `z`: the index is the commit
-- index at the call and not below the first one that is safe to read, the node still leads in the term of
-- the call, as a voter that does not step down, and between the call and the return an answer was counted
-- that gave the caller's round the votes of a quorum of the configuration, in that term.
pub read_index-IsConfirmed :
    (at : ℕ) (before : List ReadEvent) (s : RaftState) (k : Ticket) (u : ReadTable)
    (es : List ReadEvent) (expired : Bool) (z : RaftState) (i : ℕ) (v : ReadTable)
    → begin_read at s (run_reads before no_reads) ≡ waits k u
    → read_turn expired z k (run_reads es u) ≡ some (some i, v)
    → IsConfirmed s k.ctx es u z i
read_index-IsConfirmed at before s k u es expired z i v b e =
    let begun : IsBegun s (waits k u) =
      subst (IsBegun s) b (begin_read-IsBegun at s _ (run_reads-IsNumbered before no_reads tt)) in
    let got = read_turn-Got expired z k (run_reads es u) v i e in
    let kept =
      run_reads-Held k.ctx s.current_term es u (held k.ctx s.current_term u begun.0.watch) in
    let same : got.round ≡ kept.round =
      some-injective got.round kept.round (sym got.found ∙ kept.found) in
    record {
      index = sym got.index ∙ begun.0.index;
      safe = omega (arith, begun.1, begun.0.index, got.index);
      same_term = sym got.in_term ∙ (ap (λ r. r.term) same ∙ kept.in_term);
      serving = got.serving;
      heard = run_reads-Heard k.ctx s.current_term es u got.round begun.0.watch got.found got.done;
    }
