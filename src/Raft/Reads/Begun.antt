-- ===== src/Raft/Reads/Begun.antt =====
-- raft/raft.cpp: the round that a caller of ReadIndex waits for.
use chon_kv.Base.{
  replicate, ℤ, pos, negsuc, if◌then◌else◌, ℕ, ◌≤◌, ◌<◌, ◌≡◌, refl, sym, ◌+◌, not, ◌∙◌, subst, inl,
  inr, Bool, true, false, ltb, ◌==◌, Bool-cases, Option, none, some, List, [], ◌∷◌, arith, set,
}
use mathlib.Core.Option.{some-injective}
use chon_kv.Raft.State.{RaftState, is_leader}
use chon_kv.Raft.Reads.Numbered.{IsNumbered}
use chon_kv.Raft.Reads.Heard.{IsWatched, Watch, update-IsWatched, start-IsWatched}
use chon_kv.Raft.Reads.Rounds.{
  active-found, find_round-ctx, find_round_put, find_round-All, acked_cases, opened-Holds,
  turned-Holds,
}
use chon_kv.Raft.Reads.{
  ReadIndexCtx, ReadTable, find_round, put_round, active_round, serves, Ticket, join_round,
  start_round, is_open, join_or_start, ReadStart, refused, forwarded, answered, waits, forward,
  begin_read, counted, record_read_ack, ReadEvent, opened, acked_by, turned, step_reads, run_reads,
}

abbrev pub IsAny : Bool → Type 0
IsAny d = Unit {0}

-- A round that is held keeps its term, whatever happens.
abbrev pub Held : ℕ → ℕ → ReadTable → Type 0
Held c term t = IsWatched IsAny c term t.rounds t.next_read_ctx

acked-Held :
    (c term : ℕ) (s : RaftState) (v server : ℕ) (t : ReadTable)
    → Held c term t
    → Held c term (record_read_ack s v server t)
unfolding put_round counted find_round
acked-Held c term s v server t w =
    acked_cases (Held c term) s v server t w (λ k r f _ _. count k r f)
  where
    count :
        (k : ℕ) (r : ReadIndexCtx)
        → find_round k t.rounds ≡ some r
        → Held c term (put_round (counted s server r) t)
    count k r f = elim (Bool-cases (r.ctx == c)) [
      | inl e ↦
          let here : find_round c t.rounds ≡ some r =
            subst (λ n. find_round n t.rounds ≡ some r)
              (ground (arith, find_round-ctx k t.rounds r f, e)) f in
          let same : w.round ≡ r = some-injective w.round r (sym w.found ∙ here) in
          record {
            round = counted s server r;
            found = rw (e, find_round) refl;
            progress = tt;
            in_term = subst (λ x. x.term ≡ term) same w.in_term;
            numbered = w.numbered;
          }
      | inr e ↦ record {
        round = w.round;
        found = find_round_put c (counted s server r) t.rounds e ∙ w.found;
        progress = tt;
        in_term = w.in_term;
        numbered = w.numbered;
      }
    ]

pub run_reads-Held :
    (c term : ℕ) (es : List ReadEvent) (t : ReadTable)
    → Held c term t
    → Held c term (run_reads es t)
unfolding run_reads step_reads
run_reads-Held c term [] t w = w
run_reads-Held c term (opened at s ∷ es) t w = run_reads-Held c term es _ (
    opened-Holds (IsWatched IsAny c term) (update-IsWatched IsAny c term)
      (start-IsWatched IsAny c term) at s t w)
run_reads-Held c term (acked_by s v server ∷ es) t w =
    run_reads-Held c term es _ (acked-Held c term s v server t w)
run_reads-Held c term (turned expired s k ∷ es) t w = run_reads-Held c term es _ (
    turned-Holds (IsWatched IsAny c term) (update-IsWatched IsAny c term)
      (start-IsWatched IsAny c term) expired s k t w)

pub held : (c term : ℕ) (t : ReadTable) → Watch c term t → Held c term t
held c term t w = record {
  round = w.round;
  found = w.found;
  progress = tt;
  in_term = w.in_term;
  numbered = w.numbered;
}

-- What a caller has that waits.
pub record Begun (s : RaftState) (k : Ticket) (u : ReadTable) : Type 0 where
  pub watch : Watch k.ctx s.current_term u
  pub index : k.read_index ≡ s.commit_index

abbrev pub IsBegun : RaftState → ReadStart → Type 0
IsBegun s refused = Unit {0}
IsBegun s (forwarded n) = Unit
IsBegun s (answered i) = Unit
IsBegun s (waits k u) = Begun s k u × (s.read_safe_commit ≤ s.commit_index)

start_round-Begun :
    (s : RaftState) (t : ReadTable) → Begun s (start_round s t).0 (start_round s t).1
unfolding start_round put_round find_round
start_round-Begun s t = record {
  watch = record {
    round = record {
      ctx = t.next_read_ctx;
      term = s.current_term;
      read_index = s.commit_index;
      acked = set (replicate s.peers 0) s.me 1;
      done = false;
      waiters = 1;
    };
    found =
        (let same : (t.next_read_ctx == t.next_read_ctx) ≡ true = ground arith in
          rw (same, find_round) refl);
    progress = refl;
    in_term = refl;
    numbered = omega arith;
  };
  index = refl;
}

join_or_start-Begun :
    (s : RaftState) (o : Option ReadIndexCtx) (t : ReadTable)
    → active_round t ≡ o
    → IsNumbered t
    → Begun s (join_or_start s o t).0 (join_or_start s o t).1
unfolding join_or_start join_round put_round find_round is_open
join_or_start-Begun s none t a w = start_round-Begun s t
join_or_start-Begun s (some r) t a w = elim (Bool-cases (not r.done)) [
  | inl e ↦ elim (Bool-cases (r.term == s.current_term)) [
    | inl g ↦ elim (Bool-cases (is_leader s.state)) [
      | inl h ↦
          rw (e, g, h, join_or_start, is_open)
            (record {
              watch = record {
                round = record r { waiters = r.waiters + 1 };
                found =
                    (let same : (r.ctx == r.ctx) ≡ true = ground arith in
                      rw (same, find_round) refl);
                progress = not_true r.done e;
                in_term = ground (arith, g);
                numbered =
                    find_round-All (λ x. x.ctx < t.next_read_ctx) (active-found t r a).0 t.rounds r
                      w (active-found t r a).1;
              };
              index = refl;
            })
      | inr h ↦ rw (e, g, h, join_or_start, is_open) (start_round-Begun s t)
    ]
    | inr g ↦ rw (e, g, join_or_start, is_open) (start_round-Begun s t)
  ]
  | inr e ↦ rw (e, join_or_start, is_open) (start_round-Begun s t)
]
  where
    not_true : (b : Bool) → not b ≡ true → b ≡ false
    not_true true h = cc h
    not_true false h = refl

pub begin_read-IsBegun :
    (at : ℕ) (s : RaftState) (t : ReadTable) → IsNumbered t → IsBegun s (begin_read at s t)
unfolding begin_read forward
begin_read-IsBegun at s t w = elim (Bool-cases (is_leader s.state)) [
  | inl e ↦ elim (Bool-cases (serves s)) [
    | inl g ↦ elim (Bool-cases (ltb s.commit_index s.read_safe_commit)) [
      | inl h ↦ rw (e, g, h, begin_read) tt
      | inr h ↦
          rw (e, g, h, begin_read)
            (join_or_start-Begun s (active_round t) t refl w, ground (arith, h))
    ]
    | inr g ↦ rw (e, g, begin_read) tt
  ]
  | inr e ↦ rw (e, begin_read) (of_id s.leader_id)
]
  where
    of_id :
        (n : ℤ)
        → IsBegun s
            (elim n [ pos i ↦ if i == s.me then refused else forwarded i | negsuc i ↦ refused ])
    of_id (pos i) = elim (Bool-cases (i == s.me)) [ inl e ↦ rw e tt | inr e ↦ rw e tt ]
    of_id (negsuc i) = tt
