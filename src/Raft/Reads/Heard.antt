-- ===== src/Raft/Reads/Heard.antt =====
-- raft/raft.cpp: a round of ReadIndex that is done was given a quorum on the way.
use chon_kv.Base.{
  ◌⊎◌, ℕ, ◌≤◌, ◌<◌, ◌≡◌, refl, sym, ◌+◌, ◌||◌, ◌∙◌, subst, inl, inr, Bool, true, false, leb, leb→le,
  ◌==◌, Bool-cases, some, List, [], ◌∷◌, arith, set,
}
use mathlib.Core.Option.{some-injective}
use chon_kv.Raft.State.{RaftState, quorum_size}
use chon_kv.Raft.Election.{count_granted_votes}
use chon_kv.Raft.Reads.Rounds.{
  find_round-ctx, find_round_put, acked_cases, opened-Holds, turned-Holds,
}
use chon_kv.Raft.Reads.{
  ReadIndexCtx, ReadTable, find_round, put_round, counted, record_read_ack, ReadEvent, opened,
  acked_by, turned, step_reads, run_reads,
}

-- One of the moments in a run of events at which an answer is counted that gives a round of this number
-- the votes of a quorum of the configuration, in a state of this term.
pub data Heard (c term : ℕ) : List ReadEvent → ReadTable → Type 0 where
  now :
      {es : List ReadEvent} {t : ReadTable} (w : RaftState) (server : ℕ) (r : ReadIndexCtx)
      → w.current_term ≡ term
      → find_round c (record_read_ack w c server t).rounds ≡ some r
      → quorum_size w ≤ count_granted_votes w.is_member r.acked
      → Heard c term (acked_by w c server ∷ es) t
  later :
      {es : List ReadEvent} {t : ReadTable} (e : ReadEvent)
      → Heard c term es (step_reads e t)
      → Heard c term (e ∷ es) t

-- A round that is there, and what is known of whether it is done.
pub record IsWatched (D : Bool → Type 0) (c term : ℕ) (rounds : List ReadIndexCtx) (next : ℕ)
    : Type 0 where
  pub round : ReadIndexCtx
  pub found : find_round c rounds ≡ some round
  pub progress : D round.done
  pub in_term : round.term ≡ term
  pub numbered : c < next

-- Where the callers of a round change, it stays what it is.
pub update-IsWatched :
    (D : Bool → Type 0) (c term next : ℕ) (rs : List ReadIndexCtx) (k : ℕ) (r q : ReadIndexCtx)
    → find_round k rs ≡ some r
    → q.ctx ≡ r.ctx
    → q.done ≡ r.done
    → q.term ≡ r.term
    → IsWatched D c term rs next
    → IsWatched D c term (q ∷ rs) next
unfolding find_round
update-IsWatched D c term next rs k r q f same_ctx same_done same_term w =
    elim (Bool-cases (q.ctx == c)) [
      | inl e ↦
          let at_c : (k == c) ≡ true = ground (arith, find_round-ctx k rs r f, e, same_ctx) in
          let here : find_round c rs ≡ some r =
            subst (λ n. find_round n rs ≡ some r) (ground (arith, at_c)) f in
          let same : w.round ≡ r = some-injective w.round r (sym w.found ∙ here) in
          record {
            round = q;
            found = rw (e, find_round) refl;
            progress = subst D (sym same_done) (subst (λ x. D x.done) same w.progress);
            in_term = cc (same_term, same, w.in_term);
            numbered = w.numbered;
          }
      | inr e ↦ record {
        round = w.round;
        found = find_round_put c q rs e ∙ w.found;
        progress = w.progress;
        in_term = w.in_term;
        numbered = w.numbered;
      }
    ]

-- A new round has a number of its own.
pub start-IsWatched :
    (D : Bool → Type 0) (c term next : ℕ) (rs : List ReadIndexCtx) (q : ReadIndexCtx)
    → q.ctx ≡ next
    → IsWatched D c term rs next
    → IsWatched D c term (q ∷ rs) (next + 1)
start-IsWatched D c term next rs q f w =
    let other : (q.ctx == c) ≡ false = ground (arith, f, w.numbered) in
    record {
      round = w.round;
      found = find_round_put c q rs other ∙ w.found;
      progress = w.progress;
      in_term = w.in_term;
      numbered = omega (arith, w.numbered);
    }

abbrev pub IsUndone : Bool → Type 0
IsUndone d = d ≡ false

going_on : (r : ReadIndexCtx) → r.done ≡ false → (r.done || false) ≡ false
going_on r h = rw h refl

abbrev pub Watch : ℕ → ℕ → ReadTable → Type 0
Watch c term t = IsWatched IsUndone c term t.rounds t.next_read_ctx

-- An answer gives the round a quorum, or it goes on.
acked-Watch :
    (c term : ℕ) (s : RaftState) (v server : ℕ) (t : ReadTable) (es : List ReadEvent)
    → Watch c term t
    → Heard c term (acked_by s v server ∷ es) t ⊎ Watch c term (record_read_ack s v server t)
unfolding put_round counted find_round
acked-Watch c term s v server t es w = acked_cases Out s v server t (λ _. inr w) count refl
  where
    Out : ReadTable → Type 0
    Out u =
        u ≡ record_read_ack s v server t
        → Heard c term (acked_by s v server ∷ es) t ⊎ Watch c term u

    count :
        (k : ℕ) (r : ReadIndexCtx)
        → find_round k t.rounds ≡ some r
        → (r.ctx == v) ≡ true
        → (r.term == s.current_term) ≡ true
        → Out (put_round (counted s server r) t)
    count k r f at_v in_term u = elim (Bool-cases (r.ctx == c)) [
      | inl e ↦
          let here : find_round c t.rounds ≡ some r =
            subst (λ n. find_round n t.rounds ≡ some r)
              (ground (arith, find_round-ctx k t.rounds r f, e)) f in
          let same : w.round ≡ r = some-injective w.round r (sym w.found ∙ here) in
          let votes = set r.acked server 1 in
          let at_c : c ≡ v = ground (arith, at_v, e) in
          let new = counted s server r in
          let put : find_round c (put_round new t).rounds ≡ some new = rw (e, find_round) refl in
          let found : find_round c (record_read_ack s c server t).rounds ≡ some new =
            subst (λ n. find_round c (record_read_ack s n server t).rounds ≡ some new) (sym at_c)
              (subst (λ x. find_round c x.rounds ≡ some new) u put) in
          let same_term : r.term ≡ term = cc (same, w.in_term) in
          elim (Bool-cases (leb (quorum_size s) (count_granted_votes s.is_member votes))) [
            | inl q ↦ inl (
                subst (λ n. Heard c term (acked_by s n server ∷ es) t) at_c
                  (now s server (counted s server r) (ground (arith, in_term, same_term)) found
                    (leb→le _ _ q)))
            | inr q ↦ inr (record {
              round = counted s server r;
              found = rw (e, find_round) refl;
              progress = rw q (going_on r (subst (λ x. x.done ≡ false) same w.progress));
              in_term = same_term;
              numbered = w.numbered;
            })
          ]
      | inr e ↦ inr (record {
        round = w.round;
        found = find_round_put c (counted s server r) t.rounds e ∙ w.found;
        progress = w.progress;
        in_term = w.in_term;
        numbered = w.numbered;
      })
    ]

step_reads-Watch :
    (c term : ℕ) (e : ReadEvent) (t : ReadTable) (es : List ReadEvent)
    → Watch c term t
    → Heard c term (e ∷ es) t ⊎ Watch c term (step_reads e t)
unfolding step_reads
step_reads-Watch c term (opened at s) t es w = inr (
    opened-Holds (IsWatched IsUndone c term) (update-IsWatched IsUndone c term)
      (start-IsWatched IsUndone c term) at s t w)
step_reads-Watch c term (acked_by s v server) t es w = acked-Watch c term s v server t es w
step_reads-Watch c term (turned expired s k) t es w = inr (
    turned-Holds (IsWatched IsUndone c term) (update-IsWatched IsUndone c term)
      (start-IsWatched IsUndone c term) expired s k t w)

-- A round that is done in the end was given a quorum on the way.
pub run_reads-Heard :
    (c term : ℕ) (es : List ReadEvent) (t : ReadTable) (r : ReadIndexCtx)
    → Watch c term t
    → find_round c (run_reads es t).rounds ≡ some r
    → r.done ≡ true
    → Heard c term es t
unfolding run_reads
run_reads-Heard c term [] t r w f d = cc (w.found, w.progress, f, d)
run_reads-Heard c term (e ∷ es) t r w f d = elim (step_reads-Watch c term e t es w) [
  | inl h ↦ h
  | inr v ↦ later e (run_reads-Heard c term es (step_reads e t) r v f d)
]
