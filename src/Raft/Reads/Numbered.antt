-- ===== src/Raft/Reads/Numbered.antt =====
-- raft/raft.cpp: the numbers of the rounds of ReadIndex, which are given out once.
use chon_kv.Base.{ℕ, ◌<◌, ◌≡◌, ◌+◌, some, List, [], ◌∷◌, arith}
use chon_kv.Codec.RoundTrip.{All}
use chon_kv.Raft.Reads.Rounds.{find_round-All, acked_cases, opened-Holds, turned-Holds}
use chon_kv.Raft.Reads.{
  ReadIndexCtx, ReadTable, find_round, put_round, counted, ReadEvent, opened, acked_by, turned,
  step_reads, run_reads,
}

-- The numbers of the rounds were given out before.
abbrev pub IsNumbered : ReadTable → Type 0
IsNumbered t = All (λ r. r.ctx < t.next_read_ctx) t.rounds

update-IsNumbered :
    (next : ℕ) (rs : List ReadIndexCtx) (k : ℕ) (r q : ReadIndexCtx)
    → find_round k rs ≡ some r
    → q.ctx ≡ r.ctx
    → q.done ≡ r.done
    → q.term ≡ r.term
    → All (λ x. x.ctx < next) rs
    → All (λ x. x.ctx < next) (q ∷ rs)
update-IsNumbered next rs k r q f c d m w =
    (omega (arith, c, find_round-All (λ x. x.ctx < next) k rs r w f), w)

numbered_on :
    (next : ℕ) (rs : List ReadIndexCtx)
    → All (λ x. x.ctx < next) rs
    → All (λ x. x.ctx < next + 1) rs
numbered_on next [] w = tt
numbered_on next (r ∷ rs) w = (omega (arith, w.0), numbered_on next rs w.1)

start-IsNumbered :
    (next : ℕ) (rs : List ReadIndexCtx) (q : ReadIndexCtx)
    → q.ctx ≡ next
    → All (λ x. x.ctx < next) rs
    → All (λ x. x.ctx < next + 1) (q ∷ rs)
start-IsNumbered next rs q f w = (omega (arith, f), numbered_on next rs w)

abbrev Numbered : List ReadIndexCtx → ℕ → Type 0
Numbered rs next = All (λ x. x.ctx < next) rs

step_reads-IsNumbered : (e : ReadEvent) (t : ReadTable) → IsNumbered t → IsNumbered (step_reads e t)
unfolding step_reads put_round counted
step_reads-IsNumbered (opened at s) t w =
    opened-Holds Numbered update-IsNumbered start-IsNumbered at s t w
step_reads-IsNumbered (turned expired s k) t w =
    turned-Holds Numbered update-IsNumbered start-IsNumbered expired s k t w
step_reads-IsNumbered (acked_by s v server) t w =
    acked_cases IsNumbered s v server t w (λ k r f _ _. (count k r f))
  where
    count :
        (k : ℕ) (r : ReadIndexCtx)
        → find_round k t.rounds ≡ some r
        → IsNumbered (put_round (counted s server r) t)
    count k r f = (find_round-All (λ x. x.ctx < t.next_read_ctx) k t.rounds r w f, w)

pub run_reads-IsNumbered :
    (es : List ReadEvent) (t : ReadTable) → IsNumbered t → IsNumbered (run_reads es t)
unfolding run_reads
run_reads-IsNumbered [] t w = w
run_reads-IsNumbered (e ∷ es) t w =
    run_reads-IsNumbered es (step_reads e t) (step_reads-IsNumbered e t w)
