-- ===== src/Raft/Reads/Rounds.antt =====
-- raft/raft.cpp: what a step of ReadIndex does to the rounds of heartbeats.
use chon_kv.Base.{
  ℤ, pos, negsuc, if◌then◌else◌, ℕ, ◌≡◌, refl, sym, ◌+◌, ◌-◌, not, ◌||◌, subst, inl, inr, Bool,
  true, false, ◌&&◌, ltb, ◌==◌, Bool-cases, Option-cases, Option, none, some, List, [], ◌∷◌,
  get_elem?,
}
use mathlib.Core.Option.{some-injective}
use chon_kv.Raft.State.{RaftState, is_leader}
use chon_kv.Codec.RoundTrip.{All}
use chon_kv.Raft.Reads.{
  ReadIndexCtx, ReadTable, find_round, put_round, active_round, serves, Ticket, join_round,
  start_round, is_open, join_or_start, refused, forwarded, forward, begin_read, counted, ack_round,
  ack_active, record_read_ack, leave, round_turn, read_turn, reads_of, after_turn,
}

pub find_round-ctx :
    (c : ℕ) (rs : List ReadIndexCtx) (r : ReadIndexCtx)
    → find_round c rs ≡ some r
    → (r.ctx == c) ≡ true
unfolding find_round
find_round-ctx c [] r e = cc e
find_round-ctx c (q ∷ rs) r e = elim (Bool-cases (q.ctx == c)) [
  | inl h ↦ subst (λ x. (x.ctx == c) ≡ true) (some-injective q r (rw (h, find_round) at e)) h
  | inr h ↦ find_round-ctx c rs r (rw (h, find_round) at e)
]

pub find_round_put :
    (c : ℕ) (q : ReadIndexCtx) (rs : List ReadIndexCtx)
    → (q.ctx == c) ≡ false
    → find_round c (q ∷ rs) ≡ find_round c rs
unfolding find_round
find_round_put c q rs h = rw (h, find_round) refl

pub find_round-All :
    (P : ReadIndexCtx → Type 0) (c : ℕ) (rs : List ReadIndexCtx) (r : ReadIndexCtx)
    → All P rs
    → find_round c rs ≡ some r
    → P r
unfolding find_round
find_round-All P c [] r h e = cc e
find_round-All P c (q ∷ rs) r h e = elim (Bool-cases (q.ctx == c)) [
  | inl g ↦ subst P (some-injective q r (rw (g, find_round) at e)) h.0
  | inr g ↦ find_round-All P c rs r h.1 (rw (g, find_round) at e)
]

pub active-found :
    (t : ReadTable) (r : ReadIndexCtx)
    → active_round t ≡ some r
    → (k : ℕ) × (find_round k t.rounds ≡ some r)
unfolding active_round
active-found t r e = elim (Option-cases t.active_read) [
  | inl h ↦ cc (rw (h, active_round) at e)
  | inr (k, h) ↦ (k, (rw (h, active_round) at e))
]

-- A forwarded read leaves the rounds alone.
forward-reads_of : (s : RaftState) (t : ReadTable) → reads_of (forward s) t ≡ t
unfolding forward reads_of
forward-reads_of s t = of_id s.leader_id
  where
    of_id :
        (n : ℤ)
        → reads_of
            (elim n [ pos i ↦ if i == s.me then refused else forwarded i | negsuc i ↦ refused ])
            t
          ≡ t
    of_id (pos i) = elim (Bool-cases (i == s.me)) [ inl e ↦ rw e refl | inr e ↦ rw e refl ]
    of_id (negsuc i) = refl

-- An answer changes nothing, or it counts for the active round.
pub acked_cases :
    (Q : ReadTable → Type 0) (s : RaftState) (v server : ℕ) (t : ReadTable)
    → Q t
    → ((k : ℕ) (r : ReadIndexCtx)
        → find_round k t.rounds ≡ some r
        → (r.ctx == v) ≡ true
        → (r.term == s.current_term) ≡ true
        → Q (put_round (counted s server r) t))
    → Q (record_read_ack s v server t)
unfolding record_read_ack ack_active ack_round
acked_cases Q s v server t same count = elim (Bool-cases (v == 0)) [
  | inl e ↦ rw (e, record_read_ack) same
  | inr e ↦ rw (e, record_read_ack) (of_round (active_round t) refl)
]
  where
    of_round : (o : Option ReadIndexCtx) → active_round t ≡ o → Q (ack_active s v server o t)
    of_round none a = same
    of_round (some r) a = elim (Bool-cases (r.ctx == v)) [
      | inl g ↦ elim (Bool-cases (r.term == s.current_term)) [
        | inl h ↦ elim (Option-cases (get_elem? r.acked server)) [
          | inl f ↦ rw (g, h, f, ack_active, ack_round) same
          | inr (x, f) ↦ elim (Bool-cases (x == 0)) [
            | inl z ↦
                rw (g, h, f, z, ack_active, ack_round)
                  (count (active-found t r a).0 r (active-found t r a).1 g h)
            | inr z ↦ rw (g, h, f, z, ack_active, ack_round) same
          ]
        ]
        | inr h ↦ rw (g, h, ack_active) same
      ]
      | inr g ↦ rw (g, ack_active) same
    ]

-- What holds of the rounds and of the next number, where no answer is counted.
module _ (P : List ReadIndexCtx → ℕ → Type 0)
    (update : (next : ℕ) (rs : List ReadIndexCtx) (k : ℕ) (r q : ReadIndexCtx)
      → find_round k rs ≡ some r
      → q.ctx ≡ r.ctx
      → q.done ≡ r.done
      → q.term ≡ r.term
      → P rs next
      → P (q ∷ rs) next)
    (start : (next : ℕ) (rs : List ReadIndexCtx) (q : ReadIndexCtx)
      → q.ctx ≡ next
      → P rs next
      → P (q ∷ rs) (next + 1)) where
  abbrev pub Holds : ReadTable → Type 0
  Holds t = P t.rounds t.next_read_ctx

  join_or_start-Holds :
      (s : RaftState) (o : Option ReadIndexCtx) (t : ReadTable)
      → active_round t ≡ o
      → Holds t
      → Holds (join_or_start s o t).1
  unfolding join_or_start join_round start_round put_round
  join_or_start-Holds s none t a w = start t.next_read_ctx t.rounds _ refl w
  join_or_start-Holds s (some r) t a w = elim (Bool-cases (is_open s r)) [
    | inl e ↦ rw (e, join_or_start) (join (active-found t r a))
    | inr e ↦ rw (e, join_or_start) (start t.next_read_ctx t.rounds _ refl w)
  ]
    where
      join : (k : ℕ) × (find_round k t.rounds ≡ some r) → Holds (join_round s r t).1
      join (k, f) =
          update t.next_read_ctx t.rounds k r (record r { waiters = r.waiters + 1 }) f refl refl
            refl w

  pub opened-Holds :
      (at : ℕ) (s : RaftState) (t : ReadTable) → Holds t → Holds (reads_of (begin_read at s t) t)
  unfolding reads_of begin_read
  opened-Holds at s t w = elim (Bool-cases (is_leader s.state)) [
    | inl e ↦ elim (Bool-cases (serves s)) [
      | inl g ↦ elim (Bool-cases (ltb s.commit_index s.read_safe_commit)) [
        | inl h ↦ rw (e, g, h, begin_read, reads_of) w
        | inr h ↦
            rw (e, g, h, begin_read, reads_of) (join_or_start-Holds s (active_round t) t refl w)
      ]
      | inr g ↦ rw (e, g, begin_read, reads_of) w
    ]
    | inr e ↦ rw (e, begin_read) (subst Holds (sym (forward-reads_of s t)) w)
  ]

  leave-Holds :
      (k : ℕ) (r : ReadIndexCtx) (t : ReadTable)
      → find_round k t.rounds ≡ some r
      → Holds t
      → Holds (leave r t)
  unfolding leave put_round
  leave-Holds k r t f w =
      update t.next_read_ctx t.rounds k r (record r { waiters = r.waiters - 1 }) f refl refl refl w

  pub turned-Holds :
      (expired : Bool) (s : RaftState) (k : Ticket) (t : ReadTable)
      → Holds t
      → Holds (after_turn (read_turn expired s k t) t)
  unfolding read_turn round_turn after_turn
  turned-Holds expired s k t w = elim (Option-cases (find_round k.ctx t.rounds)) [
    | inl e ↦ rw (e, read_turn, after_turn) w
    | inr (r, e) ↦
        rw (e, read_turn)
          (elim (Bool-cases (not s.killed && r.done)) [
            | inl g ↦ rw (g, round_turn, after_turn) (leave-Holds k.ctx r t e w)
            | inr g ↦
                elim (Bool-cases
                  (s.killed || not (k.term == s.current_term) || not (serves s) || expired)) [
                    | inl h ↦ rw (g, h, round_turn, after_turn) (leave-Holds k.ctx r t e w)
                    | inr h ↦ rw (g, h, round_turn, after_turn) w
                  ]
          ])
  ]
