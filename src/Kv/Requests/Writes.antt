-- ===== src/Kv/Requests/Writes.antt =====
-- kvraft/server.cpp: what PutAppend answers.
use chon_kv.Base.{
  ℕ, zero, suc, ◌≡◌, refl, subst, inl, inr, true, ltb, ℤ, Bool-cases, Option-cases, List, [], ◌∷◌,
  Any, here, there, not, minus_one,
}
use chon_kv.Raft.Types.{StartResult}
use chon_kv.Kv.Messages.{Op, ok}
use chon_kv.Kv.Sessions.{find_fence}
use chon_kv.Kv.Rpc.{PutAppendArgs, op_of}
use chon_kv.Kv.Server.{KvState, NotifyMsg}
use chon_kv.Kv.Requests.{
  run_events, WaitTurn, Waited, aborted, waiting, returned, wait_timeout, close_waiter, find_waiter,
  is_answered, is_ok, wait_turn, wait_loop, wait_result, wait_op, put_append, Attempt, Submitted,
  answered, failed, submit, retry_start, attempt_limit, waiter_of, index_of,
}
use chon_kv.Kv.Requests.Waiters.{Slot, made-Slot}
use chon_kv.Kv.Requests.Events.{EventCarries, Alone, SlotIn, run_events-Slot}

-- Where the result is kOK, `G` holds.
abbrev pub Backed : Type 0 → Waited → Type 0
Backed G aborted = Unit {0}
Backed G (waiting s) = Unit {0}
Backed G (returned e leader s) = e ≡ ok → G

-- The message that carries the client's command at the index came in one of the turns.
abbrev pub Carried : ℕ → ℤ → ℕ → List WaitTurn → Type 0
Carried i c q ts = Any (λ (t : WaitTurn). Any (EventCarries i c q) t.events) ts

abbrev pub AllAlone : ℕ → List WaitTurn → Type 0
AllAlone i [] = Unit {0}
AllAlone i (t ∷ ts) = Alone i t.events × AllAlone i ts

told_ok :
    (i : ℕ) (c : ℤ) (q : ℕ) (G : Type 0) (ws : List NotifyMsg)
    → Slot i c q G ws
    → is_ok (find_waiter i ws) ≡ true
    → G
unfolding is_ok
told_ok i c q G ws h e = elim (Option-cases (find_waiter i ws)) [
  | inl p ↦ cc (rw p at e)
  | inr (n, p) ↦ (h n p).told (rw p at e)
]

wait_turn-Backed :
    (me : ℤ) (i : ℕ) (c : ℤ) (q : ℕ) (G : Type 0) (t : WaitTurn) (next : Waited) (s : KvState)
    → Slot i c q G s.msg_replies
    → Backed G next
    → Backed G (wait_turn me i t next s)
unfolding wait_turn close_waiter
wait_turn-Backed me i c q G t next s h k = elim (Bool-cases t.dead) [
  | inl e ↦ rw (e, wait_turn) (λ p. cc p)
  | inr e ↦ elim (Bool-cases (is_answered (find_waiter i s.msg_replies))) [
    | inl f ↦ elim (Bool-cases (is_ok (find_waiter i s.msg_replies))) [
      | inl g ↦ rw (e, f, g, wait_turn) (λ p. told_ok i c q G s.msg_replies h g)
      | inr g ↦ rw (e, f, g, wait_turn) (λ p. cc p)
    ]
    | inr f ↦ elim (Bool-cases (ltb wait_timeout t.elapsed)) [
      | inl g ↦ rw (e, f, g, wait_turn) (λ p. cc p)
      | inr g ↦ rw (e, f, g, wait_turn) k
    ]
  ]
]

wait_loop-Backed :
    (me : ℤ) (i : ℕ) (c : ℤ) (q : ℕ) (G : Type 0) (ts : List WaitTurn) (s : KvState)
    → AllAlone i ts
    → (Carried i c q ts → G)
    → Slot i c q G s.msg_replies
    → Backed G (wait_loop me i ts s)
unfolding wait_loop
wait_loop-Backed me i c q G [] s a g h = tt
wait_loop-Backed me i c q G (t ∷ ts) s a g h = elim (Option-cases (run_events t.events s)) [
  | inl e ↦ rw (e, wait_loop) tt
  | inr (r, e) ↦
      let w : Slot i c q G r.msg_replies =
        subst (SlotIn i c q G) e (run_events-Slot i c q G t.events s a.0 (λ x. g (here x)) h) in
      rw (e, wait_loop)
        (wait_turn-Backed me i c q G t (wait_loop me i ts r) r w
          (wait_loop-Backed me i c q G ts r a.1 (λ x. g (there x)) w))
]

-- The index at which the command was placed.
abbrev pub placed_at : Submitted → ℕ
placed_at (failed e) = 0
placed_at (answered r) = index_of r.index

abbrev NotOk : Submitted → Type 0
NotOk (failed e) = ¬ (e ≡ ok)
NotOk (answered r) = Unit {0}

retry_start-NotOk : (left n : ℕ) (attempts : ℕ → Attempt) → NotOk (retry_start left n attempts)
unfolding retry_start
retry_start-NotOk zero n attempts = λ p. cc p
retry_start-NotOk (suc left) n attempts = elim (Bool-cases (not (attempts n).result.disk_full)) [
  | inl e ↦ rw (e, retry_start) tt
  | inr e ↦ elim (Bool-cases (attempts n).dead) [
    | inl f ↦ rw (e, f, retry_start) (λ p. cc p)
    | inr f ↦ rw (e, f, retry_start) (retry_start-NotOk left (suc n) attempts)
  ]
]

submit-NotOk : (r : StartResult) (attempts : ℕ → Attempt) → NotOk (submit r attempts)
unfolding submit
submit-NotOk r attempts = elim (Bool-cases r.disk_full) [
  | inl e ↦ rw (e, submit) (retry_start-NotOk attempt_limit 0 attempts)
  | inr e ↦ rw (e, submit) tt
]

wait_result-Backed :
    (me : ℤ) (o : Op) (r : StartResult) (leader : ℤ) (ts : List WaitTurn) (s : KvState)
    → AllAlone (index_of r.index) ts
    → Backed (Carried (index_of r.index) o.client_id o.seq_id ts) (wait_result me o r leader ts s)
unfolding wait_result
wait_result-Backed me o r leader ts s a =
    let i = index_of r.index in
    elim (Bool-cases r.backpressure) [
      | inl e ↦ rw (e, wait_result) (λ p. cc p)
      | inr e ↦ elim (Bool-cases (not r.is_leader)) [
        | inl f ↦ rw (e, f, wait_result) (λ p. cc p)
        | inr f ↦
            rw (e, f, wait_result)
              (wait_loop-Backed me i o.client_id o.seq_id (Carried i o.client_id o.seq_id ts) ts _ a
                (λ x. x)
                (made-Slot (waiter_of o i) (Carried i o.client_id o.seq_id ts) s.msg_replies refl))
      ]
    ]

wait_op-Backed :
    (me : ℤ) (o : Op) (r : StartResult) (attempts : ℕ → Attempt) (leader : ℤ) (ts : List WaitTurn)
    (s : KvState)
    → AllAlone (placed_at (submit r attempts)) ts
    → Backed
        (Carried (placed_at (submit r attempts)) o.client_id o.seq_id ts)
        (wait_op me o r attempts leader ts s)
unfolding wait_op
wait_op-Backed me o r attempts leader ts s a =
    by_case (submit r attempts) (submit-NotOk r attempts) a
  where
    by_case :
        (b : Submitted)
        → NotOk b
        → AllAlone (placed_at b) ts
        → Backed (Carried (placed_at b) o.client_id o.seq_id ts) (elim b [
          | failed e ↦ returned e minus_one s
          | answered q ↦ wait_result me o q leader ts s
        ])
    by_case (failed e) n a = λ p. absurd (n p)
    by_case (answered q) n a = wait_result-Backed me o q leader ts s a

-- While no other WaitOp makes or takes a waiter of the index at which the command was placed, PutAppend
-- answers kOK only if, during its wait, a command of the same client with the same sequence number was
-- applied at that index, whatever else was applied, installed or awaited meanwhile.
pub put_append-Backed :
    (me : ℤ) (a : PutAppendArgs) (r : StartResult) (attempts : ℕ → Attempt) (leader : ℤ)
    (ts : List WaitTurn) (s : KvState)
    → AllAlone (placed_at (submit r attempts)) ts
    → Backed
        (Carried (placed_at (submit r attempts)) a.client_id a.seq_id ts)
        (put_append me a r attempts leader ts s)
unfolding put_append op_of
put_append-Backed me a r attempts leader ts s alone =
    elim (Option-cases (find_fence a.client_id s.fenced)) [
      | inl e ↦ rw (e, put_append) (wait_op-Backed me (op_of a) r attempts leader ts s alone)
      | inr (f, e) ↦ rw (e, put_append) (λ p. cc p)
    ]
