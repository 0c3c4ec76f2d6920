-- ===== src/Kv/Requests/Timeout.antt =====
-- kvraft/server.cpp: when PutAppend ends.
use chon_kv.Base.{
  ℕ, ◌⊎◌, ◌<◌, ◌≡◌, inl, inr, false, ltb, ℤ, Bool-cases, Option-cases, List, [], ◌∷◌, Any, here,
  there, arith, not, minus_one,
}
use chon_kv.Raft.Types.{StartResult}
use chon_kv.Kv.Messages.{Op}
use chon_kv.Kv.Sessions.{find_fence}
use chon_kv.Kv.Rpc.{PutAppendArgs, op_of}
use chon_kv.Kv.Server.{KvState}
use chon_kv.Kv.Requests.{
  run_events, WaitTurn, Waited, aborted, waiting, returned, wait_timeout, close_waiter, find_waiter,
  is_answered, is_ok, wait_turn, wait_loop, wait_result, wait_op, put_append, Attempt, Submitted,
  answered, failed, submit, index_of,
}

-- Whether the call is over.
abbrev pub IsOver : Waited → Type 0
IsOver aborted = Unit {0}
IsOver (waiting s) = ⊥
IsOver (returned e leader s) = Unit {0}

abbrev pub EndsLate : WaitTurn → Type 0
EndsLate t = wait_timeout < t.elapsed

wait_turn_late :
    (me : ℤ) (i : ℕ) (t : WaitTurn) (next : Waited) (s : KvState)
    → EndsLate t ⊎ IsOver next
    → IsOver (wait_turn me i t next s)
unfolding wait_turn close_waiter
wait_turn_late me i t next s h = elim (Bool-cases t.dead) [
  | inl e ↦ rw (e, wait_turn) tt
  | inr e ↦ elim (Bool-cases (is_answered (find_waiter i s.msg_replies))) [
    | inl f ↦ elim (Bool-cases (is_ok (find_waiter i s.msg_replies))) [
      | inl g ↦ rw (e, f, g, wait_turn) tt
      | inr g ↦ rw (e, f, g, wait_turn) tt
    ]
    | inr f ↦ elim (Bool-cases (ltb wait_timeout t.elapsed)) [
      | inl g ↦ rw (e, f, g, wait_turn) tt
      | inr g ↦
          rw (e, f, g, wait_turn) (elim h [ inl late ↦ absurd (in_time t late g) | inr k ↦ k ])
    ]
  ]
]
  where
    in_time : (t : WaitTurn) → EndsLate t → ltb wait_timeout t.elapsed ≡ false → ⊥
    in_time t late g = ground arith

wait_loop_late :
    (me : ℤ) (i : ℕ) (ts : List WaitTurn) (s : KvState)
    → Any EndsLate ts
    → IsOver (wait_loop me i ts s)
unfolding wait_loop
wait_loop_late me i [] s late = elim late [ ]
wait_loop_late me i (t ∷ ts) s (here h) = elim (Option-cases (run_events t.events s)) [
  | inl e ↦ rw (e, wait_loop) tt
  | inr (r, e) ↦ rw (e, wait_loop) (wait_turn_late me i t (wait_loop me i ts r) r (inl h))
]
wait_loop_late me i (t ∷ ts) s (there h) = elim (Option-cases (run_events t.events s)) [
  | inl e ↦ rw (e, wait_loop) tt
  | inr (r, e) ↦
      rw (e, wait_loop)
        (wait_turn_late me i t (wait_loop me i ts r) r (inr (wait_loop_late me i ts r h)))
]

wait_result_late :
    (me : ℤ) (o : Op) (r : StartResult) (leader : ℤ) (ts : List WaitTurn) (s : KvState)
    → Any EndsLate ts
    → IsOver (wait_result me o r leader ts s)
unfolding wait_result
wait_result_late me o r leader ts s late = elim (Bool-cases r.backpressure) [
  | inl e ↦ rw (e, wait_result) tt
  | inr e ↦ elim (Bool-cases (not r.is_leader)) [
    | inl f ↦ rw (e, f, wait_result) tt
    | inr f ↦ rw (e, f, wait_result) (wait_loop_late me (index_of r.index) ts _ late)
  ]
]

wait_op_late :
    (me : ℤ) (o : Op) (r : StartResult) (attempts : ℕ → Attempt) (leader : ℤ) (ts : List WaitTurn)
    (s : KvState)
    → Any EndsLate ts
    → IsOver (wait_op me o r attempts leader ts s)
unfolding wait_op
wait_op_late me o r attempts leader ts s late = by_case (submit r attempts)
  where
    by_case :
        (b : Submitted)
        → IsOver (elim b [
          | failed e ↦ returned e minus_one s
          | answered q ↦ wait_result me o q leader ts s
        ])
    by_case (failed e) = tt
    by_case (answered q) = wait_result_late me o q leader ts s late

-- PutAppend is over by the first turn of its wait that ends more than kWaitTimeout after the start,
-- whatever the node answered and whatever happened meanwhile.
pub put_append-IsOver :
    (me : ℤ) (a : PutAppendArgs) (r : StartResult) (attempts : ℕ → Attempt) (leader : ℤ)
    (ts : List WaitTurn) (s : KvState)
    → Any EndsLate ts
    → IsOver (put_append me a r attempts leader ts s)
unfolding put_append
put_append-IsOver me a r attempts leader ts s late =
    elim (Option-cases (find_fence a.client_id s.fenced)) [
      | inl e ↦ rw (e, put_append) (wait_op_late me (op_of a) r attempts leader ts s late)
      | inr (f, e) ↦ rw (e, put_append) tt
    ]
