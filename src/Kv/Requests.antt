-- ===== src/Kv/Requests.antt =====
-- kvraft/server.cpp: what the server answers to its clients. Get, GetStale and PutAppend with WaitOp hold
-- the lock mu_ between their waits, so each is a loop over what it finds at every turn.
pub mod Reads
pub mod Waiters
pub mod Events
pub mod Writes
pub mod Timeout
mod Tests
use chon_kv.Base.{
  ℕ, ◌-◌, suc, zero, Bool, true, false, not, ◌&&◌, ◌||◌, if◌then◌else◌, ltb, leb, ◌==◌, ℤ, pos,
  negsuc, eqz, ltz, minus_one, Option, none, some, List, [], ◌∷◌,
}
use chon_kv.Raft.Types.{StartResult, ApplyMsg}
use chon_kv.Kv.Messages.{Op, Err, ok, no_key, wrong_leader, busy, session_gone}
use chon_kv.Kv.Rpc.{GetReply, PutAppendArgs, op_of}
use chon_kv.Kv.Sessions.{find_fence}
use chon_kv.Kv.Server.{KvState, NotifyMsg, find_key}
use chon_kv.Kv.Snapshot.{encode_snapshot, apply_msg}

-- Whom to ask instead: -1 where that is nobody or the server itself.
abbrev pub redirect : ℤ → ℤ → ℤ
redirect me leader = if eqz leader me || ltz leader (pos 0) then minus_one else leader

-- The key's value in the store as it is.
unfoldable pub read_key : List ℕ → ℤ → KvState → GetReply
read_key k leader s = elim (find_key k s.kv_store) [
  | none ↦ record { err = no_key; value = []; leader_id = leader }
  | some v ↦ record { err = ok; value = v; leader_id = leader }
]

-- A turn of Get's loop: the state and `dead_` when it looks, and the milliseconds since the start when
-- its wait is over.
pub record ReadTurn : Type 0 where
  pub state : KvState
  pub dead : Bool
  pub elapsed : ℕ

-- kWaitTimeout
abbrev pub wait_timeout : ℕ
wait_timeout = 1000

abbrev pub give_up : GetReply
give_up = record { err = wrong_leader; value = []; leader_id = minus_one }

-- `none` where the turns end before the loop.
unfoldable pub get_loop : ℕ → List ℕ → List ReadTurn → Option GetReply
get_loop ri k [] = none
get_loop ri k (t ∷ ts) =
    let rest = get_loop ri k ts in
    if leb ri t.state.last_cmd_index
    then some (read_key k minus_one t.state)
    else if t.dead || ltb wait_timeout t.elapsed
    then some give_up
    else rest

-- Get, from the answer of the node's ReadIndex and its GetLeaderId.
unfoldable pub get : ℤ → ℤ → ℤ → List ℕ → List ReadTurn → Option GetReply
get me (pos ri) leader k turns = get_loop ri k turns
get me (negsuc ri) leader k turns =
    some (record { err = wrong_leader; value = []; leader_id = redirect me leader })

-- GetStale
unfoldable pub get_stale : ℤ → List ℕ → KvState → GetReply
get_stale leader k s = read_key k leader s

-- kForceSnapMinInterval, in milliseconds
abbrev pub force_interval : ℕ
force_interval = 50

-- ForceSnapshotOnDiskFull at a time, with the time of the last one: the snapshot to take, if any, and
-- the time to keep.
unfoldable pub force_snapshot : ℕ → ℕ → KvState → Option (ℕ × List ℕ) × ℕ
force_snapshot now last s =
    if leb force_interval (now - last)
    then (some (s.last_cmd_index, encode_snapshot s), now)
    else (none, last)

-- One more call of Start in WaitOp after a full disk, and `dead_` after it.
pub record Attempt : Type 0 where
  pub result : StartResult
  pub dead : Bool

-- What comes of WaitOp's calls of Start: an error at once, or the last result.
pub data Submitted : Type 0 where
  failed : Err → Submitted
  answered : StartResult → Submitted

-- kDiskFullMaxRetries, and the first try.
abbrev pub attempt_limit : ℕ
attempt_limit = 5

-- The attempts left, and the number of the next one.
unfoldable pub retry_start : ℕ → ℕ → (ℕ → Attempt) → Submitted
retry_start zero n attempts = failed busy
retry_start (suc left) n attempts =
    let rest = retry_start left (suc n) attempts in
    let a = attempts n in
    if not a.result.disk_full
    then answered a.result
    else if a.dead
    then failed wrong_leader
    else rest

unfoldable pub submit : StartResult → (ℕ → Attempt) → Submitted
submit r attempts = if r.disk_full then retry_start attempt_limit 0 attempts else answered r

-- The waiter of an index is made or replaced.
unfoldable pub put_waiter : NotifyMsg → List NotifyMsg → List NotifyMsg
put_waiter n [] = n ∷ []
put_waiter n (w ∷ ws) =
    let rest = put_waiter n ws in if w.index == n.index then n ∷ ws else w ∷ rest

unfoldable pub find_waiter : ℕ → List NotifyMsg → Option NotifyMsg
find_waiter i [] = none
find_waiter i (w ∷ ws) = let rest = find_waiter i ws in if w.index == i then some w else rest

unfoldable pub erase_waiter : ℕ → List NotifyMsg → List NotifyMsg
erase_waiter i [] = []
erase_waiter i (w ∷ ws) = let rest = erase_waiter i ws in if w.index == i then ws else w ∷ rest

-- What may happen on the server while a WaitOp waits: a message of the channel, or another WaitOp
-- that makes its waiter or takes it away.
pub data Event : Type 0 where
  message : ApplyMsg → Event
  waiter_made : NotifyMsg → Event
  waiter_gone : ℕ → Event

unfoldable pub step_event : Event → KvState → Option KvState
step_event (message m) s = apply_msg m s
step_event (waiter_made n) s = some (record s { msg_replies = put_waiter n s.msg_replies })
step_event (waiter_gone i) s = some (record s { msg_replies = erase_waiter i s.msg_replies })

unfoldable pub run_events : List Event → KvState → Option KvState
run_events [] s = some s
run_events (e ∷ es) s = elim (step_event e s) [ none ↦ none | some r ↦ run_events es r ]

-- A turn of WaitOp's loop: the events of its wait, then `dead_`, the time since the start and the
-- node's leader as it finds them.
pub record WaitTurn : Type 0 where
  pub events : List Event
  pub dead : Bool
  pub elapsed : ℕ
  pub leader : ℤ

-- The process is gone, the turns end before the loop, or the loop returns an error and a leader.
pub data Waited : Type 0 where
  aborted : Waited
  waiting : KvState → Waited
  returned : Err → ℤ → KvState → Waited

unfoldable pub close_waiter : ℕ → Err → ℤ → KvState → Waited
close_waiter i e leader s =
    returned e leader (record s { msg_replies = erase_waiter i s.msg_replies })

unfoldable pub is_answered : Option NotifyMsg → Bool
is_answered none = false
is_answered (some n) = n.done

unfoldable pub is_ok : Option NotifyMsg → Bool
is_ok none = false
is_ok (some n) = n.ok

-- The checks after a wait; `next` is the rest of the loop.
unfoldable pub wait_turn : ℤ → ℕ → WaitTurn → Waited → KvState → Waited
wait_turn me i t next s =
    let n = find_waiter i s.msg_replies in
    if t.dead
    then close_waiter i wrong_leader minus_one s
    else if is_answered n
    then (if is_ok n
        then close_waiter i ok minus_one s
        else close_waiter i wrong_leader (redirect me t.leader) s)
    else if ltb wait_timeout t.elapsed
    then close_waiter i wrong_leader minus_one s
    else next

unfoldable pub wait_loop : ℤ → ℕ → List WaitTurn → KvState → Waited
wait_loop me i [] s = waiting s
wait_loop me i (t ∷ ts) s = elim (run_events t.events s) [
  | none ↦ aborted
  | some r ↦ wait_turn me i t (wait_loop me i ts r) r
]

-- A leader's index is never negative.
abbrev pub index_of : ℤ → ℕ
index_of (pos i) = i
index_of (negsuc i) = 0

abbrev pub waiter_of : Op → ℕ → NotifyMsg
waiter_of o i = record {
  index = i;
  done = false;
  ok = false;
  client_id = o.client_id;
  seq_id = o.seq_id;
}

-- WaitOp after its calls of Start.
unfoldable pub wait_result : ℤ → Op → StartResult → ℤ → List WaitTurn → KvState → Waited
wait_result me o r leader turns s =
    if r.backpressure
    then returned busy minus_one s
    else if not r.is_leader
    then returned wrong_leader (redirect me leader) s
    else wait_loop me (index_of r.index) turns
        (record s { msg_replies = put_waiter (waiter_of o (index_of r.index)) s.msg_replies })

-- WaitOp
unfoldable pub wait_op : ℤ → Op → StartResult → (ℕ → Attempt) → ℤ → List WaitTurn → KvState → Waited
wait_op me o r attempts leader turns s = elim (submit r attempts) [
  | failed e ↦ returned e minus_one s
  | answered q ↦ wait_result me o q leader turns s
]

-- PutAppend
unfoldable pub put_append :
    ℤ → PutAppendArgs → StartResult → (ℕ → Attempt) → ℤ → List WaitTurn → KvState → Waited
put_append me a r attempts leader turns s = elim (find_fence a.client_id s.fenced) [
  | none ↦ wait_op me (op_of a) r attempts leader turns s
  | some f ↦ returned session_gone minus_one s
]
