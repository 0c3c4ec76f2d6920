-- ===== src/Raft/Reads.antt =====
-- raft/raft.cpp: ReadIndex, by which a leader makes sure that it still leads before it answers a read,
-- with BroadcastReadHeartbeat and RecordReadAckLocked. A round of heartbeats is a shared object: the
-- rounds are a list by number, in which the newest entry of a number is the object as it is, and a
-- caller keeps the number. A caller that waits looks again at each turn.
pub mod Rounds
pub mod Numbered
pub mod Heard
pub mod Begun
pub mod Confirmed
pub mod Delivery
mod Tests
use chon_kv.Base.{
  ℕ, zero, suc, ◌+◌, ◌-◌, Bool, true, false, ◌&&◌, ◌||◌, not, if◌then◌else◌, ltb, leb, ◌==◌, ℤ, pos,
  negsuc, minus_one, Option, none, some, List, [], ◌∷◌, get_elem?, set, replicate,
}
use chon_kv.Raft.Types.{
  LogEntry, AppendEntriesArgs, AppendEntriesReply, ReadIndexArgs, ReadIndexReply,
}
use chon_kv.Raft.State.{
  RaftState, is_leader, voter_me, voter_at, quorum_size, last_log_index, convert_to_follower,
}
use chon_kv.Raft.Election.{count_granted_votes}
use chon_kv.Raft.Replicate.{prev_term}

-- kEnableLeaseRead
abbrev pub enable_lease_read : Bool
enable_lease_read = false

pub record ReadIndexCtx : Type 0 where
  pub ctx : ℕ
  pub term : ℕ
  pub read_index : ℕ
  -- 1 for a server that answered
  pub acked : List ℕ
  pub done : Bool
  pub waiters : ℕ

-- The state of reads: next_read_ctx_, active_read_ and the rounds that a caller may hold.
pub record ReadTable : Type 0 where
  pub next_read_ctx : ℕ
  pub active_read : Option ℕ
  pub rounds : List ReadIndexCtx

abbrev pub no_reads : ReadTable
no_reads = record { next_read_ctx = 1; active_read = none; rounds = [] }

unfoldable pub find_round : ℕ → List ReadIndexCtx → Option ReadIndexCtx
find_round c [] = none
find_round c (r ∷ rs) = let rest = find_round c rs in if r.ctx == c then some r else rest

unfoldable pub put_round : ReadIndexCtx → ReadTable → ReadTable
put_round r t = record t { rounds = r ∷ t.rounds }

unfoldable pub active_round : ReadTable → Option ReadIndexCtx
active_round t = elim t.active_read [ none ↦ none | some c ↦ find_round c t.rounds ]

-- A leader that is a voter and does not step down.
unfoldable pub serves : RaftState → Bool
serves s = is_leader s.state && not (s.pending_stepdown || not (voter_me s))

-- What a caller keeps of the round it waits for.
pub record Ticket : Type 0 where
  pub ctx : ℕ
  pub term : ℕ
  pub read_index : ℕ
  pub starter : Bool

unfoldable pub join_round : RaftState → ReadIndexCtx → ReadTable → Ticket × ReadTable
join_round s r t = (
  record { ctx = r.ctx; term = r.term; read_index = s.commit_index; starter = false },
  put_round (record r { waiters = r.waiters + 1 }) t,
)

unfoldable pub start_round : RaftState → ReadTable → Ticket × ReadTable
start_round s t =
    let c = t.next_read_ctx in
    (
      record { ctx = c; term = s.current_term; read_index = s.commit_index; starter = true },
      put_round
          (record {
            ctx = c;
            term = s.current_term;
            read_index = s.commit_index;
            acked = set (replicate s.peers 0) s.me 1;
            done = false;
            waiters = 1;
          })
          (record t { next_read_ctx = c + 1; active_read = some c }),
    )

-- Only a round that is not done takes further callers.
unfoldable pub is_open : RaftState → ReadIndexCtx → Bool
is_open s r = not r.done && r.term == s.current_term && is_leader s.state

unfoldable pub join_or_start : RaftState → Option ReadIndexCtx → ReadTable → Ticket × ReadTable
join_or_start s none t = start_round s t
join_or_start s (some r) t = if is_open s r then join_round s r t else start_round s t

-- What the first critical section of ReadIndex comes to.
pub data ReadStart : Type 0 where
  refused : ReadStart
  -- The leader is asked, at this server.
  forwarded : ℕ → ReadStart
  answered : ℕ → ReadStart
  waits : Ticket → ReadTable → ReadStart

unfoldable pub forward : RaftState → ReadStart
forward s = elim s.leader_id [
  | pos n ↦ if n == s.me then refused else forwarded n
  | negsuc n ↦ refused
]

unfoldable pub begin_read : ℕ → RaftState → ReadTable → ReadStart
begin_read now s t =
    if not (is_leader s.state)
    then forward s
    else if not (serves s)
    then refused
    else if ltb s.commit_index s.read_safe_commit
    then refused
    else if enable_lease_read && ltb now s.lease_expire
    then answered s.commit_index
    else (let w = join_or_start s (active_round t) t in waits w.0 w.1)

-- What a follower returns after the answer of the leader it asked.
unfoldable pub forwarded_index : ReadIndexReply → RaftState → ℤ
forwarded_index r s = elim r.read_index [
  | pos i ↦ if leb s.current_term r.term then pos i else minus_one
  | negsuc n ↦ minus_one
]

-- ReadIndexRPC: `index` is what ReadIndex returns where the guards let it be called.
unfoldable pub read_index_rpc : ReadIndexArgs → Option ℕ → RaftState → ReadIndexReply
read_index_rpc a index s = record {
  term = s.current_term;
  read_index =
      if a.term == s.current_term && serves s
      then (elim index [ none ↦ minus_one | some i ↦ pos i ])
      else minus_one;
}

-- BroadcastReadHeartbeat, the message for one server
unfoldable pub read_heartbeat : ℕ → ℕ → RaftState → Option AppendEntriesArgs
read_heartbeat c server s =
    if server == s.me || not (is_leader s.state) || not (voter_at s.is_member (pos server))
    then none
    else some (record {
      term = s.current_term;
      leader_id = pos s.me;
      prev_log_index = last_log_index s;
      prev_log_term = prev_term (last_log_index s) s;
      entries = [];
      leader_commit = s.commit_index;
      read_ctx = c;
    })

-- The count after a server's answer.
unfoldable pub counted : RaftState → ℕ → ReadIndexCtx → ReadIndexCtx
counted s server r =
    let votes = set r.acked server 1 in
    record r {
      acked = votes;
      done = r.done || leb (quorum_size s) (count_granted_votes s.is_member votes);
    }

unfoldable pub ack_round : RaftState → ℕ → ReadIndexCtx → ReadTable → ReadTable
ack_round s server r t = elim (get_elem? r.acked server) [
  | none ↦ t
  | some v ↦ if v == 0 then put_round (counted s server r) t else t
]

unfoldable pub ack_active : RaftState → ℕ → ℕ → Option ReadIndexCtx → ReadTable → ReadTable
ack_active s c server none t = t
ack_active s c server (some r) t =
    if r.ctx == c && r.term == s.current_term then ack_round s server r t else t

-- RecordReadAckLocked
unfoldable pub record_read_ack : RaftState → ℕ → ℕ → ReadTable → ReadTable
record_read_ack s c server t = if c == 0 then t else ack_active s c server (active_round t) t

-- The callback of a heartbeat that was sent in `term`.
unfoldable pub on_read_reply :
    ℕ → ℕ → ℕ → Bool → AppendEntriesReply → RaftState → ReadTable → RaftState × ReadTable
on_read_reply now server term ok r s t =
    if not ok || s.killed
    then (s, t)
    else if ltb s.current_term r.term
    then (let f = convert_to_follower r.term s in (record f { last_heartbeat = now }, t))
    else if not (term == s.current_term) || not (is_leader s.state)
    then (s, t)
    else (let n = record s { last_ack_time = set s.last_ack_time server now } in
        (
          n,
          (if voter_at n.is_member (pos server) then record_read_ack n r.read_ctx server t else t),
        ))

unfoldable pub is_active : ReadIndexCtx → ReadTable → Bool
is_active r t = elim t.active_read [ none ↦ false | some c ↦ c == r.ctx ]

-- A caller leaves its round; the last one takes the round down.
unfoldable pub leave : ReadIndexCtx → ReadTable → ReadTable
leave r t =
    let left = r.waiters - 1 in
    put_round (record r { waiters = left })
      (record t { active_read = if left == 0 && is_active r t then none else t.active_read })

-- A turn of a caller's loop and, where the loop ends, the checks behind it: none if it waits on.
unfoldable pub round_turn :
    Bool → RaftState → Ticket → ReadIndexCtx → ReadTable → Option (Option ℕ × ReadTable)
round_turn expired s k r t =
    if not s.killed && r.done
    then some
        ((if r.term == s.current_term && serves s then some k.read_index else none), leave r t)
    else if s.killed || not (k.term == s.current_term) || not (serves s) || expired
    then some (none, leave r t)
    else none

unfoldable pub read_turn : Bool → RaftState → Ticket → ReadTable → Option (Option ℕ × ReadTable)
read_turn expired s k t = elim (find_round k.ctx t.rounds) [
  | none ↦ some (none, t)
  | some r ↦ round_turn expired s k r t
]

-- What happens to the reads of a node, each with the state of the node at that moment: a caller comes,
-- an answer to a heartbeat is counted, a caller has its turn.
pub data ReadEvent : Type 0 where
  opened : ℕ → RaftState → ReadEvent
  acked_by : RaftState → ℕ → ℕ → ReadEvent
  turned : Bool → RaftState → Ticket → ReadEvent

unfoldable pub reads_of : ReadStart → ReadTable → ReadTable
reads_of refused t = t
reads_of (forwarded n) t = t
reads_of (answered i) t = t
reads_of (waits k u) t = u

unfoldable pub after_turn : Option (Option ℕ × ReadTable) → ReadTable → ReadTable
after_turn none t = t
after_turn (some r) t = r.1

unfoldable pub step_reads : ReadEvent → ReadTable → ReadTable
step_reads (opened now s) t = reads_of (begin_read now s t) t
step_reads (acked_by s c server) t = record_read_ack s c server t
step_reads (turned expired s k) t = after_turn (read_turn expired s k t) t

unfoldable pub run_reads : List ReadEvent → ReadTable → ReadTable
run_reads [] t = t
run_reads (e ∷ es) t = run_reads es (step_reads e t)
