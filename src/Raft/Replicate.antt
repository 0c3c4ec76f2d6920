-- ===== src/Raft/Replicate.antt =====
-- raft/raft.cpp: ReplicateLoop, the leader's side of replication to one server: what one round of the
-- loop sends after its wait, and what the replies change. The number of the read round that a message
-- carries is an argument.
pub mod Sent
pub mod Delivery
pub mod Chunks
pub mod Replies
mod Tests
use chon_kv.Base.{
  ℕ, zero, suc, ◌+◌, ◌-◌, ◌/◌, Bool, true, false, ◌&&◌, ◌||◌, not, if◌then◌else◌, ltb, leb, ◌==◌, ℤ,
  pos, negsuc, minus_one, eqz, ltz, is_nonneg, Option, none, some, List, [], ◌∷◌, map, length,
  get_elem?, get_or, set, take, drop, min, max,
}
use chon_kv.Raft.Types.{
  LogEntry, AppendEntriesArgs, AppendEntriesReply, InstallSnapshotArgs, InstallSnapshotReply,
  is_removed_frozen, of_role,
}
use chon_kv.Raft.State.{
  RaftState, is_leader, last_log_index, term_at, voter_me, convert_to_follower, member_count,
}
use chon_kv.Raft.Election.{election_timeout_min, cq_max_consec_fail}
use chon_kv.Raft.Commit.{advance_commit_index, count_recent_acks}
use chon_kv.Raft.Crc.{crc32}
use chon_kv.Raft.Snapshot.{snapshot_chunk_size}

abbrev pub log_retry_ms : ℕ
log_retry_ms = 300

abbrev pub max_entries_per_rpc : ℕ
max_entries_per_rpc = 1024

abbrev pub pipeline_max_in_flight : ℕ
pipeline_max_in_flight = 8192

abbrev pub max_bytes_per_rpc : ℕ
max_bytes_per_rpc = 1048576

abbrev pub leader_lease_ms : ℕ
leader_lease_ms = 125

-- `for (i = next; i <= last; i++)` with `n` rounds to go: entries until the byte limit is met, but at
-- least one.
unfoldable pub collect : ℕ → List LogEntry → ℕ → ℕ → ℕ → ℕ → List LogEntry
collect snap logs next zero i bytes = []
collect snap logs next (suc n) i bytes =
    let skipped = collect snap logs next n (suc i) bytes in
    elim (get_elem? logs (i - snap)) [
      | none ↦ []
      | some e ↦
          let rest = collect snap logs next n (suc i) (bytes + length e.command) in
          if leb i snap
          then skipped
          else if ltb next i && ltb max_bytes_per_rpc (bytes + length e.command)
          then []
          else e ∷ rest
    ]

-- What a round sends: nothing, entries, or the chunks of the snapshot, of which the data is split
-- later.
pub data Outgoing : Type 0 where
  idle : Outgoing
  entries : AppendEntriesArgs → Outgoing
  whole_snapshot : InstallSnapshotArgs → Outgoing

-- What a round decides first about server `v`.
pub record Plan : Type 0 where
  pub next_index : ℕ
  pub next : ℕ
  pub removed : Bool
  pub removed_cap : ℤ
  pub may_send_log : Bool

unfoldable pub plan : ℕ → ℕ → RaftState → Plan
plan now v s =
    let removed = is_removed_frozen s.is_member s.removed_at_index (pos v) in
    let removed_cap = get_or s.removed_at_index v minus_one in
    let next_index = get_or s.next_index v 0 in
    let match_index = get_or s.match_index v 0 in
    let inflight = next_index - 1 - match_index in
    let timed_out = ltb 0 inflight && ltb (get_or s.inflight_log_time v 0 + log_retry_ms) now in
    let wants =
      (leb next_index (last_log_index s) && ltb inflight pipeline_max_in_flight) || timed_out in
    let covered = removed && leb next_index s.snapshot_index in
    let next_index' = if covered then s.snapshot_index + 1 else next_index in
    let may =
      wants
      && not (removed && (not (is_nonneg removed_cap) || ltz removed_cap (pos next_index)))
      && not (covered && ltz removed_cap (pos next_index')) in
    let send_from = if timed_out then match_index + 1 else next_index' in
    let next = max send_from 1 in
    record {
      next_index = next_index';
      next = if removed && leb next s.snapshot_index && may then s.snapshot_index + 1 else next;
      removed = removed;
      removed_cap = removed_cap;
      may_send_log = may;
    }

-- The last entry that a batch from `next` on may hold.
unfoldable pub batch_end : Plan → ℕ → ℕ
batch_end p last =
    let capped =
      if p.removed
      then (elim p.removed_cap [ pos cap_ ↦ min last cap_ | negsuc n ↦ last ])
      else last in
    min capped (p.next + max_entries_per_rpc - 1)

-- The term in front of a batch: where the log has no entry there, the snapshot's.
unfoldable pub prev_term : ℕ → RaftState → ℕ
prev_term prev s =
    if ltb prev s.snapshot_index
    then s.snapshot_term
    else (elim (get_elem? s.logs (prev - s.snapshot_index)) [
      | none ↦ s.snapshot_term
      | some e ↦ e.term
    ])

unfoldable pub batch : ℕ → Plan → Bool → RaftState → AppendEntriesArgs
batch ctx p may s = record {
  term = s.current_term;
  leader_id = pos s.me;
  prev_log_index = p.next - 1;
  prev_log_term = prev_term (p.next - 1) s;
  entries =
      if may
      then collect s.snapshot_index s.logs p.next (batch_end p (last_log_index s) + 1 - p.next)
          p.next 0
      else [];
  leader_commit = s.commit_index;
  read_ctx = ctx;
}

unfoldable pub snapshot_to_send : ℕ → RaftState → InstallSnapshotArgs
snapshot_to_send v s = record {
  term = s.current_term;
  leader_id = pos s.me;
  last_included_index = s.snapshot_index;
  last_included_term = s.snapshot_term;
  offset = pos 0;
  chunk_size = pos 0;
  done = false;
  crc = crc32 s.snapshot_data;
  epoch = pos (get_or s.snap_epoch v 0 + 1);
  chunk = s.snapshot_data;
  members = map of_role s.is_member;
}

-- Where the round sends something.
unfoldable pub send_round : ℕ → ℕ → ℕ → Plan → RaftState → RaftState × Outgoing
send_round now ctx v p s =
    let t = record s { last_heartbeat_seq = set s.last_heartbeat_seq v s.heartbeat_seq } in
    let lagging = leb p.next s.snapshot_index && not p.removed in
    let may = p.may_send_log && not lagging in
    let a = batch ctx p may s in
    if lagging && not (get_or s.snap_in_flight v false)
    then (
      record t {
        inflight_log_time = set s.inflight_log_time v now;
        snap_in_flight = set s.snap_in_flight v true;
        snap_epoch = set s.snap_epoch v (get_or s.snap_epoch v 0 + 1);
      },
      whole_snapshot (snapshot_to_send v s),
    )
    else if may
    then (
      record t {
        next_index = set s.next_index v (p.next + length a.entries);
        inflight_log_time = set s.inflight_log_time v now;
      },
      entries a,
    )
    else (t, entries a)

-- One round of the loop for server `v`.
unfoldable pub replicate_round : ℕ → ℕ → ℕ → RaftState → RaftState × Outgoing
replicate_round now ctx v s =
    let p = plan now v s in
    let s' = record s { next_index = set s.next_index v p.next_index } in
    if s.killed || not (is_leader s.state)
    then (s, idle)
    else if s.pending_stepdown && leb s.stepdown_after now
    then (
      if not (voter_me s)
          then convert_to_follower s.current_term s
          else record s { pending_stepdown = false },
      idle,
    )
    else if not p.may_send_log && get_or s.last_heartbeat_seq v 0 == s.heartbeat_seq
    then (s', idle)
    else send_round now ctx v p s'

-- One chunk of the snapshot: its offset, its bytes and whether it is the last.
pub record Piece : Type 0 where
  pub offset : ℕ
  pub bytes : List ℕ
  pub is_last : Bool

-- `do { ... } while (off < total)`: the rounds of the loop from `off` on, `rest` being what is left.
unfoldable pub split : ℕ → ℕ → List ℕ → List Piece
split zero off rest = []
split (suc k) off rest =
    let len = min (length rest) snapshot_chunk_size in
    let more = split k (off + len) (drop len rest) in
    record { offset = off; bytes = take len rest; is_last = leb (length rest) len }
    ∷ (if ltb len (length rest) then more else [])

-- A round for each byte, and one more, is enough.
unfoldable pub chunks : List ℕ → List Piece
chunks blob = split (suc (length blob)) 0 blob

-- A reply counts for the reachability of the server, whatever it says.
unfoldable pub note_reply : ℕ → Bool → RaftState → RaftState
note_reply v ok s =
    let fails = get_or s.cq_consec_fail v 0 in
    record s {
      cq_consec_fail =
          set s.cq_consec_fail v
            (if ok then 0 else if ltb fails cq_max_consec_fail then fails + 1 else fails);
    }

-- A success moves the server's match index and may renew the lease and commit.
unfoldable pub on_success : ℕ → ℕ → AppendEntriesArgs → RaftState → RaftState
on_success now v a s =
    let new_match = a.prev_log_index + length a.entries in
    let t = record s {
      match_index = set s.match_index v (max (get_or s.match_index v 0) new_match);
    } in
    let recent = count_recent_acks now election_timeout_min t.me 0 t.is_member t.last_ack_time in
    advance_commit_index (
      if ltb (member_count t / 2) recent
      then record t { lease_expire = now + leader_lease_ms }
      else t)

-- A refusal moves the next index to the hint, but not below what the server is known to hold.
unfoldable pub on_refusal : ℕ → AppendEntriesReply → RaftState → RaftState
on_refusal v r s =
    let next =
      if ltb 0 r.next_index
      then max r.next_index (get_or s.match_index v 0 + 1)
      else max 1 (get_or s.next_index v 0 - 1) in
    record s { next_index = set s.next_index v next }

-- The callback on a live node; `ok` is whether a reply came. The acknowledgement of a read round is not
-- modelled.
unfoldable pub count_reply :
    ℕ → ℕ → AppendEntriesArgs → Bool → AppendEntriesReply → RaftState → RaftState
count_reply now v a ok r s =
    let n = note_reply v ok s in
    let acked = record n { last_ack_time = set n.last_ack_time v now } in
    if not ok
    then n
    else if ltb n.current_term r.term
    then (let f = convert_to_follower r.term n in record f { last_heartbeat = now })
    else if not (a.term == n.current_term) || not (is_leader n.state)
    then n
    else if r.success
    then on_success now v a acked
    else on_refusal v r acked

-- The callback of an AppendEntries to server `v`.
unfoldable pub on_append_reply :
    ℕ → ℕ → AppendEntriesArgs → Bool → AppendEntriesReply → RaftState → RaftState
on_append_reply now v a ok r s = if s.killed then s else count_reply now v a ok r s

-- The callback of a chunk of the snapshot that ended at `last_idx`, sent in `term` and `epoch`.
unfoldable pub on_chunk_reply :
    ℕ → ℕ → Bool → ℕ → ℕ → ℕ → Bool → InstallSnapshotReply → RaftState → RaftState
on_chunk_reply now v is_last last_idx term epoch ok r s =
    let n = note_reply v ok s in
    let free = set n.snap_in_flight v false in
    if s.killed
    then s
    else if ltb n.current_term r.term
    then (let f = convert_to_follower r.term n in
        record f { last_heartbeat = now; snap_in_flight = free })
    else if not (term == n.current_term) || not (is_leader n.state)
    then (if epoch == get_or n.snap_epoch v 0 then record n { snap_in_flight = free } else n)
    else if not is_last
    then n
    else if ok && r.ok_install
    then record n {
      match_index = set n.match_index v (max (get_or n.match_index v 0) last_idx);
      next_index = set n.next_index v (last_idx + 1);
      snap_in_flight = free;
    }
    else record n { snap_in_flight = free }
