-- ===== src/Raft/Replicate/Delivery.antt =====
-- raft/raft.cpp: a batch from ReplicateLoop to the follower's AppendEntries.
use chon_kv.Base.{ℕ, ◌≡◌, true, subst}
use chon_kv.Raft.Types.{AppendEntriesArgs}
use chon_kv.Raft.State.{RaftState}
use chon_kv.Raft.Invariant.{IsValid}
use chon_kv.Raft.Append.{append_entries}
use chon_kv.Raft.Append.Writes.{NoConflict}
use chon_kv.Raft.Append.Matching.{Accepted, append_entries-Accepted}
use chon_kv.Raft.Replicate.{entries, replicate_round}
use chon_kv.Raft.Replicate.Sent.{Sent, IsSound, replicate_round-IsSound}

-- If both nodes are well-formed and the batch that a round of the leader sends does not contradict what
-- the follower has committed, a follower that accepts it ends up with a well-formed log that held the
-- previous entry's term, holds each entry's term at its index, reaches the last of them, and is
-- unchanged up to the previous entry and up to its commit index.
pub replicate_round-append_entries :
    (now later ctx v : ℕ) (s f : RaftState) (a : AppendEntriesArgs)
    → IsValid s
    → IsValid f
    → (replicate_round now ctx v s).1 ≡ entries a
    → NoConflict f.commit_index f.snapshot_index f.logs a.entries
    → (append_entries later a f).1.success ≡ true
    → Accepted a f (append_entries later a f).0
replicate_round-append_entries now later ctx v s f a vs vf sent clear ok =
    let sound : Sent s a = subst (IsSound s) sent (replicate_round-IsSound now ctx v s vs) in
    append_entries-Accepted later a f vf sound.taken.consecutive clear ok
