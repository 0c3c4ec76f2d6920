-- ===== src/Raft/Commit.antt =====
-- raft/raft.cpp: AdvanceCommitIndexLocked, by which the leader commits, and CountRecentAcksLocked.
pub mod Sorting
pub mod Quorum
use chon_kv.Base.{
  ℕ, zero, suc, ◌+◌, ◌-◌, Bool, true, false, ◌&&◌, ◌||◌, not, if◌then◌else◌, ltb, leb, ◌==◌, List,
  [], ◌∷◌, length, get_or, set, max, replicate,
}
use chon_kv.Store.{last_index}
use chon_kv.Raft.Types.{MemberRole, is_voter, LogEntry, AppendEntriesArgs, AppendEntriesReply}
use chon_kv.Raft.State.{
  RaftState, is_leader, last_log_index, term_at, quorum_size, convert_to_follower,
}

-- What each voter is known to hold; `i` is the id of the head of the lists.
unfoldable pub voter_matches : ℕ → ℕ → ℕ → List MemberRole → List ℕ → List ℕ
voter_matches me last i [] matches = []
voter_matches me last i (m ∷ ms) [] = []
voter_matches me last i (m ∷ ms) (x ∷ xs) =
    let rest = voter_matches me last (suc i) ms xs in
    if is_voter m then (if i == me then last else x) ∷ rest else rest

-- `std::sort` into ascending order.
unfoldable pub insert_sorted : ℕ → List ℕ → List ℕ
insert_sorted x [] = x ∷ []
insert_sorted x (y ∷ ys) = let rest = insert_sorted x ys in if leb x y then x ∷ y ∷ ys else y ∷ rest

unfoldable pub sort : List ℕ → List ℕ
sort [] = []
sort (x ∷ xs) = insert_sorted x (sort xs)

unfoldable pub matched : RaftState → List ℕ
matched s = sort (voter_matches s.me (last_log_index s) 0 s.is_member s.match_index)

-- The entry at index `n` is in the log and of this term. The cast of a negative difference to
-- size_t is far out of range.
unfoldable pub term_ok : RaftState → ℕ → Bool
term_ok s n =
    let pos = n - s.snapshot_index in
    leb s.snapshot_index n && ltb pos (length s.logs) && term_at s.logs pos == s.current_term

-- `matched[matched.size() - quorum]`
abbrev pub quorum_index : RaftState → ℕ
quorum_index s = get_or (matched s) (length (matched s) - quorum_size s) 0

unfoldable pub may_commit : RaftState → Bool
may_commit s =
    is_leader s.state
    && not (length (matched s) == 0 || ltb (length (matched s)) (quorum_size s))
    && ltb s.commit_index (quorum_index s)
    && term_ok s (quorum_index s)

-- Raft::AdvanceCommitIndexLocked
unfoldable pub advance_commit_index : RaftState → RaftState
advance_commit_index s =
    if may_commit s
    then record s { commit_index = quorum_index s; heartbeat_seq = s.heartbeat_seq + 1 }
    else s

-- CountRecentAcksLocked
unfoldable pub count_recent_acks : ℕ → ℕ → ℕ → ℕ → List MemberRole → List ℕ → ℕ
count_recent_acks now window me i ms [] = 0
count_recent_acks now window me i [] (a ∷ acks) = 0
count_recent_acks now window me i (m ∷ ms) (a ∷ acks) =
    (if is_voter m && (i == me || ltb now (a + window)) then 1 else 0)
    + count_recent_acks now window me (suc i) ms acks
