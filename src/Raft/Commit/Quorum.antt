-- ===== src/Raft/Commit/Quorum.antt =====
-- raft/raft.cpp: AdvanceCommitIndexLocked and who holds what it commits.
use chon_kv.Base.{
  ℕ, suc, ◌+◌, ◌-◌, ◌≤◌, ◌<◌, ◌≡◌, ◌≢◌, refl, true, ◌&&◌, leb, ◌==◌, Bool-cases, inl, inr,
  if◌then◌else◌, List, [], ◌∷◌, arith, length, get_or, ◌∙◌,
}
use native.Mathlib.Decide.{dec_le}
use chon_kv.Raft.Types.{MemberRole, is_voter}
use chon_kv.Raft.State.{RaftState, leader, term_at, quorum_size, last_log_index}
use chon_kv.Raft.Log.{last_index-IsLog}
use chon_kv.Raft.Invariant.{IsValid}
use chon_kv.Raft.Commit.{
  voter_matches, matched, term_ok, may_commit, quorum_index, advance_commit_index,
}
use chon_kv.Raft.Commit.Sorting.{
  count_ge, count_ge-sort, sort-IsSorted, IsSorted, count_ge-le, count_ge-anti, count_ge-get_or,
  get_or-count_ge,
}

-- How many voters are known to hold the log up to index `n`; a node counts its own log.
unfoldable pub count_holders : ℕ → ℕ → ℕ → ℕ → List MemberRole → List ℕ → ℕ
count_holders n me last i [] xs = 0
count_holders n me last i (m ∷ ms) [] = 0
count_holders n me last i (m ∷ ms) (x ∷ xs) =
    (if is_voter m && leb n (if i == me then last else x) then 1 else 0)
    + count_holders n me last (suc i) ms xs

abbrev pub holders : RaftState → ℕ → ℕ
holders s n = count_holders n s.me (last_log_index s) 0 s.is_member s.match_index

count_ge-voter_matches :
    (n me last i : ℕ) (ms : List MemberRole) (xs : List ℕ)
    → count_ge n (voter_matches me last i ms xs) ≡ count_holders n me last i ms xs
unfolding count_ge voter_matches count_holders
count_ge-voter_matches n me last i [] xs = refl
count_ge-voter_matches n me last i (m ∷ ms) [] = refl
count_ge-voter_matches n me last i (m ∷ ms) (x ∷ xs) =
    ground (arith, count_ge-voter_matches n me last (suc i) ms xs)

holders-matched : (s : RaftState) (n : ℕ) → count_ge n (matched s) ≡ holders s n
unfolding matched
holders-matched s n =
    count_ge-sort n (voter_matches s.me (last_log_index s) 0 s.is_member s.match_index)
    ∙ count_ge-voter_matches n s.me (last_log_index s) 0 s.is_member s.match_index

-- The new commit index `n` of a leader in state `s`.
pub record Commits (s : RaftState) (n : ℕ) : Type 0 where
  pub role : s.state ≡ leader
  pub forward : s.commit_index < n
  pub quorum : quorum_size s ≤ holders s n
  pub behind : s.snapshot_index ≤ n
  pub in_log : n - s.snapshot_index < length s.logs
  pub own_term : term_at s.logs (n - s.snapshot_index) ≡ s.current_term

quorum_holds :
    (s : RaftState)
    → quorum_size s ≤ length (matched s)
    → quorum_size s ≤ holders s (get_or (matched s) (length (matched s) - quorum_size s) 0)
quorum_holds s le =
    let n = get_or (matched s) (length (matched s) - quorum_size s) 0 in
    omega (
      arith,
      holders-matched s n,
      count_ge-get_or (length (matched s) - quorum_size s) (matched s) sorted (omega arith),
    )
  where
    sorted : IsSorted (matched s)
    sorted = unfold matched in sort-IsSorted _

may_commit-Commits : (s : RaftState) → may_commit s ≡ true → Commits s (quorum_index s)
unfolding may_commit term_ok
may_commit-Commits s h = record {
  role = ground arith;
  forward = ground arith;
  quorum = quorum_holds s (ground arith);
  behind = ground arith;
  in_log = ground arith;
  own_term = ground arith;
}

-- If the commit index moves, it moves forward, to an entry of the leader's own term in its log that
-- a quorum of the voters holds.
pub advance_commit_index-Commits :
    (s : RaftState)
    → (advance_commit_index s).commit_index ≢ s.commit_index
    → Commits s (advance_commit_index s).commit_index
unfolding advance_commit_index
advance_commit_index-Commits s moved = elim (Bool-cases (may_commit s)) [
  | inl e ↦ rw e (may_commit-Commits s e)
  | inr e ↦ absurd (rw e at moved refl)
]

-- A leader's log: in shape, the entries from `n` on of its own term, and no voter holding more of it
-- than there is.
pub record OwnTail (s : RaftState) (n : ℕ) : Type 0 where
  pub valid : IsValid s
  pub role : s.state ≡ leader
  pub own :
      (i : ℕ)
      → n ≤ i
      → i ≤ last_log_index s
      → term_at s.logs (i - s.snapshot_index) ≡ s.current_term
  pub bounded : holders s (last_log_index s + 1) ≡ 0

quorum_index-ge : (s : RaftState) (n : ℕ) → quorum_size s ≤ holders s n → n ≤ quorum_index s
unfolding matched
quorum_index-ge s n h =
    get_or-count_ge n (quorum_size s) (matched s) (sort-IsSorted _) (omega arith)
      (omega (arith, holders-matched s n))

-- On a leader whose state is well-formed, whose entries from an index on are of its own term, and
-- none of whose voters is counted as holding more than its log, that index is committed at once if
-- it is past the commit index and a quorum of the voters holds it.
pub advance_commit_index_progress :
    (s : RaftState) (n : ℕ)
    → OwnTail s n
    → s.commit_index < n
    → quorum_size s ≤ holders s n
    → n ≤ (advance_commit_index s).commit_index
unfolding advance_commit_index
advance_commit_index_progress s n o lt h = rw moves (quorum_index-ge s n h)
  where
    N : ℕ
    N = quorum_index s

    ge : n ≤ N
    ge = quorum_index-ge s n h

    long : quorum_size s ≤ length (matched s)
    long = omega (arith, holders-matched s n, count_ge-le n (matched s))

    inside : N ≤ last_log_index s
    inside = elim (dec_le N (last_log_index s)) [
      | yes le ↦ le
      | no out ↦ absurd (
          omega (
            arith,
            o.bounded,
            quorum_holds s long,
            holders-matched s N,
            holders-matched s (last_log_index s + 1),
            count_ge-anti (last_log_index s + 1) N (matched s) (omega arith),
          ))
    ]

    own : term_at s.logs (N - s.snapshot_index) ≡ s.current_term
    own = o.own N ge inside

    in_log : N - s.snapshot_index < length s.logs
    in_log = omega (
      arith,
      inside,
      ge,
      last_index-IsLog s.snapshot_index s.logs o.valid.is_log,
      o.valid.covered,
    )

    ok : term_ok s N ≡ true
    ok = unfold term_ok in ground (arith, own, in_log, ge, o.valid.covered)

    moves : may_commit s ≡ true
    moves = unfold may_commit in ground (arith, o.role, ok, long, ge)

-- Committing keeps the log, what is on disk, and the shape of the state.
pub record Kept (s t : RaftState) : Type 0 where
  pub logs : t.logs ≡ s.logs
  pub disk : t.disk ≡ s.disk
  pub current_term : t.current_term ≡ s.current_term
  pub pending_conf_index : t.pending_conf_index ≡ s.pending_conf_index
  pub commit : s.commit_index ≤ t.commit_index

pub advance_commit_index-Kept : (s : RaftState) → Kept s (advance_commit_index s)
unfolding advance_commit_index
advance_commit_index-Kept s = elim (Bool-cases (may_commit s)) [
  | inl e ↦ rw e (record {
    logs = refl;
    disk = refl;
    current_term = refl;
    pending_conf_index = refl;
    commit = omega (arith, (may_commit-Commits s e).forward);
  })
  | inr e ↦ rw e (record {
    logs = refl;
    disk = refl;
    current_term = refl;
    pending_conf_index = refl;
    commit = omega arith;
  })
]

pub advance_commit_index-IsValid : (s : RaftState) → IsValid s → IsValid (advance_commit_index s)
unfolding advance_commit_index
advance_commit_index-IsValid s v = elim (Bool-cases (may_commit s)) [
  | inl e ↦
      let c = may_commit-Commits s e in
      rw e (record {
        is_log = v.is_log;
        covered = c.behind;
        committed =
            omega (arith, c.in_log, c.behind, last_index-IsLog s.snapshot_index s.logs v.is_log);
      })
  | inr e ↦ rw e v
]
