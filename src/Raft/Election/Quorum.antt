-- ===== src/Raft/Election/Quorum.antt =====
-- raft/raft.cpp: CountGrantedVotes against QuorumSizeLocked.
use chon_kv.Base.{
  ℕ, suc, ◌+◌, ◌/◌, ◌≤◌, ◌≡◌, refl, ◌⊎◌, inl, inr, true, ◌==◌, ◌&&◌, Bool-cases, pos, some, List,
  [], ◌∷◌, arith, get_elem?,
}
use chon_kv.Raft.Types.{MemberRole, is_voter}
use chon_kv.Raft.State.{voter_at, count_voters}
use chon_kv.Raft.Election.{count_granted_votes}

-- A voter that gave its vote in both rounds.
pub record Common (ms : List MemberRole) (v w : List ℕ) : Type 0 where
  pub id : ℕ
  pub is_voter : voter_at ms (pos id) ≡ true
  pub first : get_elem? v id ≡ some 1
  pub second : get_elem? w id ≡ some 1

Common-cons :
    (m : MemberRole) (a b : ℕ) (ms : List MemberRole) (v w : List ℕ)
    → Common ms v w
    → Common (m ∷ ms) (a ∷ v) (b ∷ w)
Common-cons m a b ms v w c = record {
  id = suc c.id;
  is_voter = c.is_voter;
  first = c.first;
  second = c.second;
}

overlap_or_few :
    (ms : List MemberRole) (v w : List ℕ)
    → Common ms v w ⊎ (count_granted_votes ms v + count_granted_votes ms w ≤ count_voters ms)
unfolding count_granted_votes count_voters
overlap_or_few [] v w = inr (omega arith)
overlap_or_few (m ∷ ms) [] [] = inr (ground arith)
overlap_or_few (m ∷ ms) [] (b ∷ w) = elim (overlap_or_few ms [] w) [
  | inl c ↦ absurd (no_votes c)
  | inr h ↦ inr (ground (arith, no_count ms))
]
  where
    no_votes : Common ms [] w → ⊥
    no_votes c = cc c.first

    no_count : (ns : List MemberRole) → count_granted_votes ns [] ≡ 0
    no_count [] = refl
    no_count (n ∷ ns) = refl
overlap_or_few (m ∷ ms) (a ∷ v) [] = elim (overlap_or_few ms v []) [
  | inl c ↦ absurd (no_votes c)
  | inr h ↦ inr (ground (arith, no_count ms))
]
  where
    no_votes : Common ms v [] → ⊥
    no_votes c = cc c.second

    no_count : (ns : List MemberRole) → count_granted_votes ns [] ≡ 0
    no_count [] = refl
    no_count (n ∷ ns) = refl
overlap_or_few (m ∷ ms) (a ∷ v) (b ∷ w) = elim (overlap_or_few ms v w) [
  | inl c ↦ inl (Common-cons m a b ms v w c)
  | inr h ↦ elim (Bool-cases (is_voter m && a == 1 && b == 1)) [
    | inl both ↦
        inl
          (record { id = 0; is_voter = ground arith; first = ground arith; second = ground arith })
    | inr not_both ↦ inr (ground arith)
  ]
]

-- Any two sets of granted votes that each reach the quorum have a voter in common.
pub quorums_intersect :
    (ms : List MemberRole) (v w : List ℕ)
    → count_voters ms / 2 + 1 ≤ count_granted_votes ms v
    → count_voters ms / 2 + 1 ≤ count_granted_votes ms w
    → Common ms v w
quorums_intersect ms v w hv hw = elim (overlap_or_few ms v w) [
  | inl c ↦ c
  | inr few ↦ absurd (omega arith)
]
