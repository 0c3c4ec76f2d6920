-- ===== src/Raft/Snapshot/Installed.antt =====
-- raft/raft.cpp: the second critical section of InstallSnapshot.
use chon_kv.Base.{
  ℕ, suc, ◌+◌, ◌-◌, ◌≤◌, ◌<◌, ◌≡◌, refl, ap, ◌∙◌, inl, inr, true, false, leb, ltb, ◌||◌,
  if◌then◌else◌, Bool-cases, some, List, [], ◌∷◌, arith, get_elem?, max,
}
use chon_kv.Store.{last_index}
use chon_kv.Raft.Types.{LogEntry, plain_entry, InstallSnapshotArgs}
use chon_kv.Raft.State.{RaftState, last_log_index, persist, convert_to_follower}
use chon_kv.Raft.Log.{IsLog, last_index-IsLog}
use chon_kv.Raft.Invariant.{IsValid}
use chon_kv.Raft.Snapshot.{log_behind, hear, align, place, take_members, kept, install}
use chon_kv.Raft.Snapshot.Compaction.{log_behind-Cut}

-- The log and how far it is committed and applied.
pub record Held (s t : RaftState) : Type 0 where
  pub logs : t.logs ≡ s.logs
  pub snapshot_index : t.snapshot_index ≡ s.snapshot_index
  pub commit_index : t.commit_index ≡ s.commit_index
  pub last_applied : t.last_applied ≡ s.last_applied

pub Held-refl : (s : RaftState) → Held s s
Held-refl s = record {
  logs = refl;
  snapshot_index = refl;
  commit_index = refl;
  last_applied = refl;
}

pub Held-trans : (s t u : RaftState) → Held s t → Held t u → Held s u
Held-trans s t u h k = record {
  logs = k.logs ∙ h.logs;
  snapshot_index = k.snapshot_index ∙ h.snapshot_index;
  commit_index = k.commit_index ∙ h.commit_index;
  last_applied = k.last_applied ∙ h.last_applied;
}

pub hear-Held : (now : ℕ) (a : InstallSnapshotArgs) (s : RaftState) → Held s (hear now a s)
unfolding hear convert_to_follower
hear-Held now a s = record {
  logs = ground arith;
  snapshot_index = ground arith;
  commit_index = ground arith;
  last_applied = ground arith;
}

pub place-Held : (off : ℕ) (a : InstallSnapshotArgs) (s : RaftState) → Held s (place off a s).0
unfolding place
place-Held off a s = record {
  logs = ground arith;
  snapshot_index = ground arith;
  commit_index = ground arith;
  last_applied = ground arith;
}

pub align-Held : (a : InstallSnapshotArgs) (s g : RaftState) → align a s ≡ some g → Held s g
unfolding align
align-Held a s g h = record {
  logs = ground arith;
  snapshot_index = ground arith;
  commit_index = ground arith;
  last_applied = ground arith;
}

-- The new snapshot, in the place of the log up to it.
pub record Installed (a : InstallSnapshotArgs) (s t : RaftState) : Type 0 where
  pub newer : s.last_applied < a.last_included_index
  pub valid : IsValid t
  pub snapshot_index : t.snapshot_index ≡ a.last_included_index
  pub last_applied : t.last_applied ≡ a.last_included_index
  pub committed : a.last_included_index ≤ t.commit_index
  pub commit_index : s.commit_index ≤ t.commit_index
  pub reach : last_log_index s ≤ last_log_index t
  pub behind :
      (j : ℕ)
      → a.last_included_index ≤ last_log_index s
      → get_elem? t.logs (suc j)
        ≡ get_elem? s.logs (suc (a.last_included_index - s.snapshot_index) + j)

pub take_members-Held : (a : InstallSnapshotArgs) (s : RaftState) → Held s (take_members a s)
unfolding take_members convert_to_follower
take_members-Held a s = record {
  logs = ground arith;
  snapshot_index = ground arith;
  commit_index = ground arith;
  last_applied = ground arith;
}

-- The log that an installed snapshot leaves.
record Renewed (b index : ℕ) (logs new : List LogEntry) : Type 0 where
  is_log : IsLog index new
  last : last_index new ≡ max (last_index logs) index
  behind :
      (j : ℕ)
      → index ≤ last_index logs
      → get_elem? new (suc j) ≡ get_elem? logs (suc (index - b) + j)

renewed :
    (b index term : ℕ) (logs : List LogEntry)
    → IsLog b logs
    → b ≤ index
    → Renewed b index logs
        (plain_entry term index [] ∷ (if kept b index logs then log_behind b index logs else []))
renewed b index term logs v le = elim (Bool-cases (kept b index logs)) [
  | inl e ↦ rw e (
      let c = log_behind-Cut b index term logs v le (ground (arith, e)) in
      record {
        is_log = c.is_log;
        last = omega (arith, c.last, last_index-IsLog index _ c.is_log, last_index-IsLog b logs v);
        behind = λ j _. c.behind j;
      })
  | inr e ↦ rw e (record {
    is_log = record { contiguous = (refl, tt); sentinel = omega arith };
    last = ground (arith, e, le, last_index-IsLog b logs v);
    behind = λ j lt. absurd (ground (arith, e, le, lt, last_index-IsLog b logs v));
  })
]

IsLog-at : {i j : ℕ} {logs : List LogEntry} → i ≡ j → IsLog j logs → IsLog i logs
IsLog-at e v = rw e v

pub install-Installed :
    (a : InstallSnapshotArgs) (blob : List ℕ) (s : RaftState)
    → IsValid s
    → s.snapshot_index ≤ s.last_applied
    → (ltb a.term s.current_term || leb a.last_included_index s.last_applied) ≡ false
    → Installed a s (install a blob s).0 × ((install a blob s).1 ≡ true)
unfolding install persist
install-Installed a blob s v low e =
    let index = a.last_included_index in
    let n =
      renewed s.snapshot_index index a.last_included_term s.logs v.is_log
        (ground (arith, e, low)) in
    let m = take_members-Held a (record s {
      snapshot_index = index;
      snapshot_term = a.last_included_term;
      snapshot_data = blob;
    }) in
    let past : s.last_applied < index = ground (arith, e) in
    rw e (
      record {
        newer = past;
        valid = record {
          is_log = IsLog-at m.snapshot_index n.is_log;
          covered = omega (arith, m.snapshot_index);
          committed = omega (arith, n.last, m.commit_index, v.committed);
        };
        snapshot_index = m.snapshot_index;
        last_applied = omega (arith, m.last_applied, past);
        committed = omega arith;
        commit_index = omega (arith, m.commit_index);
        reach = omega (arith, n.last);
        behind = n.behind;
      },
      refl,
    )

pub Held-IsValid : (s t : RaftState) → Held s t → IsValid s → IsValid t
Held-IsValid s t e v = record {
  is_log = rw (e.logs, e.snapshot_index) v.is_log;
  covered = rw (e.commit_index, e.snapshot_index) v.covered;
  committed = rw (e.commit_index, e.logs) v.committed;
}

-- What a node knew when the snapshot was whole is what it knew when the first chunk came.
pub Installed-Held :
    (a : InstallSnapshotArgs) (s u t : RaftState) → Held s u → Installed a u t → Installed a s t
Installed-Held a s u t h i = record {
  newer = rw (← h.last_applied) i.newer;
  valid = i.valid;
  snapshot_index = i.snapshot_index;
  last_applied = i.last_applied;
  committed = i.committed;
  commit_index = omega (arith, i.commit_index, h.commit_index);
  reach = omega (arith, i.reach, ap last_index h.logs);
  behind =
      λ j le. i.behind j (omega (arith, ap last_index h.logs)) ∙ rw (h.logs, h.snapshot_index) refl;
}
