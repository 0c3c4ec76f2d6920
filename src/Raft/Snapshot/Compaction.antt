-- ===== src/Raft/Snapshot/Compaction.antt =====
-- raft/raft.cpp: Snapshot, which cuts the log.
use chon_kv.Base.{
  ℕ, suc, ◌+◌, ◌-◌, ◌≤◌, ◌<◌, ◌≡◌, refl, ap, ◌∙◌, subst, ◌⊎◌, inl, inr, true, Bool-cases, leb,
  leb→le, some, List, [], ◌∷◌, arith, length, length-drop, get_elem?,
}
use chon_kv.Store.{last_index}
use chon_kv.Raft.Types.{LogEntry, plain_entry}
use chon_kv.Raft.State.{RaftState, term_at, last_log_index, persist}
use chon_kv.Raft.Log.{IsLog, Contiguous, Contiguous-drop, last_index-IsLog, get_elem?-drop}
use chon_kv.Raft.Invariant.{IsValid}
use chon_kv.Raft.Snapshot.{log_behind, save_snapshot_blob, can_compact, compact, snapshot}

-- The log that begins with a sentinel at `index` in the place of what it covers.
pub record Cut (b index : ℕ) (logs cut : List LogEntry) : Type 0 where
  pub is_log : IsLog index cut
  pub last : last_index cut ≡ last_index logs
  pub behind : (j : ℕ) → get_elem? cut (suc j) ≡ get_elem? logs (suc (index - b) + j)

pub log_behind-Cut :
    (b index term : ℕ) (logs : List LogEntry)
    → IsLog b logs
    → b ≤ index
    → index - b < length logs
    → Cut b index logs (plain_entry term index [] ∷ log_behind b index logs)
log_behind-Cut b index term logs v le lt = record {
  is_log = is_log;
  last = omega (
    arith,
    last_index-IsLog b logs v,
    last_index-IsLog index cut is_log,
    length-drop (suc (index - b)) logs,
  );
  behind = λ j. get_elem?-drop (suc (index - b)) j logs;
}
  where
    cut : List LogEntry
    cut = plain_entry term index [] ∷ log_behind b index logs

    is_log : IsLog index cut
    is_log = record {
      contiguous = (
        refl,
        subst (λ k. Contiguous k (log_behind b index logs)) (omega arith)
            (Contiguous-drop b (suc (index - b)) logs v.contiguous),
      );
      sentinel = omega arith;
    }

-- What cutting the log of `s` at `index` makes of the state.
pub record Compacted (index term : ℕ) (blob : List ℕ) (s t : RaftState) : Type 0 where
  pub valid : IsValid t
  pub snapshot_index : t.snapshot_index ≡ index
  pub snapshot_term : t.snapshot_term ≡ term
  pub snapshot_data : t.snapshot_data ≡ blob
  pub boundary : term_at t.logs 0 ≡ term
  pub last : last_log_index t ≡ last_log_index s
  pub commit_index : t.commit_index ≡ s.commit_index
  pub behind :
      (j : ℕ) → get_elem? t.logs (suc j) ≡ get_elem? s.logs (suc (index - s.snapshot_index) + j)
  pub on_disk : t.disk.snapshot_index ≡ index

-- The second half of Snapshot may run in a later state than the first: it cuts the log of that one.
pub compact-Compacted :
    (index term : ℕ) (blob : List ℕ) (s : RaftState)
    → IsValid s
    → can_compact index s ≡ true
    → Compacted index term blob s (compact index term blob s)
unfolding compact persist
compact-Compacted index term blob s v ok =
    let c =
      log_behind-Cut s.snapshot_index index term s.logs v.is_log (ground arith) (ground arith) in
    rw ok (record {
      valid = record {
        is_log = c.is_log;
        covered = ground arith;
        committed = omega (arith, c.last, v.committed);
      };
      snapshot_index = refl;
      snapshot_term = refl;
      snapshot_data = refl;
      boundary = refl;
      last = c.last;
      commit_index = refl;
      behind = c.behind;
      on_disk = refl;
    })

-- The blob is on disk with its index and term, unless the one that was saved before is as new: then
-- that one stays.
abbrev pub BlobSaved : ℕ → ℕ → List ℕ → RaftState → RaftState → Type 0
BlobSaved index term blob s t =
    ((t.snapshot_disk ≡ some (index, term, blob)) × (t.saved_blob_index ≡ index))
    ⊎ ((index ≤ s.saved_blob_index)
        × (t.snapshot_disk ≡ s.snapshot_disk)
        × (t.saved_blob_index ≡ s.saved_blob_index))

-- The state `t` after Snapshot at `index`.
pub record Snapped (index : ℕ) (blob : List ℕ) (s t : RaftState) : Type 0 where
  pub compacted : Compacted index (term_at s.logs (index - s.snapshot_index)) blob s t
  pub blob_saved : BlobSaved index (term_at s.logs (index - s.snapshot_index)) blob s t

-- Saving a blob changes nothing that the log depends on.
pub record Saving (index term : ℕ) (blob : List ℕ) (s t : RaftState) : Type 0 where
  pub logs : t.logs ≡ s.logs
  pub snapshot_index : t.snapshot_index ≡ s.snapshot_index
  pub commit_index : t.commit_index ≡ s.commit_index
  pub last_applied : t.last_applied ≡ s.last_applied
  pub current_term : t.current_term ≡ s.current_term
  pub blob_saved : BlobSaved index term blob s t

pub save_snapshot_blob-Saving :
    (index term : ℕ) (blob : List ℕ) (s : RaftState)
    → Saving index term blob s (save_snapshot_blob index term blob s)
unfolding save_snapshot_blob
save_snapshot_blob-Saving index term blob s = record {
  logs = ground arith;
  snapshot_index = ground arith;
  commit_index = ground arith;
  last_applied = ground arith;
  current_term = ground arith;
  blob_saved = elim (Bool-cases (leb index s.saved_blob_index)) [
    | inl e ↦ rw (e, save_snapshot_blob) (inr (leb→le _ _ e, refl, refl))
    | inr e ↦ rw (e, save_snapshot_blob) (inl (refl, refl))
  ];
}

Saving-IsValid :
    (index term : ℕ) (blob : List ℕ) (s t : RaftState)
    → Saving index term blob s t
    → IsValid s
    → IsValid t
Saving-IsValid index term blob s t e v = record {
  is_log = rw (e.logs, e.snapshot_index) v.is_log;
  covered = rw (e.commit_index, e.snapshot_index) v.covered;
  committed = rw (e.commit_index, e.logs) v.committed;
}

Saving-behind :
    (index term : ℕ) (blob : List ℕ) (j : ℕ) (s t : RaftState)
    → Saving index term blob s t
    → get_elem? t.logs (suc (index - t.snapshot_index) + j)
      ≡ get_elem? s.logs (suc (index - s.snapshot_index) + j)
Saving-behind index term blob j s t e = rw (e.logs, e.snapshot_index) refl

-- What comes behind the write leaves the blob on disk.
pub BlobSaved-later :
    (index term : ℕ) (blob : List ℕ) (s t u : RaftState)
    → u.snapshot_disk ≡ t.snapshot_disk
    → u.saved_blob_index ≡ t.saved_blob_index
    → BlobSaved index term blob s t
    → BlobSaved index term blob s u
BlobSaved-later index term blob s t u d i (inl (p, q)) = inl (d ∙ p, i ∙ q)
BlobSaved-later index term blob s t u d i (inr (le, p, q)) = inr (le, d ∙ p, i ∙ q)

pub BlobSaved-from :
    (index term : ℕ) (blob : List ℕ) (s t u : RaftState)
    → t.snapshot_disk ≡ s.snapshot_disk
    → t.saved_blob_index ≡ s.saved_blob_index
    → BlobSaved index term blob t u
    → BlobSaved index term blob s u
BlobSaved-from index term blob s t u d i (inl p) = inl p
BlobSaved-from index term blob s t u d i (inr (le, p, q)) = inr (omega (arith, i, le), p ∙ d, q ∙ i)

compact_keeps_blob :
    (index term : ℕ) (blob : List ℕ) (s : RaftState)
    → ((compact index term blob s).snapshot_disk ≡ s.snapshot_disk)
      × ((compact index term blob s).saved_blob_index ≡ s.saved_blob_index)
unfolding compact persist
compact_keeps_blob index term blob s = (ground arith, ground arith)

snapshot-Snapped :
    (index : ℕ) (blob : List ℕ) (s : RaftState)
    → IsValid s
    → can_compact index s ≡ true
    → Snapped index blob s (snapshot index blob s)
unfolding snapshot
snapshot-Snapped index blob s v ok = rw ok (record {
  compacted = record {
    valid = c.valid;
    snapshot_index = c.snapshot_index;
    snapshot_term = c.snapshot_term;
    snapshot_data = c.snapshot_data;
    boundary = c.boundary;
    last = c.last ∙ ap last_index e.logs;
    commit_index = c.commit_index ∙ e.commit_index;
    behind = λ j. c.behind j ∙ Saving-behind index t blob j s u e;
    on_disk = c.on_disk;
  };
  blob_saved =
      BlobSaved-later index t blob s u (compact index t blob u)
        (compact_keeps_blob index t blob u).0 (compact_keeps_blob index t blob u).1 e.blob_saved;
})
  where
    t : ℕ
    t = term_at s.logs (index - s.snapshot_index)

    u : RaftState
    u = save_snapshot_blob index t blob s

    e : Saving index t blob s u
    e = save_snapshot_blob-Saving index t blob s

    c : Compacted index t blob u (compact index t blob u)
    c =
        compact-Compacted index t blob u (Saving-IsValid index t blob s u e v)
          (rw (e.logs, e.snapshot_index, e.commit_index) ok)

-- On a well-formed state, Snapshot at an index past the snapshot and up to the commit index writes the
-- blob to disk with that index and the entry's term, unless a blob that was saved before is as new and
-- stays there, keeps the blob in memory and cuts the log there: the sentinel has the term of the entry it replaces, the entries behind
-- it, the last index and the commit index are as before, and the disk has the new snapshot index.
-- At any other index it changes nothing.
pub snapshot_cases :
    (index : ℕ) (blob : List ℕ) (s : RaftState)
    → IsValid s
    → ((s.snapshot_index < index)
        × (index ≤ s.commit_index)
        × Snapped index blob s (snapshot index blob s))
      ⊎ (((index ≤ s.snapshot_index) ⊎ (s.commit_index < index)) × (snapshot index blob s ≡ s))
unfolding snapshot
snapshot_cases index blob s v = elim (Bool-cases (can_compact index s)) [
  | inl e ↦ inl (ground arith, ground arith, snapshot-Snapped index blob s v e)
  | inr e ↦
      inr (
        ground (arith, e, last_index-IsLog s.snapshot_index s.logs v.is_log, v.committed),
        rw e refl,
      )
]
