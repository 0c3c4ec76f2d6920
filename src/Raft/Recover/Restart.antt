-- ===== src/Raft/Recover/Restart.antt =====
-- raft/raft.cpp: what a node that starts again has of its former state.
use chon_kv.Base.{
  ℕ, zero, suc, ◌-◌, ◌≤◌, ◌<◌, ◌^◌, ◌≡◌, refl, sym, ap, subst, ◌∙◌, inl, inr, Bool, true, false,
  if◌then◌else◌, ltb, Bool-cases, Option, none, some, List, [], ◌∷◌, length, drop, max, arith,
}
use chon_kv.Codec.{decode_all, get_index, get_zigzag, get_varint}
use chon_kv.Store.{LogStore}
use chon_kv.Raft.State.{RaftState, Saved, put_saved, init}
use chon_kv.Raft.Log.{IsLog, Contiguous, Contiguous-drop}
use chon_kv.Raft.Blob.{absent, decode_blob}
use chon_kv.Raft.Blob.RoundTrip.{decode_blob-encode_blob}
use chon_kv.Raft.Recover.{
  get_saved, saved_logs, restore, adopt, read_blob, settle, read_persist, restart, blob_bytes,
}
use chon_kv.Raft.Recover.RoundTrip.{SavedFits, decode_saved}

-- The index of the snapshot on disk, 0 without one.
abbrev pub blob_at : Option (ℕ × ℕ × List ℕ) → ℕ
blob_at none = 0
blob_at (some (i, t, raw)) = i

abbrev pub BlobFits : Option (ℕ × ℕ × List ℕ) → Type 0
BlobFits none = Unit {0}
BlobFits (some (i, t, raw)) = (i < 2 ^ 63) × ((t < 2 ^ 63) × (length raw < 2 ^ 31))

-- What a node has after a restart: the term, the vote and the configuration of the state on disk, the
-- later of the two snapshots, which counts as committed and applied, and the entries behind it.
pub record Resumed (d : Saved) (i : ℕ) (t : RaftState) : Type 0 where
  pub term : t.current_term ≡ d.term
  pub voted_for : t.voted_for ≡ d.voted_for
  pub members : t.is_member ≡ d.is_member
  pub pending : t.pending_conf_index ≡ d.pending_conf_index
  pub snapshot : t.snapshot_index ≡ max d.snapshot_index i
  pub commit : t.commit_index ≡ t.snapshot_index
  pub applied : t.last_applied ≡ t.snapshot_index
  pub is_log : IsLog t.snapshot_index t.logs
  pub entries : drop 1 t.logs ≡ drop (suc (t.snapshot_index - d.snapshot_index)) d.logs

drop_all : {A : Type 0} (n : ℕ) (xs : List A) → length xs ≤ n → drop n xs ≡ []
drop_all zero [] h = refl
drop_all (suc n) [] h = refl
drop_all zero (x ∷ xs) h = absurd (omega arith)
drop_all (suc n) (x ∷ xs) h = drop_all n xs (omega arith)

-- A state that was restored from disk, before and after the snapshot was adopted.
adopt-Resumed :
    (d : Saved) (i u : ℕ) (s : RaftState)
    → Resumed d 0 s
    → s.snapshot_index ≡ d.snapshot_index
    → s.logs ≡ d.logs
    → Resumed d i (adopt i u s)
unfolding adopt
adopt-Resumed d i u s h same logs = elim (Bool-cases (ltb s.snapshot_index i)) [
  | inr e ↦
      rw (e, adopt)
        (record {
          term = h.term;
          voted_for = h.voted_for;
          members = h.members;
          pending = h.pending;
          snapshot = ground (arith, same, e);
          commit = h.commit;
          applied = h.applied;
          is_log = h.is_log;
          entries = h.entries;
        })
  | inl e ↦ elim (Bool-cases (ltb (i - s.snapshot_index) (length s.logs))) [
    | inl f ↦
        rw (e, f, adopt)
          (record {
            term = h.term;
            voted_for = h.voted_for;
            members = h.members;
            pending = h.pending;
            snapshot = ground (arith, same, e);
            commit = ground (arith, h.commit, e);
            applied = ground (arith, h.applied, e);
            is_log = record {
              contiguous = (
                refl,
                subst (λ k. Contiguous k (drop (suc (i - s.snapshot_index)) s.logs))
                    (ground (arith, e))
                    (Contiguous-drop s.snapshot_index (suc (i - s.snapshot_index)) s.logs
                      h.is_log.contiguous),
              );
              sentinel = omega arith;
            };
            entries = tail_on_disk;
          })
    | inr f ↦
        rw (e, f, adopt)
          (record {
            term = h.term;
            voted_for = h.voted_for;
            members = h.members;
            pending = h.pending;
            snapshot = ground (arith, same, e);
            commit = ground (arith, h.commit, e);
            applied = ground (arith, h.applied, e);
            is_log = record { contiguous = (refl, tt); sentinel = omega arith };
            entries =
                sym (drop_all (suc (i - s.snapshot_index)) s.logs (ground (arith, f)))
                ∙ tail_on_disk;
          })
  ]
]
  where
    tail_on_disk :
        drop (suc (i - s.snapshot_index)) s.logs ≡ drop (suc (i - d.snapshot_index)) d.logs
    tail_on_disk =
        ap (λ b. drop (suc (i - b)) s.logs) same ∙ ap (drop (suc (i - d.snapshot_index))) logs

by_test : {A : Type 0} (b : Bool) (x y : A) → b ≡ false → (if b then x else y) ≡ y
by_test true x y h = cc h
by_test false x y h = refl

saved_logs_inside :
    (d : Saved) (store : LogStore)
    → store.keeps_log_externally ≡ false
    → saved_logs d store ≡ d.logs
saved_logs_inside d store h = by_test store.keeps_log_externally _ _ h

restore-Resumed :
    (d : Saved) (s : RaftState)
    → s.log_store.keeps_log_externally ≡ false
    → IsLog d.snapshot_index d.logs
    → Resumed d 0 (restore d s)
restore-Resumed d s memory v =
    let logs = saved_logs_inside d s.log_store memory in
    record {
      term = refl;
      voted_for = refl;
      members = refl;
      pending = refl;
      snapshot = omega arith;
      commit = refl;
      applied = refl;
      is_log = subst (IsLog d.snapshot_index) (sym logs) v;
      entries =
          ap (drop 1) logs
          ∙ ap (λ n. drop n d.logs) {x = 1} {y = suc (d.snapshot_index - d.snapshot_index)}
              (omega arith);
    }

-- The state that the last steps leave.
pub record Back (d : Saved) (i : ℕ) (o : Option RaftState) : Type 0 where
  pub state : RaftState
  pub started : o ≡ some state
  pub resumed : Resumed d i state

absent_blob : decode_blob [] ≡ absent
unfolding decode_blob
absent_blob = refl

read_blob-Back :
    (d : Saved) (k : Option (ℕ × ℕ × List ℕ)) (s : RaftState)
    → BlobFits k
    → Resumed d 0 s
    → s.snapshot_index ≡ d.snapshot_index
    → s.logs ≡ d.logs
    → Back d (blob_at k) (read_blob (decode_blob (blob_bytes k)) s)
unfolding read_blob blob_bytes
read_blob-Back d none s fits h same logs = rw absent_blob (record {
  state = record s { saved_blob_index = s.snapshot_index };
  started = refl;
  resumed = record {
    term = h.term;
    voted_for = h.voted_for;
    members = h.members;
    pending = h.pending;
    snapshot = h.snapshot;
    commit = h.commit;
    applied = h.applied;
    is_log = h.is_log;
    entries = h.entries;
  };
})
read_blob-Back d (some (i, t, raw)) s fits h same logs =
    let a = adopt-Resumed d i t s h same logs in
    rw (decode_blob-encode_blob i t raw fits.0 fits.1.0 fits.1.1) (record {
      state = _;
      started = refl;
      resumed = record {
        term = a.term;
        voted_for = a.voted_for;
        members = a.members;
        pending = a.pending;
        snapshot = a.snapshot;
        commit = a.commit;
        applied = a.applied;
        is_log = a.is_log;
        entries = a.entries;
      };
    })

nothing :
    (external : Bool) (peers : ℕ) (d : Saved)
    → ¬ (decode_all (get_saved external peers) [] ≡ some d)
unfolding decode_all get_saved get_index get_zigzag get_varint
nothing external peers d h = cc h

-- Where the bytes on disk are those of a state, that state and the snapshot are read.
read_persist_found :
    (bytes blob : List ℕ) (d : Saved) (s : RaftState)
    → decode_all (get_saved s.log_store.keeps_log_externally s.peers) bytes ≡ some d
    → (i : ℕ) → Back d i (read_blob (decode_blob blob) (restore d s))
    → Back d i (read_persist bytes blob s)
unfolding read_persist
read_persist_found [] blob d s h i b = absurd (nothing s.log_store.keeps_log_externally s.peers d h)
read_persist_found (x ∷ bytes) blob d s h i b =
    rw (h, b.started, read_persist)
      (record {
        state = settle b.state;
        started = refl;
        resumed = record {
          term = b.resumed.term;
          voted_for = b.resumed.voted_for;
          members = b.resumed.members;
          pending = b.resumed.pending;
          snapshot = b.resumed.snapshot;
          commit = b.resumed.commit;
          applied = b.resumed.applied;
          is_log = b.resumed.is_log;
          entries = b.resumed.entries;
        };
      })

-- A node in memory mode whose state and snapshot are on disk, the state with a well-formed log of at most
-- 4194304 entries (of more, ReadPersist aborts), and whose numbers and sizes fit their machine integers,
-- starts again with its term, its vote and its
-- configuration. The later of the two snapshots counts as committed and applied, also where it was
-- written before the state that tells of it, and the entries behind it are those of the state.
pub restart-Resumed :
    (me : ℕ) (store : LogStore) (d : Saved) (k : Option (ℕ × ℕ × List ℕ))
    → store.keeps_log_externally ≡ false
    → IsLog d.snapshot_index d.logs
    → SavedFits d
    → BlobFits k
    → Back d (blob_at k) (restart me (length d.is_member) store (put_saved d) (blob_bytes k))
unfolding restart init
restart-Resumed me store d k memory v fits small =
    let s = init me (length d.is_member) store in
    let read : decode_all (get_saved store.keeps_log_externally (length d.is_member)) (put_saved d)
        ≡ some d =
      subst (λ b. decode_all (get_saved b (length d.is_member)) (put_saved d) ≡ some d) (sym memory)
        (decode_saved d fits) in
    let restored = restore-Resumed d s memory v in
    let b =
      read_persist_found (put_saved d) (blob_bytes k) d s read (blob_at k)
        (read_blob-Back d k (restore d s) small restored refl (saved_logs_inside d store memory)) in
    rw (b.started, restart)
      (record {
        state = _;
        started = refl;
        resumed = record {
          term = b.resumed.term;
          voted_for = b.resumed.voted_for;
          members = b.resumed.members;
          pending = b.resumed.pending;
          snapshot = b.resumed.snapshot;
          commit = b.resumed.commit;
          applied = b.resumed.applied;
          is_log = b.resumed.is_log;
          entries = b.resumed.entries;
        };
      })
