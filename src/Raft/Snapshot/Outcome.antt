-- ===== src/Raft/Snapshot/Outcome.antt =====
-- raft/raft.cpp: InstallSnapshot as a whole: a chunk, or the end of a transfer.
use chon_kv.Base.{
  ℕ, ◌≤◌, ◌≡◌, ◌≢◌, leb→le, refl, ap, ◌∙◌, some, inl, inr, Bool, true, false, leb, ltb, ◌||◌,
  Bool-cases, Option-cases, ℤ, eqz, pos, negsuc, List, arith,
}
use chon_kv.Raft.Types.{InstallSnapshotArgs, InstallSnapshotReply}
use chon_kv.Raft.State.{RaftState, persist, convert_to_follower}
use chon_kv.Raft.Crc.{crc32}
use chon_kv.Raft.Invariant.{IsValid}
use chon_kv.Base.{◌&&◌, ◌==◌, not, length, [], ◌+◌, subst}
use chon_kv.Raft.Snapshot.{
  overwrite, snapshot_chunk_size, max_recv_snap_buf, save_snapshot_blob, Received, answered,
  assembled, hear, align, place, receive_chunk, take_members, install, install_snapshot,
  forget_transfer,
}
use chon_kv.Raft.Snapshot.Compaction.{Saving, BlobSaved, BlobSaved-from, save_snapshot_blob-Saving}
use chon_kv.Raft.Snapshot.Installed.{
  Held, Held-refl, Held-trans, hear-Held, place-Held, align-Held, Installed, install-Installed,
  Held-IsValid, Installed-Held,
}

-- What a chunk that does not complete a snapshot leaves, and what is said of it.
pub record Chunk (a : InstallSnapshotArgs) (s t : RaftState) (r : Received) : Type 0 where
  pub held : Held s t
  pub applied : r ≡ answered true → a.last_included_index ≤ s.last_applied
  pub disk : t.snapshot_disk ≡ s.snapshot_disk
  pub saved : t.saved_blob_index ≡ s.saved_blob_index
  pub checked : (blob : List ℕ) → r ≡ assembled blob → eqz (crc32 blob) a.crc ≡ true

place_not_true :
    (off : ℕ) (a : InstallSnapshotArgs) (s : RaftState) → (place off a s).1 ≢ answered true
unfolding place
place_not_true off a s h = ground arith

-- What is known before a chunk is placed.
record Before (s g : RaftState) : Type 0 where
  held : Held s g
  disk : g.snapshot_disk ≡ s.snapshot_disk
  saved : g.saved_blob_index ≡ s.saved_blob_index

hear-Before : (now : ℕ) (a : InstallSnapshotArgs) (s : RaftState) → Before s (hear now a s)
unfolding hear convert_to_follower persist
hear-Before now a s = record { held = hear-Held now a s; disk = ground arith; saved = ground arith }

align-Before :
    (a : InstallSnapshotArgs) (s h g : RaftState) → Before s h → align a h ≡ some g → Before s g
unfolding align
align-Before a s h g b e = record {
  held = Held-trans s h g b.held (align-Held a h g e);
  disk = ground (arith, b.disk);
  saved = ground (arith, b.saved);
}

place-disk :
    (off : ℕ) (a : InstallSnapshotArgs) (g : RaftState)
    → ((place off a g).0.snapshot_disk ≡ g.snapshot_disk)
      × ((place off a g).0.saved_blob_index ≡ g.saved_blob_index)
unfolding place
place-disk off a g = (ground arith, ground arith)

bytes_of : Received → List ℕ
bytes_of (answered ok) = []
bytes_of (assembled blob) = blob

place-checked :
    (off : ℕ) (a : InstallSnapshotArgs) (g : RaftState) (blob : List ℕ)
    → (place off a g).1 ≡ assembled blob
    → eqz (crc32 blob) a.crc ≡ true
unfolding place bytes_of
place-checked off a g blob e =
    let buf = overwrite off a.chunk g.recv_snap_buf in
    elim (Bool-cases
      (ltb snapshot_chunk_size (length a.chunk) || ltb max_recv_snap_buf (off + length a.chunk))) [
        | inl big ↦ cc (rw (big, place) at e)
        | inr big ↦ elim (Bool-cases (not a.done)) [
          | inl more ↦ cc (rw (big, more, place) at e)
          | inr more ↦
              elim (Bool-cases (length buf == off + length a.chunk && eqz (crc32 buf) a.crc)) [
                | inl ok ↦ of_buf buf (ground (arith, ok)) (rw (big, more, ok, place) at e)
                | inr bad ↦ cc (rw (big, more, bad, place) at e)
              ]
        ]
      ]
  where
    of_buf :
        (b : List ℕ)
        → eqz (crc32 b) a.crc ≡ true
        → assembled b ≡ assembled blob
        → eqz (crc32 blob) a.crc ≡ true
    of_buf b h p = subst (λ x. eqz (crc32 x) a.crc ≡ true) (ap bytes_of p) h

place-Chunk :
    (off : ℕ) (a : InstallSnapshotArgs) (s g : RaftState)
    → Before s g
    → Chunk a s (place off a g).0 (place off a g).1
place-Chunk off a s g h = record {
  held = Held-trans s g _ h.held (place-Held off a g);
  applied = λ p. absurd (place_not_true off a g p);
  disk = (place-disk off a g).0 ∙ h.disk;
  saved = (place-disk off a g).1 ∙ h.saved;
  checked = place-checked off a g;
}

aligned-Chunk :
    (a : InstallSnapshotArgs) (s g : RaftState) (o : ℤ)
    → Before s g
    → let r : RaftState × Received = elim o [
      | pos off ↦ place off a g
      | negsuc n ↦ (forget_transfer g, answered false)
    ] in
      Chunk a s r.0 r.1
aligned-Chunk a s g (pos off) h = place-Chunk off a s g h
aligned-Chunk a s g (negsuc n) h = record {
  held = record {
    logs = h.held.logs;
    snapshot_index = h.held.snapshot_index;
    commit_index = h.held.commit_index;
    last_applied = h.held.last_applied;
  };
  applied = λ p. cc p;
  disk = h.disk;
  saved = h.saved;
  checked = λ blob p. cc p;
}

answered-Chunk :
    (a : InstallSnapshotArgs) (s t : RaftState) (ok : Bool)
    → Before s t
    → (ok ≡ true → a.last_included_index ≤ s.last_applied)
    → Chunk a s t (answered ok)
answered-Chunk a s t ok b h = record {
  held = b.held;
  applied = λ p. h (same p);
  disk = b.disk;
  saved = b.saved;
  checked = λ blob p. cc p;
}
  where
    same : answered ok ≡ answered true → ok ≡ true
    same p = cc p

pub receive_chunk-Chunk :
    (now : ℕ) (a : InstallSnapshotArgs) (s : RaftState)
    → Chunk a s (receive_chunk now a s).0 (receive_chunk now a s).1
unfolding receive_chunk
receive_chunk-Chunk now a s = elim (Bool-cases (ltb a.term s.current_term)) [
  | inl e ↦ rw e (
      answered-Chunk a s s false (record { held = Held-refl s; disk = refl; saved = refl })
        (λ p. cc p))
  | inr e ↦ elim (Bool-cases (leb a.last_included_index s.last_applied)) [
    | inl f ↦ rw (e, f) (answered-Chunk a s _ true (hear-Before now a s) (λ _. leb→le _ _ f))
    | inr f ↦ elim (Option-cases (align a (hear now a s))) [
      | inl n ↦ rw (e, f, n) (answered-Chunk a s _ false (hear-Before now a s) (λ p. cc p))
      | inr (g, y) ↦
          rw (e, f, y)
            (aligned-Chunk a s g a.offset
              (align-Before a s (hear now a s) g (hear-Before now a s) y))
    ]
  ]
]

take_members_blob :
    (a : InstallSnapshotArgs) (s : RaftState)
    → ((take_members a s).saved_blob_index ≡ s.saved_blob_index)
      × ((take_members a s).snapshot_disk ≡ s.snapshot_disk)
      × ((take_members a s).snapshot_data ≡ s.snapshot_data)
      × ((take_members a s).snapshot_term ≡ s.snapshot_term)
unfolding take_members convert_to_follower persist
take_members_blob a s = (ground arith, ground arith, ground arith, ground arith)

-- The snapshot that is installed: what came with a checksum that fits, in memory and on disk.
pub record Stored (a : InstallSnapshotArgs) (blob : List ℕ) (s t : RaftState) : Type 0 where
  pub snapshot_term : t.snapshot_term ≡ a.last_included_term
  pub snapshot_data : t.snapshot_data ≡ blob
  pub on_disk : BlobSaved a.last_included_index a.last_included_term blob s t

install-Stored :
    (a : InstallSnapshotArgs) (blob : List ℕ) (s u : RaftState)
    → (ltb a.term u.current_term || leb a.last_included_index u.last_applied) ≡ false
    → BlobSaved a.last_included_index a.last_included_term blob s u
    → Stored a blob s (install a blob u).0
unfolding install persist
install-Stored a blob s u e b =
    let (saved, disk, kept_data, kept_term) = take_members_blob a (record u {
      snapshot_index = a.last_included_index;
      snapshot_term = a.last_included_term;
      snapshot_data = blob;
    }) in
    rw e (record {
      snapshot_term = kept_term;
      snapshot_data = kept_data;
      on_disk = elim b [
        | inl (p, q) ↦ inl (disk ∙ p, saved ∙ q)
        | inr (le, p, q) ↦ inr (le, disk ∙ p, saved ∙ q)
      ];
    })

-- How a call ends: with the snapshot installed and its blob on disk, or with the log held.
pub data Ends (a : InstallSnapshotArgs) (s t : RaftState) (ok : Bool) : Type 0 where
  installed :
      (blob : List ℕ)
      → Installed a s t
      → Stored a blob s t
      → eqz (crc32 blob) a.crc ≡ true
      → ok ≡ true
      → Ends a s t ok
  held : Held s t → (ok ≡ true → a.last_included_index ≤ s.last_applied) → Ends a s t ok

install_stale :
    (a : InstallSnapshotArgs) (blob : List ℕ) (s : RaftState)
    → (ltb a.term s.current_term || leb a.last_included_index s.last_applied) ≡ true
    → install a blob s ≡ (s, false)
unfolding install
install_stale a blob s e = rw e refl

install-Ends :
    (a : InstallSnapshotArgs) (blob : List ℕ) (s u : RaftState)
    → IsValid s
    → s.snapshot_index ≤ s.last_applied
    → Held s u
    → BlobSaved a.last_included_index a.last_included_term blob s u
    → eqz (crc32 blob) a.crc ≡ true
    → Ends a s (install a blob u).0 (install a blob u).1
install-Ends a blob s u v low h saved checked =
    elim (Bool-cases (ltb a.term u.current_term || leb a.last_included_index u.last_applied)) [
      | inl e ↦ rw (install_stale a blob u e) (held h (λ p. cc p))
      | inr e ↦
          let i =
            install-Installed a blob u (Held-IsValid s u h v)
              (omega (arith, h.snapshot_index, h.last_applied)) e in
          installed blob (Installed-Held a s u _ h i.0) (install-Stored a blob s u e saved) checked
            i.1
    ]

-- Saving the blob of a whole snapshot holds the log.
Saving-Held :
    (index term : ℕ) (blob : List ℕ) (s t : RaftState) → Saving index term blob s t → Held s t
Saving-Held index term blob s t e = record {
  logs = e.logs;
  snapshot_index = e.snapshot_index;
  commit_index = e.commit_index;
  last_applied = e.last_applied;
}

-- On a well-formed state that has applied its snapshot, InstallSnapshot either installs a snapshot that
-- is ahead of what is applied: the state keeps its shape, the snapshot's index is applied and
-- committed, commit index and log never end earlier, entries behind the snapshot stay, and a blob with
-- the checksum that was sent is in memory, and on disk with the snapshot's index and term unless a blob
-- that was saved before is as new and stays there; or log, commit and applied index are held, and success is reported only for a snapshot that
-- was applied before.
pub install_snapshot-Ends :
    (now : ℕ) (a : InstallSnapshotArgs) (s : RaftState)
    → IsValid s
    → s.snapshot_index ≤ s.last_applied
    → Ends a s (install_snapshot now a s).0 (install_snapshot now a s).1.ok_install
unfolding install_snapshot
install_snapshot-Ends now a s v low =
    by_reply (receive_chunk now a s).0 (receive_chunk now a s).1 (receive_chunk-Chunk now a s)
  where
    by_reply :
        (t : RaftState) (r : Received)
        → Chunk a s t r
        → let end : RaftState × InstallSnapshotReply = elim r [
          | answered ok ↦ (t, record { term = t.current_term; ok_install = ok })
          | assembled blob ↦
              let i =
                install a blob
                  (save_snapshot_blob a.last_included_index a.last_included_term blob t) in
              (i.0, record { term = i.0.current_term; ok_install = i.1 })
        ] in
          Ends a s end.0 end.1.ok_install
    by_reply t (answered ok) c = held c.held (λ p. c.applied (ap answered p))
    by_reply t (assembled blob) c =
        let e = save_snapshot_blob-Saving a.last_included_index a.last_included_term blob t in
        install-Ends a blob s _ v low (Held-trans s t _ c.held (Saving-Held _ _ _ t _ e))
          (BlobSaved-from a.last_included_index a.last_included_term blob s t
            (save_snapshot_blob a.last_included_index a.last_included_term blob t) c.disk c.saved
            e.blob_saved)
          (c.checked blob refl)
