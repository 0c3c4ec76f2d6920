-- ===== src/Raft/Snapshot.antt =====
-- raft/raft.cpp: SaveSnapshotBlob, Snapshot and InstallSnapshot. Each critical section is a function;
-- the write of the blob between two of them is one step.
pub mod Compaction
pub mod Installed
pub mod Outcome
use chon_kv.Base.{
  ℕ, zero, suc, ◌+◌, ◌-◌, Bool, true, false, ◌&&◌, ◌||◌, not, if◌then◌else◌, ltb, leb, ◌==◌, ℤ, pos,
  negsuc, minus_one, eqz, ltz, is_nonneg, Option, none, some, List, [], ◌∷◌, ◌++◌, map, length,
  take, drop, replicate, max,
}
use chon_kv.Store.{drop_prefix, truncate_prefix}
use chon_kv.Raft.Types.{LogEntry, plain_entry, to_role, InstallSnapshotArgs, InstallSnapshotReply}
use chon_kv.Raft.State.{RaftState, is_leader, voter_me, term_at, persist, convert_to_follower}
use chon_kv.Raft.Crc.{crc32}

-- What is left of a log, whose sentinel has index `b`, behind the snapshot at `index`.
abbrev pub log_behind : ℕ → ℕ → List LogEntry → List LogEntry
log_behind b index logs = drop (suc (index - b)) logs

-- Raft::SaveSnapshotBlob: an older blob does not replace a newer one.
unfoldable pub save_snapshot_blob : ℕ → ℕ → List ℕ → RaftState → RaftState
save_snapshot_blob index term blob s =
    if leb index s.saved_blob_index
    then s
    else record s { snapshot_disk = some (index, term, blob); saved_blob_index = index }

-- The guards of both critical sections of Snapshot.
abbrev pub can_compact : ℕ → RaftState → Bool
can_compact index s =
    leb index s.commit_index
    && ltb s.snapshot_index index
    && ltb (index - s.snapshot_index) (length s.logs)

-- The second critical section of Snapshot.
unfoldable pub compact : ℕ → ℕ → List ℕ → RaftState → RaftState
compact index snap_term blob s =
    let s' = persist (record s {
      logs = plain_entry snap_term index [] ∷ log_behind s.snapshot_index index s.logs;
      snapshot_index = index;
      snapshot_term = snap_term;
      snapshot_data = blob;
      log_store = drop_prefix s.log_store index;
    }) in
    if can_compact index s then record s' { log_store = truncate_prefix s'.log_store index } else s

-- Raft::Snapshot
unfoldable pub snapshot : ℕ → List ℕ → RaftState → RaftState
snapshot index blob s =
    let snap_term = term_at s.logs (index - s.snapshot_index) in
    if can_compact index s
    then compact index snap_term blob (save_snapshot_blob index snap_term blob s)
    else s

-- The first critical section of InstallSnapshot either answers or has the whole snapshot.
pub data Received : Type 0 where
  answered : Bool → Received
  assembled : List ℕ → Received

-- A message of this term or a later one.
unfoldable pub hear : ℕ → InstallSnapshotArgs → RaftState → RaftState
hear now a s =
    let t = if ltb s.current_term a.term then convert_to_follower a.term s else s in
    record t { last_heartbeat = now; leader_id = a.leader_id }

abbrev pub forget_transfer : RaftState → RaftState
forget_transfer s = record s {
  recv_snap_buf = [];
  recv_snap_index = minus_one;
  recv_snap_last_term = minus_one;
  recv_snap_epoch = minus_one;
}

-- A chunk of another snapshot begins a transfer if that one is newer; a chunk of the same snapshot
-- begins anew at offset 0 or in a later epoch, and is refused in an older one.
unfoldable pub align : InstallSnapshotArgs → RaftState → Option RaftState
align a s =
    let index = pos a.last_included_index in
    let term = pos a.last_included_term in
    let newer =
      not (is_nonneg s.recv_snap_index)
      || ltz s.recv_snap_index index
      || (eqz index s.recv_snap_index && ltz s.recv_snap_last_term term) in
    if not (eqz s.recv_snap_index index) || not (eqz s.recv_snap_last_term term)
    then (if newer
        then some (record s {
          recv_snap_buf = [];
          recv_snap_index = index;
          recv_snap_last_term = term;
          recv_snap_epoch = a.epoch;
        })
        else none)
    else if eqz a.offset (pos 0) || ltz s.recv_snap_epoch a.epoch
    then some (record s { recv_snap_buf = []; recv_snap_epoch = a.epoch })
    else if eqz a.epoch s.recv_snap_epoch
    then some s
    else none

abbrev pub snapshot_chunk_size : ℕ
snapshot_chunk_size = 524288

abbrev pub max_recv_snap_buf : ℕ
max_recv_snap_buf = 2147483648

-- `resize` where the chunk reaches past the end, then `replace`.
unfoldable pub overwrite : ℕ → List ℕ → List ℕ → List ℕ
overwrite off chunk buf =
    let end = off + length chunk in
    let padded = buf ++ replicate (end - length buf) 0 in
    take off padded ++ chunk ++ drop end padded

unfoldable pub place : ℕ → InstallSnapshotArgs → RaftState → RaftState × Received
place off a s =
    let buf = overwrite off a.chunk s.recv_snap_buf in
    if ltb snapshot_chunk_size (length a.chunk) || ltb max_recv_snap_buf (off + length a.chunk)
    then (forget_transfer s, answered false)
    else if not a.done
    then (record s { recv_snap_buf = buf }, answered false)
    else if length buf == off + length a.chunk && eqz (crc32 buf) a.crc
    then (forget_transfer s, assembled buf)
    else (forget_transfer s, answered false)

unfoldable pub receive_chunk : ℕ → InstallSnapshotArgs → RaftState → RaftState × Received
receive_chunk now a s =
    let h = hear now a s in
    if ltb a.term s.current_term
    then (s, answered false)
    else if leb a.last_included_index s.last_applied
    then (h, answered true)
    else elim (align a h) [
      | none ↦ (h, answered false)
      | some g ↦ elim a.offset [
        | pos off ↦ place off a g
        | negsuc n ↦ (forget_transfer g, answered false)
      ]
    ]

-- The roles come with the snapshot, if there is one for each peer; a leader that is no voter any
-- more steps down.
unfoldable pub take_members : InstallSnapshotArgs → RaftState → RaftState
take_members a s =
    let t = record s { is_member = map to_role a.members } in
    if length a.members == s.peers
    then (if not (voter_me t) && is_leader t.state then convert_to_follower t.current_term t else t)
    else s

-- The log behind the snapshot is kept if the log holds the snapshot's last entry.
abbrev pub kept : ℕ → ℕ → List LogEntry → Bool
kept b index logs = leb b index && ltb (index - b) (length logs)

-- The second critical section of InstallSnapshot.
unfoldable pub install : InstallSnapshotArgs → List ℕ → RaftState → RaftState × Bool
install a blob s =
    let index = a.last_included_index in
    let keep = kept s.snapshot_index index s.logs in
    let cut = if keep then index - 1 else index in
    let m = take_members a (record s {
      snapshot_index = index;
      snapshot_term = a.last_included_term;
      snapshot_data = blob;
    }) in
    let p = persist (record m {
      logs =
          plain_entry a.last_included_term index []
          ∷ (if keep then log_behind s.snapshot_index index s.logs else []);
      commit_index = max m.commit_index index;
      last_applied = max m.last_applied index;
      log_store = drop_prefix m.log_store cut;
    }) in
    let waiting : Bool = elim p.pending_snapshot [ none ↦ true | some (i, _, _) ↦ ltb i index ] in
    if ltb a.term s.current_term || leb index s.last_applied then (s, false) else (
      record p {
        log_store = truncate_prefix p.log_store cut;
        pending_snapshot =
            if waiting then some (index, a.last_included_term, blob) else p.pending_snapshot;
      },
      true,
    )

-- Raft::InstallSnapshot
unfoldable pub install_snapshot :
    ℕ → InstallSnapshotArgs → RaftState → RaftState × InstallSnapshotReply
install_snapshot now a s =
    let r = receive_chunk now a s in
    elim r.1 [
      | answered ok ↦ (r.0, record { term = r.0.current_term; ok_install = ok })
      | assembled blob ↦
          let i =
            install a blob
              (save_snapshot_blob a.last_included_index a.last_included_term blob r.0) in
          (i.0, record { term = i.0.current_term; ok_install = i.1 })
    ]
