-- ===== src/Raft/Recover.antt =====
-- raft/raft.cpp: ReadPersist, and what the constructor makes of a node that starts again.
pub mod RoundTrip
pub mod Restart
mod Tests
use chon_kv.Base.{
  ℕ, zero, suc, ◌+◌, ◌-◌, ◌==◌, Bool, true, false, if◌then◌else◌, ltb, leb, ℤ, pos, negsuc, Option,
  none, some, List, [], ◌∷◌, map, length, drop, replicate, max,
}
use chon_kv.Codec.{
  Decoder, ◌>>=◌, return, fail, get_index, get_int, get_items, get_list, decode_all, put_list,
  put_int, put_index,
}
use chon_kv.Store.{LogStore, replay, reset_from_logs}
use chon_kv.Raft.Types.{MemberRole, voter, to_role, of_role, LogEntry, plain_entry}
use chon_kv.Raft.Wire.{get_entry, put_entry}
use chon_kv.Raft.State.{ServerState, RaftState, Saved, saved, put_saved, init, last_log_index}
use chon_kv.Raft.Blob.{Blob, absent, corrupt, good, decode_blob, encode_blob}

-- The number of entries, which is refused below 0 and past 2^22; a store of its own keeps the entries
-- elsewhere, and none is read.
unfoldable pub get_logs : Bool → Decoder (List LogEntry)
get_logs external = do
  n ← get_int
  λ s. elim n [
    | negsuc k ↦ none
    | pos k ↦
        let entries = get_items k get_entry s in
        if ltb 4194304 k then none else if external then some ([], s) else entries
  ]

-- The roles, which are taken over if there is one for each peer; the loop reads none for a negative
-- number.
unfoldable pub get_members : ℕ → Decoder (List MemberRole)
get_members peers = do
  n ← get_int
  λ s. elim n [
    | negsuc k ↦ some (replicate peers voter, s)
    | pos k ↦ elim (get_items k get_int s) [
      | none ↦ none
      | some (roles, rest) ↦
          some ((if k == peers then map to_role roles else replicate peers voter), rest)
    ]
  ]

unfoldable pub get_saved : Bool → ℕ → Decoder Saved
get_saved external peers = do
  term ← get_index
  voted ← get_int
  snap_index ← get_index
  snap_term ← get_index
  logs ← get_logs external
  members ← get_members peers
  pending ← get_index
  return (record {
    term = term;
    voted_for = voted;
    snapshot_index = snap_index;
    snapshot_term = snap_term;
    logs = logs;
    is_member = members;
    pending_conf_index = pending;
  })

-- The log that belongs to a state on disk.
abbrev pub saved_logs : Saved → LogStore → List LogEntry
saved_logs d store =
    if store.keeps_log_externally then replay store d.snapshot_term d.snapshot_index else d.logs

abbrev pub restore : Saved → RaftState → RaftState
restore d s = record s {
  current_term = d.term;
  voted_for = d.voted_for;
  snapshot_index = d.snapshot_index;
  commit_index = d.snapshot_index;
  last_applied = d.snapshot_index;
  snapshot_term = d.snapshot_term;
  logs = saved_logs d s.log_store;
  is_member = d.is_member;
  pending_conf_index = d.pending_conf_index;
  disk = d;
}

-- A blob that is ahead of the state on disk moves the snapshot up to it.
unfoldable pub adopt : ℕ → ℕ → RaftState → RaftState
adopt index term s =
    let place = index - s.snapshot_index in
    let cut = if ltb place (length s.logs) then drop (suc place) s.logs else [] in
    if ltb s.snapshot_index index
    then record s {
      logs = plain_entry term index [] ∷ cut;
      snapshot_index = index;
      snapshot_term = term;
      commit_index = max s.commit_index index;
      last_applied = max s.last_applied index;
    }
    else s

-- A negative index or term, which no node writes, has no counterpart in the state.
abbrev pub to_index : ℤ → ℕ
to_index (pos n) = n
to_index (negsuc n) = 0

-- The snapshot on disk: `none` where the process aborts.
unfoldable pub read_blob : Blob → RaftState → Option RaftState
read_blob absent s = some (record s { saved_blob_index = s.snapshot_index })
read_blob corrupt s = none
read_blob (good i t raw) s =
    let r = adopt (to_index i) (to_index t) s in
    some (record r {
      snapshot_data = if to_index i == r.snapshot_index then raw else r.snapshot_data;
      saved_blob_index = r.snapshot_index;
      snapshot_disk = some (to_index i, to_index t, raw);
    })

-- What ReadPersist does last: the store follows the log, and the bytes are counted.
abbrev pub settle : RaftState → RaftState
settle s =
    let t = record s { log_store = reset_from_logs s.log_store s.logs } in
    record t { raft_state_bytes = length (put_saved (saved t)) }

-- ReadPersist of the bytes of the state and of the snapshot.
unfoldable pub read_persist : List ℕ → List ℕ → RaftState → Option RaftState
read_persist [] blob s = some s
read_persist (b ∷ bytes) blob s =
    elim (decode_all (get_saved s.log_store.keeps_log_externally s.peers) (b ∷ bytes)) [
      | none ↦ none
      | some d ↦ elim (read_blob (decode_blob blob) (restore d s)) [
        | none ↦ none
        | some r ↦ some (settle r)
      ]
    ]

-- The constructor behind ReadPersist.
unfoldable pub restart : ℕ → ℕ → LogStore → List ℕ → List ℕ → Option RaftState
restart me peers store bytes blob = elim (read_persist bytes blob (init me peers store)) [
  | none ↦ none
  | some s ↦ some (record s { next_index = replicate s.peers (last_log_index s + 1) })
]

-- The bytes of the snapshot that a node has on disk.
unfoldable pub blob_bytes : Option (ℕ × ℕ × List ℕ) → List ℕ
blob_bytes none = []
blob_bytes (some (i, t, raw)) = encode_blob i t raw
