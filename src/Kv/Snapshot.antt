-- ===== src/Kv/Snapshot.antt =====
-- kvraft/server.cpp: the server's snapshots. EncodeSnapshotLocked and ApplySnapshotLocked turn the store,
-- the sessions and the tombstones into bytes and back; ApplierLoop installs what another server sent.
pub mod RoundTrip
pub mod Sound
pub mod Resumes
mod Tests
use chon_kv.Base.{
  ℕ, Bool, true, false, not, ◌||◌, if◌then◌else◌, ltb, leb, ℤ, eqz, minus_one, Option, none, some,
  List, [], ◌∷◌, ◌++◌,
}
use chon_kv.Codec.{
  fields, put_bytes, put_int, put_index, put_varint, put_list, Decoder, ◌>>=◌, return, get_bytes,
  get_int, get_index, get_varint, get_list, decode_all, to_u64,
}
use chon_kv.Raft.Types.{ApplyMsg}
use chon_kv.Kv.Sessions.{Session, Fence, load_session, find_fence}
use chon_kv.Kv.Server.{Pair, KvState, NotifyMsg, set_key, apply_command}

unfoldable pub put_pair : Pair → List ℕ
put_pair p = fields (put_bytes p.key ∷ put_bytes p.value ∷ [])

unfoldable pub get_pair : Decoder Pair
get_pair = do k ← get_bytes; v ← get_bytes; return (record { key = k; value = v })

unfoldable pub put_session : Session → List ℕ
put_session e = fields (put_int e.client_id ∷ put_index e.last_seq ∷ put_varint e.last_index ∷ [])

unfoldable pub get_session : Decoder Session
get_session = do
  c ← get_int
  seq ← get_index
  i ← get_varint
  return (record { client_id = c; last_seq = seq; last_index = i })

unfoldable pub put_fence : Fence → List ℕ
put_fence f = fields (put_int f.client_id ∷ put_index f.last_seq ∷ [])

unfoldable pub get_fence : Decoder Fence
get_fence = do c ← get_int; seq ← get_index; return (record { client_id = c; last_seq = seq })

-- What a snapshot holds, in the order of its bytes.
pub record Contents : Type 0 where
  pub pairs : List Pair
  pub sessions : List Session
  pub fences : List Fence

unfoldable pub put_contents : Contents → List ℕ
put_contents p =
    fields (
      put_list put_pair p.pairs
      ∷ put_list put_session p.sessions
      ∷ put_list put_fence p.fences
      ∷ [])

unfoldable pub get_contents : Decoder Contents
get_contents = do
  ps ← get_list get_pair
  es ← get_list get_session
  fs ← get_list get_fence
  return (record { pairs = ps; sessions = es; fences = fs })

abbrev pub contents_of : KvState → Contents
contents_of s = record { pairs = s.kv_store; sessions = s.sessions; fences = s.fenced }

-- EncodeSnapshotLocked
unfoldable pub encode_snapshot : KvState → List ℕ
encode_snapshot s = put_contents (contents_of s)

-- `store[k] = v` for each pair, `Load` for each session, `insert` for each tombstone.
unfoldable pub store_all : List Pair → List Pair → List Pair
store_all [] ps = ps
store_all (p ∷ more) ps = store_all more (set_key p.key p.value ps)

unfoldable pub load_all : List Session → List Session → List Session
load_all [] es = es
load_all (n ∷ more) es = load_all more (load_session n es)

-- A tombstone whose client is there already is passed over.
unfoldable pub insert_fence : Fence → List Fence → List Fence
insert_fence n fs = elim (find_fence n.client_id fs) [ none ↦ fs ++ n ∷ [] | some f ↦ fs ]

unfoldable pub insert_all : List Fence → List Fence → List Fence
insert_all [] fs = fs
insert_all (n ∷ more) fs = insert_all more (insert_fence n fs)

-- ApplySnapshotLocked: `none` stands for `false`, where the state is kept.
unfoldable pub apply_snapshot : List ℕ → KvState → Option KvState
apply_snapshot blob s = elim (decode_all get_contents blob) [
  | none ↦ none
  | some p ↦ some (record s {
    kv_store = store_all p.pairs [];
    sessions = load_all p.sessions [];
    fenced = insert_all p.fences [];
  })
]

-- PrepareSnapshotLocked, with the server's `maxraftstate_`, whether it has a persister and a node, and
-- the size that the node reports: the snapshot to take, if one is due.
unfoldable pub prepare_snapshot : ℤ → Bool → Bool → ℕ → ℕ → KvState → Option (ℕ × List ℕ)
prepare_snapshot limit has_persister has_node size index s =
    if eqz limit minus_one || not has_persister || not has_node
    then none
    else if ltb size (to_u64 limit)
    then none
    else some (index, encode_snapshot s)

-- The waiters up to an index that a snapshot covers are told that their command failed.
unfoldable pub clear_waiters : ℕ → List NotifyMsg → List NotifyMsg
clear_waiters i [] = []
clear_waiters i (n ∷ ns) =
    let rest = clear_waiters i ns in
    if leb n.index i
    then (if n.done then n else record n { done = true; ok = false }) ∷ rest
    else n ∷ rest

-- The arm of ApplierLoop for a snapshot: `none` where the process aborts.
unfoldable pub apply_installed : ℕ → List ℕ → KvState → Option KvState
apply_installed index blob s = elim (apply_snapshot blob s) [
  | none ↦ none
  | some r ↦
      if leb s.last_cmd_index index
      then some
          (record r { last_cmd_index = index; msg_replies = clear_waiters index r.msg_replies })
      else none
]

-- One round of ApplierLoop.
unfoldable pub apply_msg : ApplyMsg → KvState → Option KvState
apply_msg m s =
    if m.command_valid
    then some (apply_command m.entry_type m.command_index m.command s)
    else if m.snapshot_valid
    then apply_installed m.snapshot_index m.snapshot s
    else some s

-- The messages of a channel, in its order.
unfoldable pub apply_msgs : List ApplyMsg → KvState → Option KvState
apply_msgs [] s = some s
apply_msgs (m ∷ ms) s = elim (apply_msg m s) [ none ↦ none | some r ↦ apply_msgs ms r ]
