-- ===== src/Kv/Server.antt =====
-- kvraft/server.cpp: the applier of the server, which executes what the consensus core commits. Each
-- arm of ApplierLoop for an entry is a function on the state that mu_ guards.
pub mod Touch
pub mod Once
pub mod Ordered
pub mod Runs
use chon_kv.Base.{
  same_bytes, ℕ, zero, suc, ◌+◌, ◌-◌, Bool, true, false, not, ◌&&◌, if◌then◌else◌, ltb, leb, ◌==◌,
  ℤ, pos, eqz, Option, none, some, List, [], ◌∷◌, ◌++◌, length, max, map,
}
use chon_kv.Codec.{
  fields, put_bytes, put_int, put_index, put_varint, put_list, Decoder, ◌>>=◌, return, get_bytes,
  get_int, get_index, get_varint, get_list, decode_all,
}
use chon_kv.Raft.Types.{EntryType, normal, conf_change, no_op}
use chon_kv.Kv.Messages.{Op, get_op, put_name, append_name, Err}
use chon_kv.Kv.Sessions.{
  Session, Fence, find_session, get_seq, put_seq, load_session, find_fence, add_fence, reap_idle,
  reap_over, existing_seq,
}

pub record Pair : Type 0 where
  pub key : List ℕ
  pub value : List ℕ

pub record NotifyMsg : Type 0 where
  pub index : ℕ
  pub done : Bool
  pub ok : Bool
  pub client_id : ℤ
  pub seq_id : ℕ

pub record KvState : Type 0 where
  -- std::map keeps the pairs in the order of their keys.
  pub kv_store : List Pair
  pub sessions : List Session
  pub session_cap : ℕ
  pub max_idle_index : ℕ
  pub fenced : List Fence
  pub msg_replies : List NotifyMsg
  pub last_cmd_index : ℕ

-- kFenceCap
abbrev pub fence_cap : ℕ
fence_cap = 4194304

-- `a < b` of two strings
unfoldable pub less_bytes : List ℕ → List ℕ → Bool
less_bytes as' [] = false
less_bytes [] (b ∷ bs) = true
less_bytes (a ∷ as') (b ∷ bs) =
    let rest = less_bytes as' bs in if ltb a b then true else if a == b then rest else false

unfoldable pub find_key : List ℕ → List Pair → Option (List ℕ)
find_key k [] = none
find_key k (p ∷ ps) = let rest = find_key k ps in if same_bytes p.key k then some p.value else rest

-- `kv_store_[k] = v`
unfoldable pub set_key : List ℕ → List ℕ → List Pair → List Pair
set_key k v [] = record { key = k; value = v } ∷ []
set_key k v (p ∷ ps) =
    let rest = set_key k v ps in
    if same_bytes p.key k
    then record { key = k; value = v } ∷ ps
    else if less_bytes k p.key
    then record { key = k; value = v } ∷ p ∷ ps
    else p ∷ rest

-- `kv_store_[k]` makes an empty value for a key that is not there.
unfoldable pub value_of : List ℕ → List Pair → List ℕ
value_of k ps = elim (find_key k ps) [ none ↦ [] | some v ↦ v ]

-- What a command does to the store.
unfoldable pub execute : Op → List Pair → List Pair
execute o ps =
    if same_bytes o.method put_name
    then set_key o.key o.value ps
    else if same_bytes o.method append_name
    then set_key o.key (value_of o.key ps ++ o.value) ps
    else ps

-- The waiter of the index learns whether its own command was applied there.
unfoldable pub answer_waiter : ℕ → ℤ → ℕ → List NotifyMsg → List NotifyMsg
answer_waiter i c seq [] = []
answer_waiter i c seq (n ∷ ns) =
    let rest = answer_waiter i c seq ns in
    if n.index == i
    then (record n { done = true; ok = eqz n.client_id c && n.seq_id == seq }) ∷ ns
    else n ∷ rest

-- ClearWaiterLocked
unfoldable pub clear_waiter : ℕ → List NotifyMsg → List NotifyMsg
clear_waiter i [] = []
clear_waiter i (n ∷ ns) =
    let rest = clear_waiter i ns in
    if n.index == i
    then (if n.done then n else record n { done = true; ok = false }) ∷ ns
    else n ∷ rest

-- Both loops of SessionTable::Reap.
unfoldable pub reap : ℕ → KvState → KvState
reap now s =
    let idle = reap_idle fence_cap now s.max_idle_index s.sessions s.fenced in
    let over = reap_over fence_cap s.session_cap idle.0 idle.1 in
    record s { sessions = over.0; fenced = over.1 }

-- The command is executed if its sequence number is past the client's last one.
unfoldable pub run_op : ℕ → Op → KvState → KvState
run_op i o s =
    let g = get_seq o.client_id i s.sessions in
    if ltb (existing_seq o.client_id g.0 s.fenced) o.seq_id
    then record s { kv_store = execute o s.kv_store; sessions = put_seq o.client_id o.seq_id i g.1 }
    else record s { sessions = g.1 }

-- The arm of ApplierLoop for a command of a client.
unfoldable pub apply_op : ℕ → Op → KvState → KvState
apply_op i o s =
    let r = reap i (run_op i o s) in
    record r {
      msg_replies = answer_waiter i o.client_id o.seq_id r.msg_replies;
      last_cmd_index = max r.last_cmd_index i;
    }

-- The arms for an entry that carries no command.
unfoldable pub skip_entry : ℕ → KvState → KvState
skip_entry i s = record s {
  msg_replies = clear_waiter i s.msg_replies;
  last_cmd_index = max s.last_cmd_index i;
}

-- A committed entry.
unfoldable pub apply_command : EntryType → ℕ → List ℕ → KvState → KvState
apply_command no_op i c s = skip_entry i s
apply_command conf_change i c s = skip_entry i s
apply_command normal i c s = elim (decode_all get_op c) [
  | none ↦ skip_entry i s
  | some o ↦ apply_op i o s
]
apply_command (EntryType.unknown v) i c s = elim (decode_all get_op c) [
  | none ↦ skip_entry i s
  | some o ↦ apply_op i o s
]
