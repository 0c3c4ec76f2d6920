-- ===== src/Kv/Rpc.antt =====
-- kvraft/common.h: the messages of the client's two calls, and their bytes.
pub mod RoundTrip
use chon_kv.Base.{ℕ, ℤ, pos, negsuc, List, [], ◌∷◌, if◌then◌else◌, ◌==◌}
use chon_kv.Codec.{
  fields, put_bytes, put_int, put_index, Decoder, ◌>>=◌, return, get_bytes, get_int, get_index,
}
use chon_kv.Kv.Messages.{
  Op, Err, of_err, ok, no_key, wrong_leader, timeout, busy, session_gone, unknown,
}

-- `static_cast<Err>(e)`
unfoldable pub to_err : ℤ → Err
to_err (pos n) =
    if n == 0
    then ok
    else if n == 1
    then no_key
    else if n == 2
    then wrong_leader
    else if n == 3
    then timeout
    else if n == 4
    then busy
    else if n == 5
    then session_gone
    else unknown (pos n)
to_err (negsuc n) = unknown (negsuc n)

pub record GetArgs : Type 0 where
  pub key : List ℕ
  pub client_id : ℤ
  pub seq_id : ℕ

pub record GetReply : Type 0 where
  pub err : Err
  pub value : List ℕ
  pub leader_id : ℤ

pub record PutAppendArgs : Type 0 where
  pub key : List ℕ
  pub value : List ℕ
  pub op : List ℕ
  pub client_id : ℤ
  pub seq_id : ℕ

pub record PutAppendReply : Type 0 where
  pub err : Err
  pub leader_id : ℤ

unfoldable pub put_get_args : GetArgs → List ℕ
put_get_args a = fields (put_bytes a.key ∷ put_int a.client_id ∷ put_index a.seq_id ∷ [])

unfoldable pub get_get_args : Decoder GetArgs
get_get_args = do
  key ← get_bytes
  client ← get_int
  seq ← get_index
  return (record { key = key; client_id = client; seq_id = seq })

unfoldable pub put_get_reply : GetReply → List ℕ
put_get_reply r = fields (put_int (of_err r.err) ∷ put_int r.leader_id ∷ put_bytes r.value ∷ [])

unfoldable pub get_get_reply : Decoder GetReply
get_get_reply = do
  e ← get_int
  leader ← get_int
  value ← get_bytes
  return (record { err = to_err e; value = value; leader_id = leader })

unfoldable pub put_write_args : PutAppendArgs → List ℕ
put_write_args a = fields (
    put_bytes a.key
    ∷ put_bytes a.value
    ∷ put_bytes a.op
    ∷ put_int a.client_id
    ∷ put_index a.seq_id
    ∷ [])

unfoldable pub get_write_args : Decoder PutAppendArgs
get_write_args = do
  key ← get_bytes
  value ← get_bytes
  op ← get_bytes
  client ← get_int
  seq ← get_index
  return (record { key = key; value = value; op = op; client_id = client; seq_id = seq })

unfoldable pub put_write_reply : PutAppendReply → List ℕ
put_write_reply r = fields (put_int (of_err r.err) ∷ put_int r.leader_id ∷ [])

unfoldable pub get_write_reply : Decoder PutAppendReply
get_write_reply = do
  e ← get_int
  leader ← get_int
  return (record { err = to_err e; leader_id = leader })

-- The command that PutAppend makes of its arguments.
unfoldable pub op_of : PutAppendArgs → Op
op_of a = record {
  key = a.key;
  value = a.value;
  method = a.op;
  client_id = a.client_id;
  seq_id = a.seq_id;
}
