-- ===== src/Kv/Messages.antt =====
-- kvraft/common.h: the commands and messages between client and server. A string is the list of its
-- bytes; a sequence number is an int64_t that clients count up from 1, and a natural number here.
use chon_kv.Base.{ℕ, ◌≡◌, ◌<◌, ◌^◌, ℤ, pos, some, List, [], ◌∷◌, length, refl}
use chon_kv.Codec.{
  fields, put_bytes, put_int, put_index, Decoder, ◌>>=◌, return, get_bytes, get_int, get_index,
  decode_all,
}
use chon_kv.Codec.Reads.{Reads, Reads-bind, decode_all-Reads}
use chon_kv.Codec.RoundTrip.{
  IsU64, IsI32, get_bytes-put_bytes, get_int-put_int, get_index-put_index,
}

-- `unknown` is a value with no enumerator, which the cast from an int can give.
pub data Err : Type 0 where
  ok no_key wrong_leader timeout busy session_gone : Err
  unknown : ℤ → Err

unfoldable pub of_err : Err → ℤ
of_err ok = pos 0
of_err no_key = pos 1
of_err wrong_leader = pos 2
of_err timeout = pos 3
of_err busy = pos 4
of_err session_gone = pos 5
of_err (unknown v) = v

-- The strings "Put" and "Append".
abbrev pub put_name : List ℕ
put_name = 80 ∷ 117 ∷ 116 ∷ []

abbrev pub append_name : List ℕ
append_name = 65 ∷ 112 ∷ 112 ∷ 101 ∷ 110 ∷ 100 ∷ []

pub record Op : Type 0 where
  pub key : List ℕ
  pub value : List ℕ
  pub method : List ℕ
  pub client_id : ℤ
  pub seq_id : ℕ

-- Op::Serialize and Op::Deserialize; PutAppendArgs has the same fields in the same order.
unfoldable pub put_op : Op → List ℕ
put_op o = fields (
    put_bytes o.key
    ∷ put_bytes o.value
    ∷ put_bytes o.method
    ∷ put_int o.client_id
    ∷ put_index o.seq_id
    ∷ [])

unfoldable pub get_op : Decoder Op
get_op = do
  key ← get_bytes
  value ← get_bytes
  method ← get_bytes
  client ← get_int
  seq ← get_index
  return (record { key = key; value = value; method = method; client_id = client; seq_id = seq })

pub record OpFits (o : Op) : Type 0 where
  pub key : IsU64 (length o.key)
  pub value : IsU64 (length o.value)
  pub method : IsU64 (length o.method)
  pub client_id : IsI32 o.client_id
  pub seq_id : o.seq_id < 2 ^ 63

get_op-put_op : (o : Op) → OpFits o → Reads get_op (put_op o) o
unfolding get_op put_op
get_op-put_op o h = Reads-bind get_bytes _ _ _ _ _ (get_bytes-put_bytes _ h.key) (
    Reads-bind get_bytes _ _ _ _ _ (get_bytes-put_bytes _ h.value) (
      Reads-bind get_bytes _ _ _ _ _ (get_bytes-put_bytes _ h.method) (
        Reads-bind get_int _ _ _ _ _ (get_int-put_int _ h.client_id)
          (Reads-bind get_index _ _ _ _ _ (get_index-put_index _ h.seq_id) (λ r. refl)))))

-- The command that a server proposes is the one that every server applies.
pub decode_op : (o : Op) → OpFits o → decode_all get_op (put_op o) ≡ some o
decode_op o h = decode_all-Reads get_op _ o (get_op-put_op o h)
