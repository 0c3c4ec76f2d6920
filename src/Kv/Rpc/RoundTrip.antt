-- ===== src/Kv/Rpc/RoundTrip.antt =====
-- kvraft/common.h: the bytes of the client's messages read back.
use chon_kv.Base.{◌≡◌, ◌<◌, ◌^◌, refl, some, length}
use chon_kv.Codec.{decode_all, get_bytes, get_int, get_index}
use chon_kv.Codec.Reads.{Reads, Reads-bind, decode_all-Reads}
use chon_kv.Codec.RoundTrip.{
  IsU64, IsI32, get_bytes-put_bytes, get_int-put_int, get_index-put_index,
}
use chon_kv.Kv.Messages.{Err, of_err}
use chon_kv.Kv.Rpc.{
  to_err, GetArgs, GetReply, PutAppendArgs, PutAppendReply, put_get_args, get_get_args,
  put_get_reply, get_get_reply, put_write_args, get_write_args, put_write_reply, get_write_reply,
}

-- An error that has an enumerator, or one that no enumerator has, of an int.
abbrev pub ErrFits : Err → Type 0
ErrFits e = (to_err (of_err e) ≡ e) × IsI32 (of_err e)

pub record GetReplyFits (r : GetReply) : Type 0 where
  pub err : ErrFits r.err
  pub value : IsU64 (length r.value)
  pub leader_id : IsI32 r.leader_id

pub record WriteArgsFits (a : PutAppendArgs) : Type 0 where
  pub key : IsU64 (length a.key)
  pub value : IsU64 (length a.value)
  pub op : IsU64 (length a.op)
  pub client_id : IsI32 a.client_id
  pub seq_id : a.seq_id < 2 ^ 63

pub record GetArgsFits (a : GetArgs) : Type 0 where
  pub key : IsU64 (length a.key)
  pub client_id : IsI32 a.client_id
  pub seq_id : a.seq_id < 2 ^ 63

pub record WriteReplyFits (r : PutAppendReply) : Type 0 where
  pub err : ErrFits r.err
  pub leader_id : IsI32 r.leader_id

get_get_args-put_get_args : (a : GetArgs) → GetArgsFits a → Reads get_get_args (put_get_args a) a
unfolding get_get_args put_get_args
get_get_args-put_get_args a h = Reads-bind get_bytes _ _ _ _ _ (get_bytes-put_bytes _ h.key) (
    Reads-bind get_int _ _ _ _ _ (get_int-put_int _ h.client_id)
      (Reads-bind get_index _ _ _ _ _ (get_index-put_index _ h.seq_id) (λ r. refl)))

get_get_reply-put_get_reply :
    (a : GetReply) → GetReplyFits a → Reads get_get_reply (put_get_reply a) a
unfolding get_get_reply put_get_reply
get_get_reply-put_get_reply a h = Reads-bind get_int _ _ _ _ _ (get_int-put_int _ h.err.1) (
    Reads-bind get_int _ _ _ _ _ (get_int-put_int _ h.leader_id)
      (Reads-bind get_bytes _ _ _ _ _ (get_bytes-put_bytes _ h.value) (λ r. rw h.err.0 refl)))

get_write_args-put_write_args :
    (a : PutAppendArgs) → WriteArgsFits a → Reads get_write_args (put_write_args a) a
unfolding get_write_args put_write_args
get_write_args-put_write_args a h = Reads-bind get_bytes _ _ _ _ _ (get_bytes-put_bytes _ h.key) (
    Reads-bind get_bytes _ _ _ _ _ (get_bytes-put_bytes _ h.value) (
      Reads-bind get_bytes _ _ _ _ _ (get_bytes-put_bytes _ h.op) (
        Reads-bind get_int _ _ _ _ _ (get_int-put_int _ h.client_id)
          (Reads-bind get_index _ _ _ _ _ (get_index-put_index _ h.seq_id) (λ r. refl)))))

get_write_reply-put_write_reply :
    (a : PutAppendReply) → WriteReplyFits a → Reads get_write_reply (put_write_reply a) a
unfolding get_write_reply put_write_reply
get_write_reply-put_write_reply a h =
    Reads-bind get_int _ _ _ _ _ (get_int-put_int _ h.err.1)
      (Reads-bind get_int _ _ _ _ _ (get_int-put_int _ h.leader_id) (λ r. rw h.err.0 refl))

-- The arguments and the reply of a Get whose fields fit their machine types, decoded from the bytes
-- that were sent, are the ones sent.
pub decode_get :
    (a : GetArgs) (r : GetReply)
    → GetArgsFits a
    → GetReplyFits r
    → (decode_all get_get_args (put_get_args a) ≡ some a)
      × (decode_all get_get_reply (put_get_reply r) ≡ some r)
decode_get a r h k = (
  decode_all-Reads get_get_args _ a (get_get_args-put_get_args a h),
  decode_all-Reads get_get_reply _ r (get_get_reply-put_get_reply r k),
)

-- The arguments and the reply of a Put or Append whose fields fit their machine types, decoded from the
-- bytes that were sent, are the ones sent.
pub decode_put_append :
    (a : PutAppendArgs) (r : PutAppendReply)
    → WriteArgsFits a
    → WriteReplyFits r
    → (decode_all get_write_args (put_write_args a) ≡ some a)
      × (decode_all get_write_reply (put_write_reply r) ≡ some r)
decode_put_append a r h k = (
  decode_all-Reads get_write_args _ a (get_write_args-put_write_args a h),
  decode_all-Reads get_write_reply _ r (get_write_reply-put_write_reply r k),
)
