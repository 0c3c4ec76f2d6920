-- ===== src/Frames.antt =====
-- labrpc/epoll/wire.h: the frames in which requests and replies travel, and FrameReader, which cuts a
-- stream of bytes into frames.
pub mod Cut
mod Tests
use chon_kv.Base.{
  ℕ, zero, suc, ◌+◌, ◌*◌, ◌/◌, ◌%◌, ◌-◌, ◌^◌, Bool, true, false, ◌&&◌, not, if◌then◌else◌, ltb, leb,
  ◌==◌, Option, none, some, List, [], ◌∷◌, ◌++◌, length, take, drop,
}
use chon_kv.Codec.{Decoder, ◌>>=◌, return}

-- PutU8, PutU32 and PutU64: `n` bytes, the most significant one first.
unfoldable pub put_be : ℕ → ℕ → List ℕ
put_be zero v = []
put_be (suc n) v = (v / 256 ^ n % 256) ∷ put_be n v

-- GetU8, GetU32 and GetU64, behind a value read so far.
unfoldable pub get_be : ℕ → ℕ → Decoder ℕ
get_be zero v s = some (v, s)
get_be (suc n) v [] = none
get_be (suc n) v (b ∷ s) = get_be n (v * 256 + b % 256) s

-- `assign(p, n)`, if so many bytes are left
unfoldable pub get_exactly : ℕ → Decoder (List ℕ)
get_exactly n s = if ltb (length s) n then none else some (take n s, drop n s)

unfoldable pub framed : List ℕ → List ℕ
framed payload = put_be 4 (length payload % 2 ^ 32) ++ payload

unfoldable pub request_body : ℕ → List ℕ → List ℕ → List ℕ
request_body corr svc args =
    put_be 8 corr
    ++ ((put_be 4 (length svc % 2 ^ 32) ++ svc) ++ (put_be 4 (length args % 2 ^ 32) ++ args))

-- EncodeRequestFrame
unfoldable pub encode_request_frame : ℕ → List ℕ → List ℕ → List ℕ
encode_request_frame corr svc args = framed (request_body corr svc args)

unfoldable pub reply_body : ℕ → Bool → List ℕ → List ℕ
reply_body corr ok reply =
    put_be 8 corr ++ (put_be 1 (if ok then 1 else 0) ++ (put_be 4 (length reply % 2 ^ 32) ++ reply))

-- EncodeReplyFrame
unfoldable pub encode_reply_frame : ℕ → Bool → List ℕ → List ℕ
encode_reply_frame corr ok reply = framed (reply_body corr ok reply)

-- A length and so many bytes.
unfoldable pub get_sized : Decoder (List ℕ)
get_sized = do n ← get_be 4 0; get_exactly n

unfoldable pub get_request : Decoder (ℕ × List ℕ × List ℕ)
get_request = do corr ← get_be 8 0; svc ← get_sized; args ← get_sized; return (corr, svc, args)

unfoldable pub get_reply : Decoder (ℕ × Bool × List ℕ)
get_reply = do
  corr ← get_be 8 0
  ok_byte ← get_be 1 0
  reply ← get_sized
  return (corr, not (ok_byte == 0), reply)

unfoldable pub result_of : {A : Type 0} → Option (A × List ℕ) → Option A
result_of none = none
result_of (some r) = some r.0

-- DecodeRequest and DecodeReply, with kMinRequestBody and kMinReplyBody
unfoldable pub decode_request : List ℕ → Option (ℕ × List ℕ × List ℕ)
decode_request body = if ltb (length body) 16 then none else result_of (get_request body)

unfoldable pub decode_reply : List ℕ → Option (ℕ × Bool × List ℕ)
decode_reply body = if ltb (length body) 13 then none else result_of (get_reply body)

pub record FrameReader : Type 0 where
  pub buf : List ℕ
  pub off : ℕ
  pub max_body : ℕ
  pub broken : Bool

-- FrameReader::Append
unfoldable pub append_bytes : List ℕ → FrameReader → FrameReader
append_bytes bytes r = record r { buf = r.buf ++ bytes }

unfoldable pub compact_if_needed : FrameReader → FrameReader
compact_if_needed r =
    if ltb r.off 65536
    then r
    else if ltb (r.off * 2) (length r.buf)
    then r
    else record r { buf = drop r.off r.buf; off = 0 }

-- The body of a frame whose length is read, if it is there and not too long.
unfoldable pub cut_frame : ℕ → FrameReader → Option (List ℕ) × FrameReader
cut_frame len r =
    if ltb 0 r.max_body && ltb r.max_body len
    then (none, record r { broken = true })
    else if ltb (length r.buf - r.off) (4 + len)
    then (none, r)
    else (
      some (take len (drop (r.off + 4) r.buf)),
      compact_if_needed (record r { off = r.off + (4 + len) }),
    )

-- FrameReader::Next
unfoldable pub next_frame : FrameReader → Option (List ℕ) × FrameReader
next_frame r =
    if ltb (length r.buf - r.off) 4
    then (none, r)
    else (elim (get_be 4 0 (drop r.off r.buf)) [ none ↦ (none, r) | some p ↦ cut_frame p.0 r ])
