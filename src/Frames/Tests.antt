-- ===== src/Frames/Tests.antt =====
-- labrpc/epoll/wire.h: a request that comes in two pieces.
use chon_kv.Base.{◌≡◌, refl, arith, false, true, some, [], ◌∷◌}
use chon_kv.Frames.{
  put_be, get_be, framed, request_body, encode_request_frame, get_exactly, get_sized,
  decode_request, reply_body, get_reply, decode_reply, result_of, FrameReader, append_bytes,
  cut_frame, next_frame,
}
use chon_kv.Frames.Cut.{unread, next_frame-encode_request_frame}

abbrev two_pieces : FrameReader
unfolding append_bytes encode_request_frame framed request_body put_be
two_pieces = append_bytes (1 ∷ 77 ∷ 0 ∷ []) (record {
  buf = 9 ∷ 0 ∷ 0 ∷ 0 ∷ 17 ∷ 0 ∷ 0 ∷ 0 ∷ 0 ∷ 0 ∷ 0 ∷ 1 ∷ 2 ∷ 0 ∷ 0 ∷ 0 ∷ 0 ∷ 0 ∷ 0 ∷ 0 ∷ [];
  off = 1;
  max_body = 17;
  broken = false;
})

-- One byte more than the reader admits.
too_long : (next_frame (record two_pieces { max_body = 16 })).1.broken ≡ true
unfolding append_bytes next_frame cut_frame get_be two_pieces
too_long = refl

ok_reply : decode_reply (reply_body 258 true (7 ∷ [])) ≡ some (258, true, 7 ∷ [])
unfolding decode_reply reply_body put_be get_be get_reply get_sized get_exactly result_of
ok_reply = refl

next_frame-encode_request_frame_example :
    ((next_frame two_pieces).0 ≡ some (request_body 258 [] (77 ∷ [])))
    × ((unread (next_frame two_pieces).1 ≡ 0 ∷ [])
        × (decode_request (request_body 258 [] (77 ∷ [])) ≡ some (258, [], 77 ∷ [])))
unfolding append_bytes encode_request_frame framed request_body put_be
next_frame-encode_request_frame_example =
    next_frame-encode_request_frame two_pieces 258 [] (77 ∷ []) (0 ∷ []) refl (omega arith)
      (omega arith) (omega arith) (omega arith) refl
