-- ===== src/Frames/Cut.antt =====
-- labrpc/epoll/wire.h: a frame in the buffer is cut out as it was written.
use chon_kv.Base.{
  ℕ, zero, suc, ◌+◌, ◌*◌, ◌%◌, ◌-◌, ◌^◌, ◌<◌, ◌≡◌, refl, sym, ap, ◌∙◌, subst, inl, inr, false,
  Bool-cases, ◌&&◌, ltb, some, List, [], ◌∷◌, ◌++◌, length, take, drop, arith,
}
use chon_kv.Base.{length-append, length-drop, append-nil}
use chon_kv.Codec.RoundTrip.{take-append, drop-append}
use chon_kv.Codec.Reads.{Reads, Reads-bind, Reads-last}
use chon_kv.Frames.{
  put_be, get_be, get_exactly, framed, request_body, encode_request_frame, get_sized, get_request,
  result_of, decode_request, FrameReader, compact_if_needed, cut_frame, next_frame,
}

get_be4-put_be : (v : ℕ) → v < 2 ^ 32 → Reads (get_be 4 0) (put_be 4 v) v
unfolding get_be put_be
get_be4-put_be v h rest = ap (λ n. some (n, rest)) (omega (arith, h))

get_be8-put_be : (v : ℕ) → v < 2 ^ 64 → Reads (get_be 8 0) (put_be 8 v) v
unfolding get_be put_be
get_be8-put_be v h rest = ap (λ n. some (n, rest)) (omega (arith, h))

get_exactly-Reads : (s : List ℕ) → Reads (get_exactly (length s)) s s
unfolding get_exactly
get_exactly-Reads s rest =
    let enough : ltb (length (s ++ rest)) (length s) ≡ false =
      ground (arith, length-append s rest) in
    rw (enough, get_exactly, take-append s rest, drop-append s rest) refl

get_sized-Reads :
    (s : List ℕ) → length s < 2 ^ 32 → Reads get_sized (put_be 4 (length s % 2 ^ 32) ++ s) s
unfolding get_sized
get_sized-Reads s h =
    let whole : length s % 2 ^ 32 ≡ length s = omega (arith, h) in
    subst (λ n. Reads get_sized (put_be 4 n ++ s) s) (sym whole)
      (Reads-bind (get_be 4 0) get_exactly (put_be 4 (length s)) s (length s) s
        (get_be4-put_be (length s) h) (get_exactly-Reads s))

get_request-Reads :
    (corr : ℕ) (svc args : List ℕ)
    → corr < 2 ^ 64
    → length svc < 2 ^ 32
    → length args < 2 ^ 32
    → Reads get_request (request_body corr svc args) (corr, svc, args)
unfolding get_request request_body
get_request-Reads corr svc args c v a =
    Reads-bind (get_be 8 0) _ (put_be 8 corr) _ corr (corr, svc, args) (get_be8-put_be corr c)
      (Reads-bind get_sized _ (put_be 4 (length svc % 2 ^ 32) ++ svc) _ svc (corr, svc, args)
        (get_sized-Reads svc v)
        (Reads-last get_sized _ (put_be 4 (length args % 2 ^ 32) ++ args) args (corr, svc, args)
          (get_sized-Reads args a) (λ rest. refl)))

decode_request-request_body :
    (corr : ℕ) (svc args : List ℕ)
    → corr < 2 ^ 64
    → length svc < 2 ^ 32
    → length args < 2 ^ 32
    → decode_request (request_body corr svc args) ≡ some (corr, svc, args)
unfolding decode_request request_body put_be result_of
decode_request-request_body corr svc args c v a =
    let read : get_request (request_body corr svc args) ≡ some ((corr, svc, args), []) =
      subst (λ s. get_request s ≡ some ((corr, svc, args), []))
        (append-nil (request_body corr svc args)) (get_request-Reads corr svc args c v a []) in
    let long : ltb (length (request_body corr svc args)) 16 ≡ false = ground (
      arith,
      length-append (put_be 4 (length svc % 2 ^ 32) ++ svc)
          (put_be 4 (length args % 2 ^ 32) ++ args),
    ) in
    rw (long, read, decode_request, result_of) refl

-- The bytes that are not cut yet.
abbrev pub unread : FrameReader → List ℕ
unread r = drop r.off r.buf

drop-drop : (n m : ℕ) (s : List ℕ) → drop (n + m) s ≡ drop m (drop n s)
drop-drop zero m s = ap (λ k. drop k s) (omega arith)
drop-drop (suc n) m [] = drop-nil (suc n + m) ∙ sym (drop-nil m)
  where
    drop-nil : (k : ℕ) → drop {A = ℕ} k [] ≡ []
    drop-nil zero = refl
    drop-nil (suc k) = refl
drop-drop (suc n) m (x ∷ s) =
    let sum : suc n + m ≡ suc (n + m) = omega arith in
    ap (λ k. drop k (x ∷ s)) sum ∙ drop-drop n m s

compact_if_needed-unread : (r : FrameReader) → unread (compact_if_needed r) ≡ unread r
unfolding compact_if_needed
compact_if_needed-unread r = elim (Bool-cases (ltb r.off 65536)) [
  | inl e ↦ rw (e, compact_if_needed) refl
  | inr e ↦ elim (Bool-cases (ltb (r.off * 2) (length r.buf))) [
    | inl g ↦ rw (e, g, compact_if_needed) refl
    | inr g ↦ rw (e, g, compact_if_needed) refl
  ]
]

-- The reader takes a body of this length.
abbrev pub Admits : FrameReader → ℕ → Type 0
Admits r n = ltb 0 r.max_body && ltb r.max_body n ≡ false

next_frame-framed :
    (r : FrameReader) (payload rest : List ℕ)
    → unread r ≡ framed payload ++ rest
    → length payload < 2 ^ 32
    → Admits r (length payload)
    → ((next_frame r).0 ≡ some payload) × (unread (next_frame r).1 ≡ rest)
unfolding next_frame cut_frame framed put_be
next_frame-framed r payload rest u h fits =
    let whole : length payload % 2 ^ 32 ≡ length payload = omega (arith, h) in
    let got : get_be 4 0 (drop r.off r.buf) ≡ some (length payload, payload ++ rest) =
      ap (get_be 4 0) u
      ∙ (get_be4-put_be (length payload % 2 ^ 32) (omega arith) (payload ++ rest)
          ∙ ap (λ n. some (n, payload ++ rest)) whole) in
    let size : length r.buf - r.off ≡ 4 + (length payload + length rest) =
      omega (arith, length-drop r.off r.buf, ap length u, length-append payload rest) in
    let head : ltb (length r.buf - r.off) 4 ≡ false = ground (arith, size) in
    let all : ltb (length r.buf - r.off) (4 + length payload) ≡ false = ground (arith, size) in
    rw (head, got, next_frame)
      (rw (fits, all, cut_frame)
        (
          ap some (
              ap (take (length payload)) (drop-drop r.off 4 r.buf ∙ ap (drop 4) u)
              ∙ take-append payload rest),
          compact_if_needed-unread _
              ∙ (drop-drop r.off (4 + length payload) r.buf
                  ∙ (drop-drop 4 (length payload) (drop r.off r.buf)
                      ∙ (ap (λ s. drop (length payload) (drop 4 s)) u ∙ drop-append payload rest))),
        ))

-- Where the bytes that FrameReader holds begin with the frame of a request whose number is a uint64_t and
-- whose sizes are uint32_t, and the body is not longer than the reader admits: Next gives the body, from
-- which DecodeRequest reads the number, the service and the arguments, and the bytes behind the frame are
-- what is held then, whether or not the buffer is compacted.
pub next_frame-encode_request_frame :
    (r : FrameReader) (corr : ℕ) (svc args rest : List ℕ)
    → unread r ≡ encode_request_frame corr svc args ++ rest
    → corr < 2 ^ 64
    → length svc < 2 ^ 32
    → length args < 2 ^ 32
    → length (request_body corr svc args) < 2 ^ 32
    → Admits r (length (request_body corr svc args))
    → ((next_frame r).0 ≡ some (request_body corr svc args))
      × ((unread (next_frame r).1 ≡ rest)
          × (decode_request (request_body corr svc args) ≡ some (corr, svc, args)))
unfolding encode_request_frame
next_frame-encode_request_frame r corr svc args rest u c v a size fits =
    let cut = next_frame-framed r (request_body corr svc args) rest u size fits in
    (cut.0, (cut.1, decode_request-request_body corr svc args c v a))
