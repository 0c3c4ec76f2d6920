-- ===== src/Raft/Blob/RoundTrip.antt =====
-- raft/raft.cpp: a snapshot blob read back.
use chon_kv.Base.{
  ℕ, zero, suc, ◌+◌, ◌*◌, ◌/◌, ◌%◌, ◌^◌, ◌<◌, ◌≡◌, refl, ap, ◌∙◌, true, false, ltb, ◌==◌, pos, some,
  List, ◌++◌, length, drop, arith,
}
use chon_kv.Codec.{to_i64, to_i32}
use chon_kv.Raft.Crc.{xor, crc32_raw, flip, crc32_update}
use chon_kv.Raft.Blob.{
  put_le, get_le, blob_head, encode_blob, good, version_of, version3, blob_index, blob_term,
  blob_length, checksum_ok, check_blob, decode_blob,
}

-- What `n` bytes hold.
abbrev pub room : ℕ → ℕ
room zero = 1
room (suc n) = 256 * room n

pub get_le-put_le : (n v : ℕ) (rest : List ℕ) → v < room n → get_le n (put_le n v ++ rest) ≡ v
unfolding get_le put_le
get_le-put_le zero v rest h = omega arith
get_le-put_le (suc n) v rest h = omega (arith, get_le-put_le n (v / 256) rest (omega arith))

pub length-put_le : (n v : ℕ) → length (put_le n v) ≡ n
unfolding put_le
length-put_le zero v = refl
length-put_le (suc n) v = ap suc (length-put_le n (v / 256))

xor_bound : (n a b : ℕ) → xor n a b < 2 ^ n
unfolding xor
xor_bound zero a b = omega arith
xor_bound (suc n) a b = omega (arith, xor_bound n (a / 2) (b / 2))

crc32_update_bound : (crc : ℕ) (bytes : List ℕ) → crc32_update crc bytes < 2 ^ 32
unfolding crc32_update
crc32_update_bound crc bytes = xor_bound 32 (crc32_raw (flip crc) bytes) 4294967295

module _ (i t : ℕ) (raw : List ℕ) where
  abbrev pub head_crc : ℕ
  head_crc = crc32_update (crc32_update 0 (blob_head i t raw)) raw

  pub version_is : version_of (encode_blob i t raw) ≡ some version3
  unfolding version_of encode_blob blob_head
  version_is = refl

  pub length-encode_blob : length (encode_blob i t raw) ≡ 32 + length raw
  unfolding encode_blob blob_head put_le
  length-encode_blob = omega arith

  index_is : i < 2 ^ 63 → blob_index version3 (encode_blob i t raw) ≡ pos i
  unfolding blob_index encode_blob blob_head put_le
  index_is h =
      let e : get_le 8 (drop 8 (encode_blob i t raw)) ≡ i = get_le-put_le 8 i _ (omega arith) in
      ap to_i64 e ∙ ground arith

  term_is : t < 2 ^ 63 → blob_term version3 (encode_blob i t raw) ≡ pos t
  unfolding blob_term encode_blob blob_head put_le
  term_is h =
      let e : get_le 8 (drop 16 (encode_blob i t raw)) ≡ t = get_le-put_le 8 t _ (omega arith) in
      ap to_i64 e ∙ ground arith

  pub length_is :
      length raw < 2 ^ 31 → blob_length version3 (encode_blob i t raw) ≡ pos (length raw)
  unfolding blob_length encode_blob blob_head put_le
  length_is h =
      let e : get_le 4 (drop 24 (encode_blob i t raw)) ≡ length raw % 2 ^ 32 =
        get_le-put_le 4 (length raw % 2 ^ 32) _ (omega arith) in
      ap (λ n. to_i32 (pos n)) e ∙ ground arith

  checksum_is : checksum_ok 32 (encode_blob i t raw) ≡ true
  unfolding checksum_ok encode_blob blob_head put_le
  checksum_is =
      let e : get_le 4 (drop 28 (encode_blob i t raw)) ≡ head_crc =
        get_le-put_le 4 head_crc raw
          (omega (arith, crc32_update_bound (crc32_update 0 (blob_head i t raw)) raw)) in
      let same : (head_crc == head_crc) ≡ true = ground arith in ap (λ n. head_crc == n) e ∙ same

  rest_is : drop 32 (encode_blob i t raw) ≡ raw
  unfolding encode_blob blob_head put_le
  rest_is = refl

-- A snapshot with its index and term is read back from the bytes written for it, if index and term are
-- int64_t and the size is an int.
pub decode_blob-encode_blob :
    (i t : ℕ) (raw : List ℕ)
    → i < 2 ^ 63
    → t < 2 ^ 63
    → length raw < 2 ^ 31
    → decode_blob (encode_blob i t raw) ≡ good (pos i) (pos t) raw
unfolding decode_blob check_blob
decode_blob-encode_blob i t raw hi ht hl =
    let long : ltb (length (encode_blob i t raw)) 20 ≡ false =
      ground (arith, length-encode_blob i t raw) in
    let whole : ltb (length (encode_blob i t raw)) 32 ≡ false =
      ground (arith, length-encode_blob i t raw) in
    let size : (length (encode_blob i t raw) == 32 + length raw) ≡ true =
      ground (arith, length-encode_blob i t raw) in
    rw
      (
        long,
        version_is i t raw,
        whole,
        length_is i t raw hl,
        size,
        checksum_is i t raw,
        index_is i t raw hi,
        term_is i t raw ht,
        rest_is i t raw,
      )
      refl
