-- ===== src/Raft/Blob.antt =====
-- raft/raft.cpp: EncodeSnapshotBlob and DecodeSnapshotBlob, the bytes of a snapshot on disk.
pub mod RoundTrip
pub mod Torn
use chon_kv.Base.{
  ℕ, zero, suc, ◌+◌, ◌-◌, ◌*◌, ◌/◌, ◌%◌, ◌^◌, Bool, true, false, ◌&&◌, not, if◌then◌else◌, ltb,
  ◌==◌, ℤ, pos, negsuc, Option, none, some, List, [], ◌∷◌, ◌++◌, length, take, drop, same_bytes,
}
use chon_kv.Codec.{to_i64, to_i32}
use chon_kv.Raft.Crc.{crc32_update}

-- PutInt32 and PutInt64 of a bit pattern: its bytes, the lowest first.
unfoldable pub put_le : ℕ → ℕ → List ℕ
put_le zero v = []
put_le (suc n) v = (v % 256) ∷ put_le n (v / 256)

-- GetInt32 and GetInt64. The reads are within the string wherever the decoder makes them.
unfoldable pub get_le : ℕ → List ℕ → ℕ
get_le zero bytes = 0
get_le (suc n) [] = 0
get_le (suc n) (b ∷ bytes) = b % 256 + 256 * get_le n bytes

-- "RAFTSNP1", "RAFTSNP2" and "RAFTSNP3"
abbrev pub magic : ℕ → List ℕ
magic version = 82 ∷ 65 ∷ 70 ∷ 84 ∷ 83 ∷ 78 ∷ 80 ∷ version ∷ []

-- What stands before the checksum.
unfoldable pub blob_head : ℕ → ℕ → List ℕ → List ℕ
blob_head index term raw =
    magic 51 ++ put_le 8 index ++ put_le 8 term ++ put_le 4 (length raw % 2 ^ 32)

-- EncodeSnapshotBlob
unfoldable pub encode_blob : ℕ → ℕ → List ℕ → List ℕ
encode_blob index term raw =
    let head = blob_head index term raw in
    head ++ put_le 4 (crc32_update (crc32_update 0 head) raw) ++ raw

-- `false`, `false` with `corrupt` set, or the index, the term and the snapshot.
pub data Blob : Type 0 where
  absent corrupt : Blob
  good : ℤ → ℤ → List ℕ → Blob

pub data Version : Type 0 where
  version1 version2 version3 : Version

unfoldable pub version_of : List ℕ → Option Version
version_of blob =
    let m = take 8 blob in
    if same_bytes m (magic 51)
    then some version3
    else if same_bytes m (magic 50)
    then some version2
    else if same_bytes m (magic 49)
    then some version1
    else none

-- kSnapHeaderSizeV3, kSnapHeaderSize and kSnapHeaderSizeV1
abbrev pub header_size : Version → ℕ
header_size version3 = 32
header_size version2 = 24
header_size version1 = 20

abbrev pub is_version1 : Version → Bool
is_version1 version1 = true
is_version1 version2 = false
is_version1 version3 = false

unfoldable pub blob_index : Version → List ℕ → ℤ
blob_index version3 blob = to_i64 (get_le 8 (drop 8 blob))
blob_index version2 blob = to_i32 (pos (get_le 4 (drop 8 blob)))
blob_index version1 blob = to_i32 (pos (get_le 4 (drop 8 blob)))

unfoldable pub blob_term : Version → List ℕ → ℤ
blob_term version3 blob = to_i64 (get_le 8 (drop 16 blob))
blob_term version2 blob = to_i32 (pos (get_le 4 (drop 12 blob)))
blob_term version1 blob = to_i32 (pos (get_le 4 (drop 12 blob)))

unfoldable pub blob_length : Version → List ℕ → ℤ
blob_length version3 blob = to_i32 (pos (get_le 4 (drop 24 blob)))
blob_length version2 blob = to_i32 (pos (get_le 4 (drop 16 blob)))
blob_length version1 blob = to_i32 (pos (get_le 4 (drop 16 blob)))

-- The checksum, over the header before it and the snapshot, is the one written.
unfoldable pub checksum_ok : ℕ → List ℕ → Bool
checksum_ok header blob =
    crc32_update (crc32_update 0 (take (header - 4) blob)) (drop header blob)
    == get_le 4 (drop (header - 4) blob)

-- The checks behind the header; the length read is the snapshot's size.
unfoldable pub check_blob : Version → List ℕ → ℤ → Blob
check_blob v blob (negsuc n) = corrupt
check_blob v blob (pos n) =
    if not (length blob == header_size v + n)
    then corrupt
    else if not (is_version1 v) && not (checksum_ok (header_size v) blob)
    then corrupt
    else good (blob_index v blob) (blob_term v blob) (drop (header_size v) blob)

-- DecodeSnapshotBlob
unfoldable pub decode_blob : List ℕ → Blob
decode_blob blob =
    let found : Blob = elim (version_of blob) [
      | none ↦ absent
      | some v ↦
          if ltb (length blob) (header_size v)
          then corrupt
          else check_blob v blob (blob_length v blob)
    ] in
    if ltb (length blob) 20 then absent else found
