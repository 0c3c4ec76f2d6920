-- ===== src/Raft/Blob/Torn.antt =====
-- raft/raft.cpp: a snapshot blob that was cut short on its way to the disk.
use chon_kv.Base.{
  ℕ, zero, suc, ◌+◌, ◌<◌, ◌≤◌, ◌^◌, ◌≡◌, refl, ap, ◌∙◌, inl, inr, false, ltb, ◌==◌, if◌then◌else◌,
  Bool-cases, pos, List, [], ◌∷◌, length, length-take, take, drop, arith,
}
use chon_kv.Codec.{to_i32}
use chon_kv.Raft.Blob.{
  get_le, encode_blob, absent, corrupt, version_of, version3, blob_length, check_blob, decode_blob,
}
use chon_kv.Raft.Blob.RoundTrip.{version_is, length_is, length-encode_blob}

get_le_front : (k n : ℕ) (xs : List ℕ) → k ≤ n → get_le k (take n xs) ≡ get_le k xs
unfolding get_le
get_le_front zero n xs h = refl
get_le_front (suc k) zero xs h = absurd (omega arith)
get_le_front (suc k) (suc n) [] h = refl
get_le_front (suc k) (suc n) (x ∷ xs) h = rw (get_le_front k n xs (omega arith)) refl

get_le-take :
    (k m n : ℕ) (xs : List ℕ) → m + k ≤ n → get_le k (drop m (take n xs)) ≡ get_le k (drop m xs)
get_le-take k zero n xs h = get_le_front k n xs (omega arith)
get_le-take k (suc m) zero xs h = absurd (omega arith)
get_le-take k (suc m) (suc n) [] h = refl
get_le-take k (suc m) (suc n) (x ∷ xs) h = get_le-take k m n xs (omega arith)

take-take : (m n : ℕ) (xs : List ℕ) → m ≤ n → take m (take n xs) ≡ take m xs
take-take zero n xs h = refl
take-take (suc m) zero xs h = absurd (omega arith)
take-take (suc m) (suc n) [] h = refl
take-take (suc m) (suc n) (x ∷ xs) h = ap (◌∷◌ x) (take-take m n xs (omega arith))

version_of-take : (n : ℕ) (xs : List ℕ) → 8 ≤ n → version_of (take n xs) ≡ version_of xs
unfolding version_of
version_of-take n xs h = rw (take-take 8 n xs h) refl

blob_length-take :
    (n : ℕ) (xs : List ℕ) → 32 ≤ n → blob_length version3 (take n xs) ≡ blob_length version3 xs
unfolding blob_length
blob_length-take n xs h = ap (λ k. to_i32 (pos k)) (get_le-take 4 24 n xs (omega arith))

-- What a snapshot of an int's size leaves of itself when its blob is cut short is never taken for a
-- snapshot: below 20 bytes it counts as absent, and from there on as corrupt.
pub decode_blob-take :
    (n i t : ℕ) (raw : List ℕ)
    → n < length (encode_blob i t raw)
    → length raw < 2 ^ 31
    → decode_blob (take n (encode_blob i t raw)) ≡ (if ltb n 20 then absent else corrupt)
unfolding decode_blob check_blob
decode_blob-take n i t raw cut hl =
    let size : length (take n (encode_blob i t raw)) ≡ n =
      omega (arith, length-take n (encode_blob i t raw)) in
    let at : (m : ℕ) → ltb (length (take n (encode_blob i t raw))) m ≡ ltb n m =
      λ m. ap (λ k. ltb k m) size in
    elim (Bool-cases (ltb n 20)) [
      | inl short ↦ rw (at 20 ∙ short, short) refl
      | inr long ↦
          let v =
            version_of-take n (encode_blob i t raw) (ground (arith, long)) ∙ version_is i t raw in
          elim (Bool-cases (ltb n 32)) [
            | inl part ↦ rw (at 20 ∙ long, v, at 32 ∙ part, long) refl
            | inr whole ↦
                let length' : blob_length version3 (take n (encode_blob i t raw))
                    ≡ pos (length raw) =
                  blob_length-take n (encode_blob i t raw) (ground (arith, whole))
                  ∙ length_is i t raw hl in
                let differs : (length (take n (encode_blob i t raw)) == 32 + length raw) ≡ false =
                  ground (arith, size, cut, length-encode_blob i t raw) in
                rw (at 20 ∙ long, v, at 32 ∙ whole, length', differs, long) refl
          ]
    ]
