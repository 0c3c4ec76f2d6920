-- ===== src/Raft/Replicate/Chunks.antt =====
-- raft/raft.cpp: the chunks of a snapshot that ReplicateLoop sends and InstallSnapshot puts together.
use chon_kv.Base.{
  ℕ, zero, suc, ◌+◌, ◌-◌, ◌≤◌, ◌<◌, ◌≡◌, refl, sym, ap, ◌∙◌, inl, inr, false, ltb, Bool-cases, List,
  [], ◌∷◌, ◌++◌, append_assoc, append-nil, arith, length, length-append, length-replicate,
  length-take, length-drop, ltb→lt, take, drop, take-append-drop, replicate, min,
}
use chon_kv.Raft.Snapshot.{overwrite, snapshot_chunk_size}
use chon_kv.Raft.Replicate.{Piece, split, chunks}

-- The buffer after the pieces have come in order.
unfoldable pub assemble : List Piece → List ℕ → List ℕ
assemble [] buf = buf
assemble (p ∷ ps) buf = assemble ps (overwrite p.offset p.bytes buf)

take_front : (n : ℕ) (xs ys : List ℕ) → length xs ≡ n → take n (xs ++ ys) ≡ xs
take_front zero [] ys h = refl
take_front zero (x ∷ xs) ys h = absurd (omega arith)
take_front (suc n) [] ys h = absurd (omega arith)
take_front (suc n) (x ∷ xs) ys h = ap (◌∷◌ x) (take_front n xs ys (omega arith))

drop_all : (n : ℕ) (xs : List ℕ) → length xs ≤ n → drop n xs ≡ []
drop_all zero [] h = refl
drop_all zero (x ∷ xs) h = absurd (omega arith)
drop_all (suc n) [] h = refl
drop_all (suc n) (x ∷ xs) h = drop_all n xs (omega arith)

-- A chunk at the end of the buffer is appended.
overwrite_end :
    (off : ℕ) (chunk buf : List ℕ) → length buf ≡ off → overwrite off chunk buf ≡ buf ++ chunk
unfolding overwrite
overwrite_end off chunk buf h =
    let pad = replicate (off + length chunk - length buf) 0 in
    let all : length (buf ++ pad) ≤ off + length chunk = omega (
      arith,
      length-append buf pad,
      length-replicate {A = ℕ} (off + length chunk - length buf) 0,
    ) in
    rw
      (
        take_front off buf pad h,
        drop_all (off + length chunk) (buf ++ pad) all,
        append-nil (buf ++ chunk),
      )
      refl

split-assemble :
    (k off : ℕ) (rest buf : List ℕ)
    → length rest < k
    → length buf ≡ off
    → assemble (split k off rest) buf ≡ buf ++ rest
unfolding split assemble
split-assemble zero off rest buf lt h = absurd (omega arith)
split-assemble (suc k) off rest buf lt h =
    let len = min (length rest) snapshot_chunk_size in
    let put = overwrite_end off (take len rest) buf h in
    elim (Bool-cases (ltb len (length rest))) [
      | inl more ↦ rw more (
          ap (assemble (split k (off + len) (drop len rest))) put
          ∙ split-assemble k (off + len) (drop len rest) (buf ++ take len rest)
              (omega (arith, length-drop len rest, ltb→lt len (length rest) more, lt))
              (omega (arith, length-append buf (take len rest), length-take len rest))
          ∙ append_assoc buf (take len rest) (drop len rest)
          ∙ ap (λ xs. buf ++ xs) (take-append-drop len rest))
      | inr whole ↦ rw whole (put ∙ ap (λ xs. buf ++ xs) (all_taken len whole))
    ]
  where
    all_taken : (len : ℕ) → ltb len (length rest) ≡ false → take len rest ≡ rest
    all_taken len whole =
        sym (append-nil (take len rest))
        ∙ ap (λ xs. take len rest ++ xs) (sym (drop_all len rest (ground (arith, whole))))
        ∙ take-append-drop len rest

-- The chunks that are sent of a snapshot, put into an empty buffer in the order of their offsets, are
-- the snapshot.
pub chunks-assemble : (blob : List ℕ) → assemble (chunks blob) [] ≡ blob
unfolding chunks
chunks-assemble blob = split-assemble (suc (length blob)) 0 blob [] (omega arith) refl
