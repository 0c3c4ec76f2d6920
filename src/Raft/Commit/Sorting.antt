-- ===== src/Raft/Commit/Sorting.antt =====
-- raft/raft.cpp: `std::sort` of the match indices in AdvanceCommitIndexLocked, and counting in a
-- sorted list.
use chon_kv.Base.{
  ℕ, zero, suc, ◌+◌, ◌-◌, ◌≤◌, ◌<◌, ◌≡◌, refl, leb, Bool-cases, inl, inr, if◌then◌else◌, List, [],
  ◌∷◌, arith, length, get_or,
}
use native.Mathlib.Decide.{dec_le}
use chon_kv.Raft.Commit.{insert_sorted, sort}

-- How many elements are at least `n`.
unfoldable pub count_ge : ℕ → List ℕ → ℕ
count_ge n [] = 0
count_ge n (x ∷ xs) = (if leb n x then 1 else 0) + count_ge n xs

count_ge-insert_sorted :
    (n x : ℕ) (xs : List ℕ)
    → count_ge n (insert_sorted x xs) ≡ (if leb n x then 1 else 0) + count_ge n xs
unfolding insert_sorted count_ge
count_ge-insert_sorted n x [] = refl
count_ge-insert_sorted n x (y ∷ ys) = ground (arith, count_ge-insert_sorted n x ys)

pub count_ge-sort : (n : ℕ) (xs : List ℕ) → count_ge n (sort xs) ≡ count_ge n xs
unfolding sort count_ge
count_ge-sort n [] = refl
count_ge-sort n (x ∷ xs) = omega (arith, count_ge-insert_sorted n x (sort xs), count_ge-sort n xs)

length-insert_sorted : (x : ℕ) (xs : List ℕ) → length (insert_sorted x xs) ≡ suc (length xs)
unfolding insert_sorted
length-insert_sorted x [] = refl
length-insert_sorted x (y ∷ ys) = ground (arith, length-insert_sorted x ys)

pub length-sort : (xs : List ℕ) → length (sort xs) ≡ length xs
unfolding sort
length-sort [] = refl
length-sort (x ∷ xs) = omega (arith, length-insert_sorted x (sort xs), length-sort xs)

-- Every element is at least `b`.
abbrev AllGe : ℕ → List ℕ → Type 0
AllGe b [] = Unit {0}
AllGe b (x ∷ xs) = (b ≤ x) × AllGe b xs

abbrev pub IsSorted : List ℕ → Type 0
IsSorted [] = Unit {0}
IsSorted (x ∷ xs) = AllGe x xs × IsSorted xs

AllGe-mono : (a b : ℕ) (xs : List ℕ) → a ≤ b → AllGe b xs → AllGe a xs
AllGe-mono a b [] h g = tt
AllGe-mono a b (x ∷ xs) h g = (omega arith, AllGe-mono a b xs h g.1)

AllGe-insert_sorted : (b x : ℕ) (xs : List ℕ) → b ≤ x → AllGe b xs → AllGe b (insert_sorted x xs)
unfolding insert_sorted
AllGe-insert_sorted b x [] h g = (h, tt)
AllGe-insert_sorted b x (y ∷ ys) h g = ground (arith, AllGe-insert_sorted b x ys h g.1)

insert_sorted-IsSorted : (x : ℕ) (xs : List ℕ) → IsSorted xs → IsSorted (insert_sorted x xs)
unfolding insert_sorted
insert_sorted-IsSorted x [] h = (tt, tt)
insert_sorted-IsSorted x (y ∷ ys) h = elim (Bool-cases (leb x y)) [
  | inl e ↦ rw e ((ground arith, AllGe-mono x y ys (ground arith) h.0), h)
  | inr e ↦ rw e (AllGe-insert_sorted y x ys (ground arith) h.0, insert_sorted-IsSorted x ys h.1)
]

pub sort-IsSorted : (xs : List ℕ) → IsSorted (sort xs)
unfolding sort
sort-IsSorted [] = tt
sort-IsSorted (x ∷ xs) = insert_sorted-IsSorted x (sort xs) (sort-IsSorted xs)

count_ge-AllGe : (b : ℕ) (xs : List ℕ) → AllGe b xs → count_ge b xs ≡ length xs
unfolding count_ge
count_ge-AllGe b [] h = refl
count_ge-AllGe b (x ∷ xs) h = ground (arith, count_ge-AllGe b xs h.1)

-- At position `k` of a sorted list stands a value that all from there on reach.
pub count_ge-get_or :
    (k : ℕ) (xs : List ℕ)
    → IsSorted xs
    → k < length xs
    → length xs ≤ count_ge (get_or xs k 0) xs + k
unfolding count_ge
count_ge-get_or k [] h lt = absurd (omega arith)
count_ge-get_or zero (x ∷ xs) h lt = ground (arith, count_ge-AllGe x xs h.0)
count_ge-get_or (suc k) (x ∷ xs) h lt = ground (arith, count_ge-get_or k xs h.1 (omega arith))

pub count_ge-le : (n : ℕ) (xs : List ℕ) → count_ge n xs ≤ length xs
unfolding count_ge
count_ge-le n [] = omega arith
count_ge-le n (x ∷ xs) = ground (arith, count_ge-le n xs)

-- Conversely, what `q` elements reach is reached by the q-th element from the end.
pub get_or-count_ge :
    (n q : ℕ) (xs : List ℕ)
    → IsSorted xs
    → 0 < q
    → q ≤ count_ge n xs
    → n ≤ get_or xs (length xs - q) 0
unfolding count_ge
get_or-count_ge n q [] h pos le = absurd (omega arith)
get_or-count_ge n q (x ∷ xs) h pos le = elim (dec_le q (count_ge n xs)) [
  | yes few ↦
      let shorter : length (x ∷ xs) - q ≡ suc (length xs - q) = omega (arith, count_ge-le n xs) in
      rw shorter (get_or-count_ge n q xs h.1 pos few)
  | no more ↦
      let here : n ≤ x = ground arith in
      let all = count_ge-AllGe n xs (AllGe-mono n x xs here h.0) in
      let start : length (x ∷ xs) - q ≡ 0 = ground (arith, all) in rw start here
]

pub count_ge-anti : (n m : ℕ) (xs : List ℕ) → n ≤ m → count_ge m xs ≤ count_ge n xs
unfolding count_ge
count_ge-anti n m [] h = omega arith
count_ge-anti n m (x ∷ xs) h = ground (arith, count_ge-anti n m xs h)
