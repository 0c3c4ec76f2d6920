-- ===== src/Raft/Log.antt =====
-- The shape of the log vector: entry `i` of `logs_` has index `snapshot_index_ + i`, and the
-- sentinel is always there.
use chon_kv.Base.{
  ℕ, zero, suc, ◌+◌, ◌<◌, ◌≡◌, refl, ap, ◌∙◌, subst, some, List, [], ◌∷◌, ◌++◌, arith, length,
  get_elem?, take, drop,
}
use chon_kv.Store.{last_index}
use chon_kv.Raft.Types.{LogEntry}
use chon_kv.Raft.State.{term_at}

-- The indices count up from `b`.
abbrev pub Contiguous : ℕ → List LogEntry → Type 0
Contiguous b [] = Unit {0}
Contiguous b (e ∷ es) = (e.index ≡ b) × Contiguous (suc b) es

pub record IsLog (b : ℕ) (logs : List LogEntry) : Type 0 where
  pub contiguous : Contiguous b logs
  pub sentinel : 0 < length logs

pub last_index-Contiguous :
    (b : ℕ) (logs : List LogEntry)
    → Contiguous b logs
    → 0 < length logs
    → last_index logs + 1 ≡ b + length logs
last_index-Contiguous b [] c h = absurd (omega arith)
last_index-Contiguous b (e ∷ []) c h = omega arith
last_index-Contiguous b (e ∷ f ∷ es) c h =
    omega (arith, last_index-Contiguous (suc b) (f ∷ es) c.1 (omega arith))

pub last_index-IsLog :
    (b : ℕ) (logs : List LogEntry) → IsLog b logs → last_index logs + 1 ≡ b + length logs
last_index-IsLog b logs v = last_index-Contiguous b logs v.contiguous v.sentinel

pub Contiguous-append :
    (b : ℕ) (xs ys : List LogEntry)
    → Contiguous b xs
    → Contiguous (b + length xs) ys
    → Contiguous b (xs ++ ys)
Contiguous-append b [] ys c d = subst (λ k. Contiguous k ys) (omega arith) d
Contiguous-append b (x ∷ xs) ys c d =
    (c.0, Contiguous-append (suc b) xs ys c.1 (subst (λ k. Contiguous k ys) (omega arith) d))

pub Contiguous-take : (b n : ℕ) (xs : List LogEntry) → Contiguous b xs → Contiguous b (take n xs)
Contiguous-take b zero xs c = tt
Contiguous-take b (suc n) [] c = tt
Contiguous-take b (suc n) (x ∷ xs) c = (c.0, Contiguous-take (suc b) n xs c.1)

pub Contiguous-drop :
    (b n : ℕ) (xs : List LogEntry) → Contiguous b xs → Contiguous (b + n) (drop n xs)
Contiguous-drop b zero xs c = subst (λ k. Contiguous k xs) (omega arith) c
Contiguous-drop b (suc n) [] c = tt
Contiguous-drop b (suc n) (x ∷ xs) c =
    subst (λ k. Contiguous k (drop n xs)) (omega arith) (Contiguous-drop (suc b) n xs c.1)

-- Reading a list that was cut or extended.
module _ {ℓ} {A : Type ℓ} where
  pub get_elem?-take : (n j : ℕ) (xs : List A) → j < n → get_elem? (take n xs) j ≡ get_elem? xs j
  get_elem?-take zero j xs h = absurd (omega arith)
  get_elem?-take (suc n) j [] h = refl
  get_elem?-take (suc n) zero (x ∷ xs) h = refl
  get_elem?-take (suc n) (suc j) (x ∷ xs) h = get_elem?-take n j xs (omega arith)

  pub get_elem?-append :
      (j : ℕ) (xs ys : List A) → j < length xs → get_elem? (xs ++ ys) j ≡ get_elem? xs j
  get_elem?-append j [] ys h = absurd (omega arith)
  get_elem?-append zero (x ∷ xs) ys h = refl
  get_elem?-append (suc j) (x ∷ xs) ys h = get_elem?-append j xs ys (omega arith)

  pub get_elem?-append_end :
      (j : ℕ) (xs : List A) (y : A) → j ≡ length xs → get_elem? (xs ++ y ∷ []) j ≡ some y
  get_elem?-append_end zero [] y h = refl
  get_elem?-append_end (suc j) [] y h = absurd (omega arith)
  get_elem?-append_end zero (x ∷ xs) y h = absurd (omega arith)
  get_elem?-append_end (suc j) (x ∷ xs) y h = get_elem?-append_end j xs y (omega arith)

  pub get_elem?-lt_length : (j : ℕ) (xs : List A) (x : A) → get_elem? xs j ≡ some x → j < length xs
  get_elem?-lt_length j [] x h = cc
  get_elem?-lt_length zero (y ∷ ys) x h = omega arith
  get_elem?-lt_length (suc j) (y ∷ ys) x h = omega (arith, get_elem?-lt_length j ys x h)

  pub get_elem?-in_range :
      (j : ℕ) (xs : List A) → j < length xs → (x : A) × (get_elem? xs j ≡ some x)
  get_elem?-in_range j [] h = absurd (omega arith)
  get_elem?-in_range zero (y ∷ ys) h = (y, refl)
  get_elem?-in_range (suc j) (y ∷ ys) h = get_elem?-in_range j ys (omega arith)

module _ {ℓ} {A : Type ℓ} where
  pub get_elem?-drop : (n j : ℕ) (xs : List A) → get_elem? (drop n xs) j ≡ get_elem? xs (n + j)
  get_elem?-drop zero j xs = ap (get_elem? xs) (omega arith)
  get_elem?-drop (suc n) j [] = refl
  get_elem?-drop (suc n) j (x ∷ xs) =
      get_elem?-drop n j xs ∙ ap (get_elem? (x ∷ xs)) {x = suc (n + j)} (omega arith)

-- The entry at a position has the index that the position stands for.
pub get_elem?-Contiguous :
    (b j : ℕ) (logs : List LogEntry) (e : LogEntry)
    → Contiguous b logs
    → get_elem? logs j ≡ some e
    → e.index ≡ b + j
get_elem?-Contiguous b j [] e c h = cc
get_elem?-Contiguous b zero (x ∷ xs) e c h = ground arith
get_elem?-Contiguous b (suc j) (x ∷ xs) e c h =
    omega (arith, get_elem?-Contiguous (suc b) j xs e c.1 h)

pub term_at_same :
    (xs ys : List LogEntry) (j : ℕ) → get_elem? xs j ≡ get_elem? ys j → term_at xs j ≡ term_at ys j
term_at_same xs ys j h = rw (h, term_at)
