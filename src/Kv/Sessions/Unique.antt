-- ===== src/Kv/Sessions/Unique.antt =====
-- kvraft/server.h: no client has two sessions, and none has two tombstones.
use chon_kv.Base.{
  ◌≡◌, refl, sym, inl, inr, Bool, true, false, if◌then◌else◌, Bool-cases, none, ℤ, eqz, eqz_iff,
  List, [], ◌∷◌, ◌++◌, map, drop,
}
use chon_kv.Kv.Sessions.{Session, Fence, find_session, remove_session, find_fence}

abbrev pub has : ℤ → List ℤ → Bool
has c [] = false
has c (d ∷ ds) = let rest = has c ds in if eqz d c then true else rest

abbrev pub Unique : List ℤ → Type 0
Unique [] = Unit {0}
Unique (c ∷ cs) = (has c cs ≡ false) × Unique cs

abbrev pub clients : List Session → List ℤ
clients es = map (λ (e : Session). e.client_id) es

abbrev pub fenced_clients : List Fence → List ℤ
fenced_clients fs = map (λ (f : Fence). f.client_id) fs

eqz_sym : (a b : ℤ) → eqz a b ≡ false → eqz b a ≡ false
eqz_sym a b e = elim (Bool-cases (eqz b a)) [
  | inl t ↦ cc (e, (eqz_iff a b).1 (sym ((eqz_iff b a).0 t)))
  | inr f ↦ f
]

has-append_other :
    (c d : ℤ) (cs : List ℤ) → eqz d c ≡ false → has c cs ≡ false → has c (cs ++ d ∷ []) ≡ false
has-append_other c d [] e h = rw e refl
has-append_other c d (x ∷ cs) e h = elim (Bool-cases (eqz x c)) [
  | inl same ↦ cc (rw same at h)
  | inr other ↦ rw other (has-append_other c d cs e (rw other at h))
]

pub Unique-append : (c : ℤ) (cs : List ℤ) → Unique cs → has c cs ≡ false → Unique (cs ++ c ∷ [])
Unique-append c [] w h = (refl, tt)
Unique-append c (x ∷ cs) w h = elim (Bool-cases (eqz x c)) [
  | inl same ↦ cc (rw same at h)
  | inr other ↦
      (has-append_other x c cs (eqz_sym x c other) w.0, Unique-append c cs w.1 (rw other at h))
]

pub Unique-drop : (cs : List ℤ) → Unique cs → Unique (drop 1 cs)
Unique-drop [] w = tt
Unique-drop (c ∷ cs) w = w.1

-- A member between two parts of a list without repetition is in neither.
pub Unique-before : (c : ℤ) (xs ys : List ℤ) → Unique (xs ++ c ∷ ys) → has c xs ≡ false
Unique-before c [] ys w = refl
Unique-before c (x ∷ xs) ys w = elim (Bool-cases (eqz x c)) [
  | inl same ↦ cc (w.0, here x xs ((eqz_iff x c).0 same))
  | inr other ↦ rw other (Unique-before c xs ys w.1)
]
  where
    here : (x : ℤ) (xs : List ℤ) → x ≡ c → has x (xs ++ c ∷ ys) ≡ true
    here x [] e = rw ((eqz_iff c x).1 (sym e)) refl
    here x (z ∷ zs) e = elim (Bool-cases (eqz z x)) [
      | inl same ↦ rw same refl
      | inr other ↦ rw other (here x zs e)
    ]

pub has-find_session :
    (c : ℤ) (es : List Session) → find_session c es ≡ none → has c (clients es) ≡ false
unfolding find_session
has-find_session c [] h = refl
has-find_session c (e ∷ es) h = elim (Bool-cases (eqz e.client_id c)) [
  | inl same ↦ cc (rw same at h)
  | inr other ↦ rw other (has-find_session c es (rw other at h))
]

pub has-find_fence :
    (c : ℤ) (fs : List Fence) → find_fence c fs ≡ none → has c (fenced_clients fs) ≡ false
unfolding find_fence
has-find_fence c [] h = refl
has-find_fence c (f ∷ fs) h = elim (Bool-cases (eqz f.client_id c)) [
  | inl same ↦ cc (rw same at h)
  | inr other ↦ rw other (has-find_fence c fs (rw other at h))
]

pub find_fence-has :
    (c : ℤ) (fs : List Fence) → has c (fenced_clients fs) ≡ false → find_fence c fs ≡ none
unfolding find_fence
find_fence-has c [] h = refl
find_fence-has c (f ∷ fs) h = elim (Bool-cases (eqz f.client_id c)) [
  | inl same ↦ cc (rw same at h)
  | inr other ↦ rw other (find_fence-has c fs (rw other at h))
]

pub clients-append : (es fs : List Session) → clients (es ++ fs) ≡ clients es ++ clients fs
clients-append [] fs = refl
clients-append (e ∷ es) fs = rw (clients-append es fs) refl

pub fenced_clients-append :
    (fs gs : List Fence) → fenced_clients (fs ++ gs) ≡ fenced_clients fs ++ fenced_clients gs
fenced_clients-append [] gs = refl
fenced_clients-append (f ∷ fs) gs = rw (fenced_clients-append fs gs) refl

has-remove_same : (c : ℤ) (es : List Session) → has c (clients (remove_session c es)) ≡ false
unfolding remove_session
has-remove_same c [] = refl
has-remove_same c (e ∷ es) = elim (Bool-cases (eqz e.client_id c)) [
  | inl same ↦ rw same (has-remove_same c es)
  | inr other ↦ rw (other, other) (has-remove_same c es)
]

has-remove :
    (c d : ℤ) (es : List Session)
    → has c (clients es) ≡ false
    → has c (clients (remove_session d es)) ≡ false
unfolding remove_session
has-remove c d [] h = refl
has-remove c d (e ∷ es) h = elim (Bool-cases (eqz e.client_id c)) [
  | inl same ↦ cc (rw same at h)
  | inr other ↦ elim (Bool-cases (eqz e.client_id d)) [
    | inl gone ↦ rw gone (has-remove c d es (rw other at h))
    | inr stays ↦ rw (stays, other) (has-remove c d es (rw other at h))
  ]
]

Unique-remove :
    (d : ℤ) (es : List Session) → Unique (clients es) → Unique (clients (remove_session d es))
unfolding remove_session
Unique-remove d [] w = tt
Unique-remove d (e ∷ es) w = elim (Bool-cases (eqz e.client_id d)) [
  | inl gone ↦ rw gone (Unique-remove d es w.1)
  | inr stays ↦ rw stays (has-remove e.client_id d es w.0, Unique-remove d es w.1)
]

pub Unique-renew :
    (n : Session) (es : List Session)
    → Unique (clients es)
    → Unique (clients (remove_session n.client_id es ++ n ∷ []))
Unique-renew n es w = rw (clients-append (remove_session n.client_id es) (n ∷ [])) (
    Unique-append n.client_id (clients (remove_session n.client_id es))
      (Unique-remove n.client_id es w) (has-remove_same n.client_id es))
