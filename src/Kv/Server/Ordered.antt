-- ===== src/Kv/Server/Ordered.antt =====
-- kvraft/server.cpp: std::map keeps its keys in order.
use chon_kv.Base.{
  same_bytes, same_bytes_eq, ℕ, ◌<◌, ◌≡◌, refl, subst, ltb→lt, inl, inr, true, false, ltb, ◌⊎◌,
  Bool-cases, List, [], ◌∷◌, ◌++◌, arith,
}
use chon_kv.Kv.Messages.{Op, put_name, append_name}
use chon_kv.Kv.Server.{Pair, less_bytes, set_key, value_of, execute}
use chon_kv.Codec.RoundTrip.{All}

abbrev pub IsBefore : List ℕ → List Pair → Type 0
IsBefore k ps = All (λ (p : Pair). less_bytes k p.key ≡ true) ps

abbrev pub AreOrdered : List Pair → Type 0
AreOrdered [] = Unit {0}
AreOrdered (p ∷ ps) = IsBefore p.key ps × AreOrdered ps

-- The order of two strings that begin with a byte each.
less_cons :
    (a b : ℕ) (as' bs : List ℕ)
    → less_bytes (a ∷ as') (b ∷ bs) ≡ true
    → (a < b) ⊎ ((a ≡ b) × (less_bytes as' bs ≡ true))
unfolding less_bytes
less_cons a b as' bs h = ground arith

cons_less :
    (a b : ℕ) (as' bs : List ℕ)
    → (a < b) ⊎ ((a ≡ b) × (less_bytes as' bs ≡ true))
    → less_bytes (a ∷ as') (b ∷ bs) ≡ true
unfolding less_bytes
cons_less a b as' bs (inl h) = ground arith
cons_less a b as' bs (inr (e, h)) = ground arith

less_trans :
    (as' bs cs : List ℕ)
    → less_bytes as' bs ≡ true
    → less_bytes bs cs ≡ true
    → less_bytes as' cs ≡ true
unfolding less_bytes
less_trans as' [] cs h k = cc h
less_trans as' (b ∷ bs) [] h k = cc k
less_trans [] (b ∷ bs) (c ∷ cs) h k = refl
less_trans (a ∷ as') (b ∷ bs) (c ∷ cs) h k = cons_less a c as' cs (elim (less_cons a b as' bs h) [
  | inl p ↦ elim (less_cons b c bs cs k) [
    | inl q ↦ inl (omega arith)
    | inr (q, l) ↦ inl (omega arith)
  ]
  | inr (p, l) ↦ elim (less_cons b c bs cs k) [
    | inl q ↦ inl (omega arith)
    | inr (q, m) ↦ inr (omega arith, less_trans as' bs cs l m)
  ]
])

less_irrefl : (as' : List ℕ) → less_bytes as' as' ≡ false
unfolding less_bytes
less_irrefl [] = refl
less_irrefl (a ∷ as') = ground (arith, less_irrefl as')

total :
    (as' bs : List ℕ)
    → same_bytes as' bs ≡ false
    → less_bytes bs as' ≡ false
    → less_bytes as' bs ≡ true
unfolding less_bytes
total [] [] h k = cc h
total [] (b ∷ bs) h k = refl
total (a ∷ as') [] h k = cc k
total (a ∷ as') (b ∷ bs) h k = elim (Bool-cases (ltb a b)) [
  | inl lt ↦ cons_less a b as' bs (inl (ltb→lt a b lt))
  | inr ge ↦
      let same : a ≡ b = ground arith in
      cons_less a b as' bs (inr (same, total as' bs (ground arith) (ground arith)))
]

IsBefore-trans :
    (k l : List ℕ) (ps : List Pair) → less_bytes k l ≡ true → IsBefore l ps → IsBefore k ps
IsBefore-trans k l [] h w = tt
IsBefore-trans k l (p ∷ ps) h w = (less_trans k l p.key h w.0, IsBefore-trans k l ps h w.1)

IsBefore-set_key :
    (k l v : List ℕ) (ps : List Pair)
    → less_bytes k l ≡ true
    → IsBefore k ps
    → IsBefore k (set_key l v ps)
unfolding set_key
IsBefore-set_key k l v [] h w = (h, tt)
IsBefore-set_key k l v (p ∷ ps) h w = elim (Bool-cases (same_bytes p.key l)) [
  | inl same ↦ rw same (h, w.1)
  | inr other ↦ elim (Bool-cases (less_bytes l p.key)) [
    | inl here ↦ rw (other, here) (h, w)
    | inr later ↦ rw (other, later) (w.0, IsBefore-set_key k l v ps h w.1)
  ]
]

pub set_key-AreOrdered :
    (k v : List ℕ) (ps : List Pair) → AreOrdered ps → AreOrdered (set_key k v ps)
unfolding set_key
set_key-AreOrdered k v [] w = (tt, tt)
set_key-AreOrdered k v (p ∷ ps) w = elim (Bool-cases (same_bytes p.key k)) [
  | inl same ↦ rw same (subst (λ x. IsBefore x ps) (same_bytes_eq p.key k same) w.0, w.1)
  | inr other ↦ elim (Bool-cases (less_bytes k p.key)) [
    | inl here ↦ rw (other, here) ((here, IsBefore-trans k p.key ps here w.0), w)
    | inr later ↦
        rw (other, later)
          (
            IsBefore-set_key p.key k v ps (total p.key k other later) w.0,
            set_key-AreOrdered k v ps w.1,
          )
  ]
]

pub execute-AreOrdered : (o : Op) (ps : List Pair) → AreOrdered ps → AreOrdered (execute o ps)
unfolding execute
execute-AreOrdered o ps w = elim (Bool-cases (same_bytes o.method put_name)) [
  | inl put ↦ rw (put, execute) (set_key-AreOrdered o.key o.value ps w)
  | inr other ↦ elim (Bool-cases (same_bytes o.method append_name)) [
    | inl more ↦
        rw (other, more, execute) (set_key-AreOrdered o.key (value_of o.key ps ++ o.value) ps w)
    | inr none' ↦ rw (other, none', execute) w
  ]
]

-- A key that comes after all the others goes to the end.
pub set_key_last :
    (ps : List Pair) (p : Pair) (rest : List Pair)
    → AreOrdered (ps ++ p ∷ rest)
    → set_key p.key p.value ps ≡ ps ++ p ∷ []
unfolding set_key
set_key_last [] p rest w = refl
set_key_last (q ∷ ps) p rest w =
    let below = after ps w.0 in
    let apart : same_bytes q.key p.key ≡ false = elim (Bool-cases (same_bytes q.key p.key)) [
      | inl e ↦ cc (below, less_irrefl q.key, same_bytes_eq q.key p.key e)
      | inr e ↦ e
    ] in
    let above : less_bytes p.key q.key ≡ false = elim (Bool-cases (less_bytes p.key q.key)) [
      | inl e ↦ cc (less_trans p.key q.key p.key e below, less_irrefl p.key)
      | inr e ↦ e
    ] in
    rw (apart, above, set_key_last ps p rest w.1) refl
  where
    after : (qs : List Pair) → IsBefore q.key (qs ++ p ∷ rest) → less_bytes q.key p.key ≡ true
    after [] h = h.0
    after (x ∷ qs) h = after qs h.1
