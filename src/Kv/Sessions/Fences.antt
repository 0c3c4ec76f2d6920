-- ===== src/Kv/Sessions/Fences.antt =====
-- kvraft/server.cpp: looking up a tombstone after one was added or refreshed.
use chon_kv.Base.{
  ℕ, suc, ◌≤◌, ◌<◌, ◌≡◌, refl, inl, inr, true, false, ltb, Bool-cases, Option-cases, none, some, ℤ,
  eqz, eqz_iff, List, [], ◌∷◌, ◌++◌, arith, length, length-append,
}
use chon_kv.Kv.Sessions.{Fence, find_fence, set_fence, add_fence}

pub eqz_same : (a : ℤ) → eqz a a ≡ true
eqz_same a = (eqz_iff a a).1 refl

find_fence-append_new :
    (c : ℤ) (n : Fence) (fs : List Fence)
    → find_fence c fs ≡ none
    → eqz n.client_id c ≡ true
    → find_fence c (fs ++ n ∷ []) ≡ some n
unfolding find_fence
find_fence-append_new c n [] h e = rw e refl
find_fence-append_new c n (f ∷ fs) h e = elim (Bool-cases (eqz f.client_id c)) [
  | inl same ↦ cc (rw same at h)
  | inr other ↦ rw other (find_fence-append_new c n fs (rw other at h) e)
]

find_fence-append_other :
    (c : ℤ) (n : Fence) (fs : List Fence)
    → eqz n.client_id c ≡ false
    → find_fence c (fs ++ n ∷ []) ≡ find_fence c fs
unfolding find_fence
find_fence-append_other c n [] e = rw e refl
find_fence-append_other c n (f ∷ fs) e = rw (find_fence-append_other c n fs e) refl

find_fence-set_same :
    (n f : Fence) (fs : List Fence)
    → find_fence n.client_id fs ≡ some f
    → find_fence n.client_id (set_fence n fs) ≡ some n
unfolding find_fence set_fence
find_fence-set_same n f [] h = cc h
find_fence-set_same n f (g ∷ fs) h = elim (Bool-cases (eqz g.client_id n.client_id)) [
  | inl same ↦ rw (same, eqz_same n.client_id) refl
  | inr other ↦ rw (other, other) (find_fence-set_same n f fs (rw other at h))
]

find_fence-set_other :
    (c : ℤ) (n : Fence) (fs : List Fence)
    → eqz n.client_id c ≡ false
    → find_fence c (set_fence n fs) ≡ find_fence c fs
unfolding find_fence set_fence
find_fence-set_other c n [] e = refl
find_fence-set_other c n (g ∷ fs) e = elim (Bool-cases (eqz g.client_id n.client_id)) [
  | inl same ↦ rw (same, e, (eqz_iff g.client_id n.client_id).0 same, e) refl
  | inr other ↦ rw (other, find_fence-set_other c n fs e) refl
]

length-set_fence : (n : Fence) (fs : List Fence) → length (set_fence n fs) ≡ length fs
unfolding set_fence
length-set_fence n [] = refl
length-set_fence n (f ∷ fs) = elim (Bool-cases (eqz f.client_id n.client_id)) [
  | inl same ↦ rw same refl
  | inr other ↦ rw other (omega (arith, length-set_fence n fs))
]

-- While there is room, adding a tombstone sets the one client's and leaves the others'.
pub record Fenced (n : Fence) (fs gs : List Fence) : Type 0 where
  pub self : find_fence n.client_id gs ≡ some n
  pub others : (c : ℤ) → eqz n.client_id c ≡ false → find_fence c gs ≡ find_fence c fs
  pub count : length gs ≤ suc (length fs)

pub add_fence-Fenced :
    (limit : ℕ) (n : Fence) (fs : List Fence)
    → length fs < limit
    → Fenced n fs (add_fence limit n fs)
unfolding add_fence
add_fence-Fenced limit n fs room = elim (Option-cases (find_fence n.client_id fs)) [
  | inl new ↦
      let fits : ltb limit (length (fs ++ n ∷ [])) ≡ false =
        ground (arith, length-append fs (n ∷ [])) in
      rw (new, fits, add_fence)
        (record {
          self = find_fence-append_new n.client_id n fs new (eqz_same n.client_id);
          others = λ c e. find_fence-append_other c n fs e;
          count = omega (arith, length-append fs (n ∷ []));
        })
  | inr (f, old) ↦
      rw (old, add_fence)
        (record {
          self = find_fence-set_same n f fs old;
          others = λ c e. find_fence-set_other c n fs e;
          count = omega (arith, length-set_fence n fs);
        })
]
