-- ===== src/Porcupine/Shape.antt =====
-- kvraft/porcupine.cpp: the list of calls and returns, when a call is taken out with its return.
use chon_kv.Base.{
  ℕ, ◌≡◌, refl, ◌∙◌, inl, inr, Bool, true, false, if◌then◌else◌, ◌==◌, Bool-cases, List, [], ◌∷◌,
  ◌++◌, arith,
}
use chon_kv.Porcupine.{Node, call, ret, remove_ret, whole}

module _ {I O : Type 0} where
  abbrev pub has_ret : ℕ → List (Node I O) → Bool
  has_ret id [] = false
  has_ret id (call j i o ∷ xs) = has_ret id xs
  has_ret id (ret j ∷ xs) = let rest = has_ret id xs in if j == id then true else rest

  abbrev pub has_call : ℕ → List (Node I O) → Bool
  has_call id [] = false
  has_call id (call j i o ∷ xs) = let rest = has_call id xs in if j == id then true else rest
  has_call id (ret j ∷ xs) = has_call id xs

  -- Every call has its return behind it, and no two calls have one number.
  abbrev pub AreMatched : List (Node I O) → Type 0
  AreMatched [] = Unit {0}
  AreMatched (call id i o ∷ xs) =
      (has_ret id xs ≡ true) × ((has_call id xs ≡ false) × AreMatched xs)
  AreMatched (ret id ∷ xs) = AreMatched xs

  abbrev pub OnlyCalls : List (Node I O) → Type 0
  OnlyCalls [] = Unit {0}
  OnlyCalls (call id i o ∷ xs) = OnlyCalls xs
  OnlyCalls (ret id ∷ xs) = ⊥

  has_ret-remove :
      (j id : ℕ) (xs : List (Node I O))
      → (id == j) ≡ false
      → has_ret j (remove_ret id xs) ≡ has_ret j xs
  unfolding remove_ret
  has_ret-remove j id [] ne = refl
  has_ret-remove j id (call k i o ∷ xs) ne = has_ret-remove j id xs ne
  has_ret-remove j id (ret k ∷ xs) ne = elim (Bool-cases (k == id)) [
    | inl e ↦ let other : (k == j) ≡ false = ground arith in rw (e, other) refl
    | inr e ↦ rw e (rw (has_ret-remove j id xs ne) refl)
  ]

  pub has_call-remove :
      (j id : ℕ) (xs : List (Node I O)) → has_call j (remove_ret id xs) ≡ has_call j xs
  unfolding remove_ret
  has_call-remove j id [] = refl
  has_call-remove j id (call k i o ∷ xs) = rw (has_call-remove j id xs) refl
  has_call-remove j id (ret k ∷ xs) = elim (Bool-cases (k == id)) [
    | inl e ↦ rw e refl
    | inr e ↦ rw e (has_call-remove j id xs)
  ]

  AreMatched-remove :
      (id : ℕ) (xs : List (Node I O))
      → has_call id xs ≡ false
      → AreMatched xs
      → AreMatched (remove_ret id xs)
  unfolding remove_ret
  AreMatched-remove id [] h w = tt
  AreMatched-remove id (call j i o ∷ xs) h w = elim (Bool-cases (j == id)) [
    | inl e ↦ cc (rw e at h)
    | inr e ↦
        let ne : (id == j) ≡ false = ground arith in
        (
          has_ret-remove j id xs ne ∙ w.0,
          (has_call-remove j id xs ∙ w.1.0, AreMatched-remove id xs (rw e at h) w.1.1),
        )
  ]
  AreMatched-remove id (ret j ∷ xs) h w = elim (Bool-cases (j == id)) [
    | inl e ↦ rw e w
    | inr e ↦ rw e (AreMatched-remove id xs h w)
  ]

  -- The call in the middle.
  has_ret_lifted :
      (j id : ℕ) (i : I) (o : O) (xs ys : List (Node I O))
      → (id == j) ≡ false
      → has_ret j (xs ++ remove_ret id ys) ≡ has_ret j (xs ++ call id i o ∷ ys)
  has_ret_lifted j id i o [] ys ne = has_ret-remove j id ys ne
  has_ret_lifted j id i o (call k a b ∷ xs) ys ne = has_ret_lifted j id i o xs ys ne
  has_ret_lifted j id i o (ret k ∷ xs) ys ne = rw (has_ret_lifted j id i o xs ys ne) refl

  pub has_call_lifted :
      (j id : ℕ) (i : I) (o : O) (xs ys : List (Node I O))
      → has_call j (xs ++ call id i o ∷ ys) ≡ false
      → ((id == j) ≡ false) × (has_call j (xs ++ remove_ret id ys) ≡ false)
  has_call_lifted j id i o [] ys h = elim (Bool-cases (id == j)) [
    | inl e ↦ cc (rw e at h)
    | inr e ↦ (e, has_call-remove j id ys ∙ (rw e at h))
  ]
  has_call_lifted j id i o (call k a b ∷ xs) ys h = elim (Bool-cases (k == j)) [
    | inl e ↦ cc (rw e at h)
    | inr e ↦ let r = has_call_lifted j id i o xs ys (rw e at h) in (r.0, rw e r.1)
  ]
  has_call_lifted j id i o (ret k ∷ xs) ys h = has_call_lifted j id i o xs ys h

  pub AreMatched_lifted :
      (id : ℕ) (i : I) (o : O) (xs ys : List (Node I O))
      → AreMatched (xs ++ call id i o ∷ ys)
      → AreMatched (xs ++ remove_ret id ys)
  AreMatched_lifted id i o [] ys w = AreMatched-remove id ys w.1.0 w.1.1
  AreMatched_lifted id i o (call j a b ∷ xs) ys w =
      let r = has_call_lifted j id i o xs ys w.1.0 in
      (has_ret_lifted j id i o xs ys r.0 ∙ w.0, (r.1, AreMatched_lifted id i o xs ys w.1.1))
  AreMatched_lifted id i o (ret j ∷ xs) ys w = AreMatched_lifted id i o xs ys w

  no_ret : (id : ℕ) (xs : List (Node I O)) → OnlyCalls xs → has_ret id xs ≡ false
  no_ret id [] h = refl
  no_ret id (call j i o ∷ xs) h = no_ret id xs h
  no_ret id (ret j ∷ xs) h = absurd h

  -- Calls alone, each with its return, are none.
  pub AreMatched-OnlyCalls : (xs : List (Node I O)) → AreMatched xs → OnlyCalls xs → xs ≡ []
  AreMatched-OnlyCalls [] w h = refl
  AreMatched-OnlyCalls (call id i o ∷ xs) w h = cc (w.0, no_ret id xs h)
  AreMatched-OnlyCalls (ret id ∷ xs) w h = absurd h

  -- What stands before a place, in the order of the list.
  abbrev pub forwards : List (Node I O) → List (Node I O)
  forwards before = whole before []

  whole-append :
      (before xs rest : List (Node I O)) → whole before (xs ++ rest) ≡ whole before xs ++ rest
  unfolding whole
  whole-append [] xs rest = refl
  whole-append (x ∷ before) xs rest = whole-append before (x ∷ xs) rest

  pub whole-forwards : (before rest : List (Node I O)) → whole before rest ≡ forwards before ++ rest
  whole-forwards before rest = whole-append before [] rest

  OnlyCalls-whole :
      (before xs : List (Node I O)) → OnlyCalls before → OnlyCalls xs → OnlyCalls (whole before xs)
  unfolding whole
  OnlyCalls-whole [] xs h k = k
  OnlyCalls-whole (call id i o ∷ before) xs h k = OnlyCalls-whole before (call id i o ∷ xs) h k
  OnlyCalls-whole (ret id ∷ before) xs h k = absurd h

  pub OnlyCalls-forwards :
      (before : List (Node I O)) → OnlyCalls before → OnlyCalls (forwards before)
  OnlyCalls-forwards before h = OnlyCalls-whole before [] h tt
