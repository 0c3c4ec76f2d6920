-- ===== src/Porcupine/Lifted.antt =====
-- kvraft/porcupine.cpp: the list with its times, when a call is taken out with its return.
use chon_kv.Base.{
  ℕ, ◌≤◌, ◌≡◌, ◌≢◌, refl, sym, ap, ◌∙◌, subst, ◌⊎◌, inl, inr, Bool, true, false, if◌then◌else◌,
  ◌==◌, Bool-cases, List, [], ◌∷◌, ◌++◌, arith,
}
use chon_kv.Porcupine.{Node, call, ret, TimeEntry, nodes_of, remove_ret}
use chon_kv.Porcupine.Shape.{AreMatched, OnlyCalls, has_call, has_call-remove, has_call_lifted}
use chon_kv.Porcupine.History.{at_ret, at_call}
use chon_kv.Porcupine.Members.{Member, All_at, All-of}
use chon_kv.Porcupine.Times.{IsSorted}

module _ {I O : Type 0} where
  abbrev is_ret : ℕ → Node I O → Bool
  is_ret id (call j i o) = false
  is_ret id (ret j) = j == id

  pub without_ret : ℕ → List (TimeEntry I O) → List (TimeEntry I O)
  without_ret id [] = []
  without_ret id (e ∷ es) =
      let rest = without_ret id es in if is_ret id e.node then es else e ∷ rest

  remove_ret_if :
      (id : ℕ) (x : Node I O) (xs : List (Node I O))
      → remove_ret id (x ∷ xs)
        ≡ (let rest = remove_ret id xs in if is_ret id x then xs else x ∷ rest)
  unfolding remove_ret
  remove_ret_if id (call j i o) xs = refl
  remove_ret_if id (ret j) xs = refl

  pub nodes_of-without_ret :
      (id : ℕ) (es : List (TimeEntry I O))
      → nodes_of (without_ret id es) ≡ remove_ret id (nodes_of es)
  unfolding without_ret nodes_of remove_ret
  nodes_of-without_ret id [] = refl
  nodes_of-without_ret id (e ∷ es) = elim (Bool-cases (is_ret id e.node)) [
    | inl g ↦ rw (remove_ret_if id e.node (nodes_of es), g, without_ret, nodes_of) refl
    | inr g ↦
        rw (remove_ret_if id e.node (nodes_of es), g, without_ret, nodes_of)
          (ap (λ r. e.node ∷ r) (nodes_of-without_ret id es))
  ]

  -- What is left was there, and no more than the return of one number goes.
  pub without_ret_out :
      (x : TimeEntry I O) (id : ℕ) (es : List (TimeEntry I O))
      → Member x (without_ret id es)
      → Member x es
  unfolding without_ret
  without_ret_out x id [] h = h
  without_ret_out x id (e ∷ es) h = elim (Bool-cases (is_ret id e.node)) [
    | inl g ↦ inr (rw (g, without_ret) at h)
    | inr g ↦ elim (rw (g, without_ret) at h) [
      | inl p ↦ inl p
      | inr p ↦ inr (without_ret_out x id es p)
    ]
  ]

  pub without_ret_in :
      (t j id : ℕ) (es : List (TimeEntry I O))
      → j ≢ id
      → Member (at_ret t j) es
      → Member (at_ret t j) (without_ret id es)
  unfolding without_ret
  without_ret_in t j id [] ne h = h
  without_ret_in t j id (e ∷ es) ne h = elim (Bool-cases (is_ret id e.node)) [
    | inl g ↦
        rw (g, without_ret)
          (elim h [
            | inl p ↦ absurd (ne (same (subst (λ x. is_ret id x.node ≡ true) (sym p) g)))
            | inr p ↦ p
          ])
    | inr g ↦
        rw (g, without_ret) (elim h [ inl p ↦ inl p | inr p ↦ inr (without_ret_in t j id es ne p) ])
  ]
    where
      same : (j == id) ≡ true → j ≡ id
      same h = ground (arith, h)

  without_ret-IsSorted :
      (id : ℕ) (es : List (TimeEntry I O)) → IsSorted es → IsSorted (without_ret id es)
  unfolding without_ret
  without_ret-IsSorted id [] w = tt
  without_ret-IsSorted id (e ∷ es) w = elim (Bool-cases (is_ret id e.node)) [
    | inl g ↦ rw (g, without_ret) w.1
    | inr g ↦
        rw (g, without_ret)
          (
            All-of _ (without_ret id es)
                (λ x h. All_at (λ y. e.time_ns ≤ y.time_ns) x es w.0 (without_ret_out x id es h)),
            without_ret-IsSorted id es w.1,
          )
  ]

  -- The list of entries, cut where its nodes are.
  pub record Cut (es : List (TimeEntry I O)) (xs : List (Node I O)) (x : Node I O)
      (ys : List (Node I O)) : Type 0 where
    pub before : List (TimeEntry I O)
    pub entry : TimeEntry I O
    pub after : List (TimeEntry I O)
    pub whole : es ≡ before ++ entry ∷ after
    pub nodes_before : nodes_of before ≡ xs
    pub node : entry.node ≡ x
    pub nodes_after : nodes_of after ≡ ys

  pub cut :
      (es : List (TimeEntry I O)) (xs : List (Node I O)) (x : Node I O) (ys : List (Node I O))
      → nodes_of es ≡ xs ++ x ∷ ys
      → Cut es xs x ys
  unfolding nodes_of
  cut [] [] x ys h = cc h
  cut [] (y ∷ xs) x ys h = cc h
  cut (e ∷ es) [] x ys h = record {
    before = [];
    entry = e;
    after = es;
    whole = refl;
    nodes_before = refl;
    node = cc h;
    nodes_after = cc h;
  }
  cut (e ∷ es) (y ∷ xs) x ys h =
      let rest = cut es xs x ys (tail h) in
      record {
        before = e ∷ rest.before;
        entry = rest.entry;
        after = rest.after;
        whole = ap (λ t. e ∷ t) rest.whole;
        nodes_before = cc (h, rest.nodes_before);
        node = rest.node;
        nodes_after = rest.nodes_after;
      }
    where
      tail : e.node ∷ nodes_of es ≡ y ∷ xs ++ x ∷ ys → nodes_of es ≡ xs ++ x ∷ ys
      tail p = cc p

  OnlyCalls-tail : (x : Node I O) (xs : List (Node I O)) → OnlyCalls (x ∷ xs) → OnlyCalls xs
  OnlyCalls-tail (call id i o) xs h = h
  OnlyCalls-tail (ret id) xs h = absurd h

  -- Behind the first call comes whatever is no call.
  pub ret_after :
      (t id : ℕ) (e : TimeEntry I O) (before after : List (TimeEntry I O))
      → OnlyCalls (nodes_of before)
      → IsSorted (before ++ e ∷ after)
      → Member (at_ret t id) (before ++ e ∷ after)
      → (at_ret t id ≡ e) ⊎ (e.time_ns ≤ t)
  unfolding nodes_of
  ret_after t id e [] after c w (inl p) = inl p
  ret_after t id e [] after c w (inr p) =
      inr (All_at (λ y. e.time_ns ≤ y.time_ns) (at_ret t id) after w.0 p)
  ret_after t id e (b ∷ before) after c w (inl p) =
      absurd (subst (λ n. OnlyCalls (n ∷ nodes_of before)) (sym (ap (λ x. x.node) p)) c)
  ret_after t id e (b ∷ before) after c w (inr p) =
      ret_after t id e before after (OnlyCalls-tail b.node (nodes_of before) c) w.1 p

  pub Member-append :
      (x : TimeEntry I O) (before after : List (TimeEntry I O))
      → Member x (before ++ after)
      → Member x before ⊎ Member x after
  Member-append x [] after h = inr h
  Member-append x (b ∷ before) after (inl p) = inl (inl p)
  Member-append x (b ∷ before) after (inr p) = elim (Member-append x before after p) [
    | inl q ↦ inl (inr q)
    | inr q ↦ inr q
  ]

  pub Member-before :
      (x : TimeEntry I O) (before after : List (TimeEntry I O))
      → Member x before
      → Member x (before ++ after)
  Member-before x [] after h = absurd h
  Member-before x (b ∷ before) after (inl p) = inl p
  Member-before x (b ∷ before) after (inr p) = inr (Member-before x before after p)

  pub Member-after :
      (x : TimeEntry I O) (before after : List (TimeEntry I O))
      → Member x after
      → Member x (before ++ after)
  Member-after x [] after h = h
  Member-after x (b ∷ before) after h = inr (Member-after x before after h)

  pub nodes_of-append :
      (before after : List (TimeEntry I O))
      → nodes_of (before ++ after) ≡ nodes_of before ++ nodes_of after
  unfolding nodes_of
  nodes_of-append [] after = refl
  nodes_of-append (b ∷ before) after = ap (λ t. b.node ∷ t) (nodes_of-append before after)

  -- A list of which a part is left out stays in order.
  pub IsSorted-without :
      (id : ℕ) (before : List (TimeEntry I O)) (e : TimeEntry I O) (after : List (TimeEntry I O))
      → IsSorted (before ++ e ∷ after)
      → IsSorted (before ++ without_ret id after)
  IsSorted-without id [] e after w = without_ret-IsSorted id after w.1
  IsSorted-without id (b ∷ before) e after w = (
    All-of _ (before ++ without_ret id after) (λ x h. there x (Member-append x before _ h)),
    IsSorted-without id before e after w.1,
  )
    where
      at : (x : TimeEntry I O) → Member x (before ++ e ∷ after) → b.time_ns ≤ x.time_ns
      at x h = All_at (λ y. b.time_ns ≤ y.time_ns) x (before ++ e ∷ after) w.0 h

      there :
          (x : TimeEntry I O)
          → Member x before ⊎ Member x (without_ret id after)
          → b.time_ns ≤ x.time_ns
      there x (inl p) = at x (Member-before x before (e ∷ after) p)
      there x (inr p) =
          at x (Member-after x before (e ∷ after) (inr (without_ret_out x id after p)))

  -- The calls that are left have other numbers.
  pub called_no_more :
      (id : ℕ) (i : I) (o : O) (xs ys : List (Node I O))
      → AreMatched (xs ++ call id i o ∷ ys)
      → has_call id (xs ++ remove_ret id ys) ≡ false
  called_no_more id i o [] ys w = has_call-remove id id ys ∙ w.1.0
  called_no_more id i o (call j a b ∷ xs) ys w =
      let other = has_call_lifted j id i o xs ys w.1.0 in
      let ne : (j == id) ≡ false = ground (arith, other.0) in
      rw (ne, called_no_more id i o xs ys w.1.1) refl
  called_no_more id i o (ret j ∷ xs) ys w = called_no_more id i o xs ys w

  pub called_other :
      (t j id : ℕ) (i : I) (o : O) (es : List (TimeEntry I O))
      → has_call id (nodes_of es) ≡ false
      → Member (at_call t j i o) es
      → j ≢ id
  unfolding nodes_of
  called_other t j id i o [] h g = absurd g
  called_other t j id i o (e ∷ es) h (inl p) = λ same.
      elsewhere same
        (subst (λ x. has_call id (x ∷ nodes_of es) ≡ false) (sym (ap (λ x. x.node) p)) h)
    where
      elsewhere : j ≡ id → has_call id (call j i o ∷ nodes_of es) ≡ false → ⊥
      elsewhere same h = elim (Bool-cases (j == id)) [
        | inl q ↦ cc (rw q at h)
        | inr q ↦ ground (arith, q, same)
      ]
  called_other t j id i o (e ∷ es) h (inr p) = called_other t j id i o es (rest e.node h) p
    where
      rest :
          (x : Node I O) → has_call id (x ∷ nodes_of es) ≡ false → has_call id (nodes_of es) ≡ false
      rest (call k a b) h = elim (Bool-cases (k == id)) [
        | inl q ↦ cc (rw q at h)
        | inr q ↦ rw q at h
      ]
      rest (ret k) h = h
