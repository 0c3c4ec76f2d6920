-- ===== src/Porcupine/History.antt =====
-- kvraft/porcupine.cpp: MakeLinkedEntries, the list of a history whose operations end after they begin.
use chon_kv.Base.{
  ℕ, suc, ◌*◌, ◌≤◌, ◌<◌, ◌≡◌, refl, ap, ◌∙◌, inl, inr, true, false, if◌then◌else◌, leb, ◌==◌,
  Bool-cases, List, [], ◌∷◌, length, arith,
}
use chon_kv.Codec.RoundTrip.{All}
use chon_kv.Porcupine.{
  Operation, Node, call, ret, TimeEntry, insert_entry, sort_entries, nodes_of, make_entries,
}
use chon_kv.Porcupine.Shape.{AreMatched, has_ret, has_call}
use chon_kv.Porcupine.Sound.{IsHistory}

module _ {I O : Type 0} where
  abbrev pub at_ret : ℕ → ℕ → TimeEntry I O
  at_ret t id = record { time_ns = t; node = ret id }

  abbrev pub at_call : ℕ → ℕ → I → O → TimeEntry I O
  at_call t id i o = record { time_ns = t; node = call id i o }

  -- Two lists with the same calls and returns behind any one entry.
  has_ret_cons :
      (id : ℕ) (x : Node I O) (xs ys : List (Node I O))
      → has_ret id xs ≡ has_ret id ys
      → has_ret id (x ∷ xs) ≡ has_ret id (x ∷ ys)
  has_ret_cons id (call j i o) xs ys h = h
  has_ret_cons id (ret j) xs ys h = rw h refl

  has_call_cons :
      (id : ℕ) (x : Node I O) (xs ys : List (Node I O))
      → has_call id xs ≡ has_call id ys
      → has_call id (x ∷ xs) ≡ has_call id (x ∷ ys)
  has_call_cons id (call j i o) xs ys h = rw h refl
  has_call_cons id (ret j) xs ys h = h

  has_ret_swap :
      (id : ℕ) (x : Node I O) (j : ℕ) (xs : List (Node I O))
      → has_ret id (x ∷ ret j ∷ xs) ≡ has_ret id (ret j ∷ x ∷ xs)
  has_ret_swap id (call k i o) j xs = refl
  has_ret_swap id (ret k) j xs = elim (Bool-cases (k == id)) [
    | inl e ↦ rw e (elim (Bool-cases (j == id)) [ inl g ↦ rw g refl | inr g ↦ rw g refl ])
    | inr e ↦ rw e refl
  ]

  insert_ret-has_ret :
      (id t j : ℕ) (es : List (TimeEntry I O))
      → has_ret id (nodes_of (insert_entry (at_ret t j) es)) ≡ has_ret id (ret j ∷ nodes_of es)
  unfolding insert_entry nodes_of
  insert_ret-has_ret id t j [] = refl
  insert_ret-has_ret id t j (f ∷ fs) = elim (Bool-cases (leb t f.time_ns)) [
    | inl e ↦ rw (e, insert_entry, nodes_of) refl
    | inr e ↦
        rw (e, insert_entry, nodes_of)
          (has_ret_cons id f.node _ _ (insert_ret-has_ret id t j fs)
            ∙ has_ret_swap id f.node j (nodes_of fs))
  ]

  insert_call-has_ret :
      (id t j : ℕ) (i : I) (o : O) (es : List (TimeEntry I O))
      → has_ret id (nodes_of (insert_entry (at_call t j i o) es)) ≡ has_ret id (nodes_of es)
  unfolding insert_entry nodes_of
  insert_call-has_ret id t j i o [] = refl
  insert_call-has_ret id t j i o (f ∷ fs) = elim (Bool-cases (leb t f.time_ns)) [
    | inl e ↦ rw (e, insert_entry, nodes_of) refl
    | inr e ↦
        rw (e, insert_entry, nodes_of)
          (has_ret_cons id f.node _ _ (insert_call-has_ret id t j i o fs))
  ]

  insert_ret-has_call :
      (id t j : ℕ) (es : List (TimeEntry I O))
      → has_call id (nodes_of (insert_entry (at_ret t j) es)) ≡ has_call id (nodes_of es)
  unfolding insert_entry nodes_of
  insert_ret-has_call id t j [] = refl
  insert_ret-has_call id t j (f ∷ fs) = elim (Bool-cases (leb t f.time_ns)) [
    | inl e ↦ rw (e, insert_entry, nodes_of) refl
    | inr e ↦
        rw (e, insert_entry, nodes_of) (has_call_cons id f.node _ _ (insert_ret-has_call id t j fs))
  ]

  insert_call-has_call :
      (id t j : ℕ) (i : I) (o : O) (es : List (TimeEntry I O))
      → (j == id) ≡ false
      → has_call id (nodes_of (insert_entry (at_call t j i o) es)) ≡ has_call id (nodes_of es)
  unfolding insert_entry nodes_of
  insert_call-has_call id t j i o [] ne = rw ne refl
  insert_call-has_call id t j i o (f ∷ fs) ne = elim (Bool-cases (leb t f.time_ns)) [
    | inl e ↦ rw (e, insert_entry, nodes_of, ne) refl
    | inr e ↦
        rw (e, insert_entry, nodes_of)
          (has_call_cons id f.node _ _ (insert_call-has_call id t j i o fs ne))
  ]

  -- What stands from a time on.
  abbrev from_time : ℕ → List (TimeEntry I O) → List (TimeEntry I O)
  from_time t [] = []
  from_time t (f ∷ fs) = let rest = from_time t fs in if leb t f.time_ns then f ∷ fs else rest

  insert_ret-from_time :
      (t r id : ℕ) (es : List (TimeEntry I O))
      → t ≤ r
      → has_ret id (nodes_of (from_time t (insert_entry (at_ret r id) es))) ≡ true
  unfolding insert_entry nodes_of
  insert_ret-from_time t r id [] h =
      let now : leb t r ≡ true = ground (arith, h) in
      let same : (id == id) ≡ true = ground arith in rw (now, same) refl
  insert_ret-from_time t r id (f ∷ fs) h =
      let now : leb t r ≡ true = ground (arith, h) in
      let same : (id == id) ≡ true = ground arith in
      elim (Bool-cases (leb r f.time_ns)) [
        | inl e ↦ rw (e, now, same) refl
        | inr e ↦ elim (Bool-cases (leb t f.time_ns)) [
          | inl g ↦
              rw (e, g)
                (has_ret_cons id f.node _ _ (insert_ret-has_ret id r id fs)
                  ∙ has_ret_swap id f.node id (nodes_of fs)
                  ∙ rw same refl)
          | inr g ↦ rw (e, g) (insert_ret-from_time t r id fs h)
        ]
      ]

  AreMatched_cons :
      (x : Node I O) (xs ys : List (Node I O))
      → ((id : ℕ) → has_ret id xs ≡ true → has_ret id ys ≡ true)
      → ((id : ℕ) → has_call id (x ∷ []) ≡ true → has_call id xs ≡ false → has_call id ys ≡ false)
      → AreMatched ys
      → AreMatched (x ∷ xs)
      → AreMatched (x ∷ ys)
  AreMatched_cons (call j i o) xs ys f g v w =
      let same : (j == j) ≡ true = ground arith in (f j w.0, (g j (rw same refl) w.1.0, v))
  AreMatched_cons (ret j) xs ys f g v w = v

  AreMatched_tail : (x : Node I O) (xs : List (Node I O)) → AreMatched (x ∷ xs) → AreMatched xs
  AreMatched_tail (call j i o) xs w = w.1.1
  AreMatched_tail (ret j) xs w = w

  -- A further return takes nothing away.
  has_ret_more :
      (id j : ℕ) (xs : List (Node I O)) → has_ret id xs ≡ true → has_ret id (ret j ∷ xs) ≡ true
  has_ret_more id j xs h = elim (Bool-cases (j == id)) [ inl e ↦ rw e refl | inr e ↦ rw e h ]

  insert_ret-AreMatched :
      (t j : ℕ) (es : List (TimeEntry I O))
      → AreMatched (nodes_of es)
      → AreMatched (nodes_of (insert_entry (at_ret t j) es))
  unfolding insert_entry nodes_of
  insert_ret-AreMatched t j [] w = tt
  insert_ret-AreMatched t j (f ∷ fs) w = elim (Bool-cases (leb t f.time_ns)) [
    | inl e ↦ rw (e, insert_entry, nodes_of) w
    | inr e ↦
        rw (e, insert_entry, nodes_of)
          (AreMatched_cons f.node (nodes_of fs) _
            (λ id h. insert_ret-has_ret id t j fs ∙ has_ret_more id j (nodes_of fs) h)
            (λ id _ h. insert_ret-has_call id t j fs ∙ h)
            (insert_ret-AreMatched t j fs (AreMatched_tail f.node (nodes_of fs) w)) w)
  ]

  -- A call of another number than those of the calls in a list.
  other_call :
      (id : ℕ) (x : Node I O) (xs : List (Node I O)) (k : ℕ)
      → has_call id (x ∷ xs) ≡ false
      → has_call k (x ∷ []) ≡ true
      → (id == k) ≡ false
  other_call id (call j i o) xs k h g = elim (Bool-cases (j == id)) [
    | inl e ↦ cc (rw e at h)
    | inr e ↦ elim (Bool-cases (j == k)) [ inl p ↦ ground arith | inr p ↦ cc (rw p at g) ]
  ]
  other_call id (ret j) xs k h g = cc g

  has_call_rest :
      (id : ℕ) (x : Node I O) (xs : List (Node I O))
      → has_call id (x ∷ xs) ≡ false
      → has_call id xs ≡ false
  has_call_rest id (call j i o) xs h = elim (Bool-cases (j == id)) [
    | inl e ↦ cc (rw e at h)
    | inr e ↦ rw e at h
  ]
  has_call_rest id (ret j) xs h = h

  insert_call-AreMatched :
      (t j : ℕ) (i : I) (o : O) (es : List (TimeEntry I O))
      → has_ret j (nodes_of (from_time t es)) ≡ true
      → has_call j (nodes_of es) ≡ false
      → AreMatched (nodes_of es)
      → AreMatched (nodes_of (insert_entry (at_call t j i o) es))
  unfolding insert_entry nodes_of
  insert_call-AreMatched t j i o [] r h w = cc r
  insert_call-AreMatched t j i o (f ∷ fs) r h w = elim (Bool-cases (leb t f.time_ns)) [
    | inl e ↦ rw (e, insert_entry, nodes_of) ((rw e at r), (h, w))
    | inr e ↦
        rw (e, insert_entry, nodes_of)
          (AreMatched_cons f.node (nodes_of fs) _ (λ id p. insert_call-has_ret id t j i o fs ∙ p)
            (λ id g p.
              insert_call-has_call id t j i o fs (other_call j f.node (nodes_of fs) id h g) ∙ p)
            (insert_call-AreMatched t j i o fs (rw e at r) (has_call_rest j f.node (nodes_of fs) h)
              (AreMatched_tail f.node (nodes_of fs) w))
            w)
  ]

  -- The operations after the first have later numbers.
  no_call_before :
      (k n : ℕ) (os : List (Operation I O))
      → k < n
      → has_call k (nodes_of (sort_entries n os)) ≡ false
  unfolding sort_entries nodes_of
  no_call_before k n [] h = refl
  no_call_before k n (o ∷ os) h =
      let ne : (n == k) ≡ false = ground (arith, h) in
      insert_call-has_call k o.call_time_ns n o.input o.output _ ne
      ∙ insert_ret-has_call k o.return_time_ns n (sort_entries (suc n) os)
      ∙ no_call_before k (suc n) os (omega arith)

  -- An operation that returns after its call.
  abbrev pub EndsAfterCall : Operation I O → Type 0
  EndsAfterCall o = o.call_time_ns < o.return_time_ns

  pub sort_entries-AreMatched :
      (n : ℕ) (os : List (Operation I O))
      → All EndsAfterCall os
      → AreMatched (nodes_of (sort_entries n os))
  unfolding sort_entries nodes_of
  sort_entries-AreMatched n [] h = tt
  sort_entries-AreMatched n (o ∷ os) h =
      insert_call-AreMatched o.call_time_ns n o.input o.output
        (insert_entry (at_ret o.return_time_ns n) (sort_entries (suc n) os))
        (insert_ret-from_time o.call_time_ns o.return_time_ns n (sort_entries (suc n) os)
          (omega (arith, h.0)))
        (insert_ret-has_call n o.return_time_ns n (sort_entries (suc n) os)
          ∙ no_call_before n (suc n) os (omega arith))
        (insert_ret-AreMatched o.return_time_ns n (sort_entries (suc n) os)
          (sort_entries-AreMatched (suc n) os h.1))

  length-insert_entry :
      (e : TimeEntry I O) (es : List (TimeEntry I O))
      → length (nodes_of (insert_entry e es)) ≡ suc (length (nodes_of es))
  unfolding insert_entry nodes_of
  length-insert_entry e [] = refl
  length-insert_entry e (f ∷ fs) = elim (Bool-cases (leb e.time_ns f.time_ns)) [
    | inl h ↦ rw (h, insert_entry, nodes_of) refl
    | inr h ↦ rw (h, insert_entry, nodes_of) (ap suc (length-insert_entry e fs))
  ]

  pub length-sort_entries :
      (n : ℕ) (os : List (Operation I O)) → length (nodes_of (sort_entries n os)) ≡ 2 * length os
  unfolding sort_entries nodes_of
  length-sort_entries n [] = omega arith
  length-sort_entries n (o ∷ os) = omega (
    arith,
    length-insert_entry (at_call o.call_time_ns n o.input o.output)
        (insert_entry (at_ret o.return_time_ns n) (sort_entries (suc n) os)),
    length-insert_entry (at_ret o.return_time_ns n) (sort_entries (suc n) os),
    length-sort_entries (suc n) os,
  )

  -- Such a list is one that the search takes.
  pub make_entries-IsHistory :
      (os : List (Operation I O)) → All EndsAfterCall os → IsHistory (make_entries os)
  unfolding make_entries
  make_entries-IsHistory os h = record {
    matched = sort_entries-AreMatched 0 os h;
    operations = length os;
    count = length-sort_entries 0 os;
  }
