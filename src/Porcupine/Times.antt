-- ===== src/Porcupine/Times.antt =====
-- kvraft/porcupine.cpp: the list of calls and returns with its times, as it is when some operations are
-- left to order.
use chon_kv.Base.{
  ℕ, suc, ◌≤◌, ◌<◌, ◌≡◌, ◌≢◌, refl, sym, ap, subst, ◌⊎◌, inl, inr, leb, Bool-cases, List, [], ◌∷◌,
  arith,
}
use chon_kv.Codec.RoundTrip.{All}
use chon_kv.Porcupine.Members.{Member, All_at, All-of}
use chon_kv.Porcupine.{Operation, Node, call, ret, TimeEntry, insert_entry, sort_entries, nodes_of}
use chon_kv.Porcupine.Shape.{AreMatched}
use chon_kv.Porcupine.History.{at_ret, at_call, EndsAfterCall, sort_entries-AreMatched}

module _ {I O : Type 0} where
  -- The entries do not come before earlier ones.
  abbrev pub IsSorted : List (TimeEntry I O) → Type 0
  IsSorted [] = Unit {0}
  IsSorted (e ∷ es) = All (λ f. e.time_ns ≤ f.time_ns) es × IsSorted es

  pub insert_in :
      (x e : TimeEntry I O) (es : List (TimeEntry I O))
      → (x ≡ e) ⊎ Member x es
      → Member x (insert_entry e es)
  unfolding insert_entry
  insert_in x e [] (inl h) = inl h
  insert_in x e [] (inr h) = absurd h
  insert_in x e (f ∷ fs) h = elim (Bool-cases (leb e.time_ns f.time_ns)) [
    | inl b ↦ rw (b, insert_entry) h
    | inr b ↦
        rw (b, insert_entry)
          (elim h [
            | inl p ↦ inr (insert_in x e fs (inl p))
            | inr (inl p) ↦ inl p
            | inr (inr p) ↦ inr (insert_in x e fs (inr p))
          ])
  ]

  pub insert_out :
      (x e : TimeEntry I O) (es : List (TimeEntry I O))
      → Member x (insert_entry e es)
      → (x ≡ e) ⊎ Member x es
  unfolding insert_entry
  insert_out x e [] h = h
  insert_out x e (f ∷ fs) h = elim (Bool-cases (leb e.time_ns f.time_ns)) [
    | inl b ↦ rw (b, insert_entry) at h
    | inr b ↦ elim (rw (b, insert_entry) at h) [
      | inl p ↦ inr (inl p)
      | inr p ↦ elim (insert_out x e fs p) [ inl q ↦ inl q | inr q ↦ inr (inr q) ]
    ]
  ]

  insert_entry-IsSorted :
      (e : TimeEntry I O) (es : List (TimeEntry I O)) → IsSorted es → IsSorted (insert_entry e es)
  unfolding insert_entry
  insert_entry-IsSorted e [] w = (tt, tt)
  insert_entry-IsSorted e (f ∷ fs) w = elim (Bool-cases (leb e.time_ns f.time_ns)) [
    | inl b ↦
        rw (b, insert_entry)
          ((ground (arith, b), All-of _ fs (λ x h. at_least x h (ground (arith, b)))), w)
    | inr b ↦
        rw (b, insert_entry)
          (
            All-of _ (insert_entry e fs) (λ x h. from x (insert_out x e fs h) (ground (arith, b))),
            insert_entry-IsSorted e fs w.1,
          )
  ]
    where
      at_least : (x : TimeEntry I O) → Member x fs → e.time_ns ≤ f.time_ns → e.time_ns ≤ x.time_ns
      at_least x h le = omega (arith, le, All_at (λ y. f.time_ns ≤ y.time_ns) x fs w.0 h)

      from :
          (x : TimeEntry I O)
          → (x ≡ e) ⊎ Member x fs
          → f.time_ns ≤ e.time_ns
          → f.time_ns ≤ x.time_ns
      from x (inl p) le = subst (λ y. f.time_ns ≤ y.time_ns) (sym p) le
      from x (inr h) le = All_at (λ y. f.time_ns ≤ y.time_ns) x fs w.0 h

  -- The operations with their numbers, from one on.
  abbrev pub numbered : ℕ → List (Operation I O) → List (ℕ × Operation I O)
  numbered n [] = []
  numbered n (o ∷ os) = (n, o) ∷ numbered (suc n) os

  abbrev pub AreNumbered : List (ℕ × Operation I O) → Type 0
  AreNumbered [] = Unit {0}
  AreNumbered (p ∷ ps) = All (λ q. q.0 ≢ p.0) ps × AreNumbered ps

  -- A call in the list and the operation it belongs to.
  pub record Called (ps : List (ℕ × Operation I O)) (t id : ℕ) (i : I) (o : O) : Type 0 where
    pub operation : Operation I O
    pub left : Member (id, operation) ps
    pub time : operation.call_time_ns ≡ t
    pub input : operation.input ≡ i
    pub output : operation.output ≡ o

  -- The list holds the calls and returns of the operations `ps`, in the order of their times.
  pub record IsMade (ps : List (ℕ × Operation I O)) (es : List (TimeEntry I O)) : Type 0 where
    pub calls : (t id : ℕ) (i : I) (o : O) → Member (at_call t id i o) es → Called ps t id i o
    pub rets :
        (id : ℕ) (op : Operation I O) → Member (id, op) ps → Member (at_ret op.return_time_ns id) es
    pub distinct : AreNumbered ps
    pub sorted : IsSorted es
    pub matched : AreMatched (nodes_of es)

  abbrev CalledNode : List (ℕ × Operation I O) → ℕ → Node I O → Type 0
  CalledNode ps t (call id i o) = Called ps t id i o
  CalledNode ps t (ret id) = Unit {0}

  abbrev CalledBy : List (ℕ × Operation I O) → TimeEntry I O → Type 0
  CalledBy ps e = CalledNode ps e.time_ns e.node

  more-CalledNode :
      (p : ℕ × Operation I O) (ps : List (ℕ × Operation I O)) (t : ℕ) (x : Node I O)
      → CalledNode ps t x
      → CalledNode (p ∷ ps) t x
  more-CalledNode p ps t (call id i o) c = record {
    operation = c.operation;
    left = inr c.left;
    time = c.time;
    input = c.input;
    output = c.output;
  }
  more-CalledNode p ps t (ret id) c = tt

  sort_entries-CalledBy :
      (n : ℕ) (os : List (Operation I O)) (e : TimeEntry I O)
      → Member e (sort_entries n os)
      → CalledBy (numbered n os) e
  unfolding sort_entries
  sort_entries-CalledBy n [] e h = absurd h
  sort_entries-CalledBy n (o ∷ os) e h =
      elim (insert_out e (at_call o.call_time_ns n o.input o.output)
        (insert_entry (at_ret o.return_time_ns n) (sort_entries (suc n) os)) h) [
          | inl p ↦
              subst (CalledBy (numbered n (o ∷ os))) (sym p) (record {
                operation = o;
                left = inl refl;
                time = refl;
                input = refl;
                output = refl;
              })
          | inr p ↦ elim (insert_out e (at_ret o.return_time_ns n) (sort_entries (suc n) os) p) [
            | inl q ↦ subst (CalledBy (numbered n (o ∷ os))) (sym q) tt
            | inr q ↦
                more-CalledNode (n, o) (numbered (suc n) os) e.time_ns e.node
                  (sort_entries-CalledBy (suc n) os e q)
          ]
        ]

  pub sort_entries_rets :
      (n : ℕ) (os : List (Operation I O)) (p : ℕ × Operation I O)
      → Member p (numbered n os)
      → Member (at_ret p.1.return_time_ns p.0) (sort_entries n os)
  unfolding sort_entries
  sort_entries_rets n [] p h = absurd h
  sort_entries_rets n (o ∷ os) p h =
      insert_in (at_ret p.1.return_time_ns p.0) (at_call o.call_time_ns n o.input o.output) _ (
        inr (
          insert_in (at_ret p.1.return_time_ns p.0) (at_ret o.return_time_ns n) _ (elim h [
            | inl e ↦ inl (ap (λ q. at_ret q.1.return_time_ns q.0) e)
            | inr g ↦ inr (sort_entries_rets (suc n) os p g)
          ])))

  numbered_later :
      (n k : ℕ) (os : List (Operation I O)) → n < k → All (λ q. q.0 ≢ n) (numbered k os)
  numbered_later n k [] h = tt
  numbered_later n k (o ∷ os) h =
      ((λ e. omega (arith, e, h)), numbered_later n (suc k) os (omega arith))

  numbered-AreNumbered : (n : ℕ) (os : List (Operation I O)) → AreNumbered (numbered n os)
  numbered-AreNumbered n [] = tt
  numbered-AreNumbered n (o ∷ os) =
      (numbered_later n (suc n) os (omega arith), numbered-AreNumbered (suc n) os)

  pub sort_entries-IsSorted : (n : ℕ) (os : List (Operation I O)) → IsSorted (sort_entries n os)
  unfolding sort_entries
  sort_entries-IsSorted n [] = tt
  sort_entries-IsSorted n (o ∷ os) =
      insert_entry-IsSorted _ _ (insert_entry-IsSorted _ _ (sort_entries-IsSorted (suc n) os))

  pub sort_entries-IsMade :
      (n : ℕ) (os : List (Operation I O))
      → All EndsAfterCall os
      → IsMade (numbered n os) (sort_entries n os)
  sort_entries-IsMade n os h = record {
    calls = λ t id i o g. sort_entries-CalledBy n os (at_call t id i o) g;
    rets = λ id op g. sort_entries_rets n os (id, op) g;
    distinct = numbered-AreNumbered n os;
    sorted = sort_entries-IsSorted n os;
    matched = sort_entries-AreMatched n os h;
  }
