-- ===== src/Porcupine/Left.antt =====
-- kvraft/porcupine.cpp: the operations that are left when one is taken out with its entries.
use chon_kv.Base.{
  ℕ, suc, ◌≤◌, ◌≡◌, ◌≢◌, refl, sym, ap, ◌∙◌, subst, inl, inr, false, List, [], ◌∷◌, ◌++◌,
}
use chon_kv.Codec.RoundTrip.{All}
use chon_kv.Porcupine.{Operation, call, TimeEntry, nodes_of, remove_ret}
use chon_kv.Porcupine.Shape.{AreMatched, AreMatched_lifted, OnlyCalls, has_call}
use chon_kv.Porcupine.History.{at_ret, at_call}
use chon_kv.Porcupine.Lifted.{
  without_ret, nodes_of-without_ret, without_ret_out, without_ret_in, ret_after, Member-append,
  Member-before, Member-after, nodes_of-append, IsSorted-without, called_no_more, called_other,
}
use chon_kv.Porcupine.Members.{Member, Member-more, Member-less, All_at, All-of, All-middle}
use chon_kv.Porcupine.Times.{numbered, AreNumbered, Called, IsMade}

module _ {I O : Type 0} where
  abbrev pub ops_of : List (ℕ × Operation I O) → List (Operation I O)
  ops_of [] = []
  ops_of (p ∷ ps) = p.1 ∷ ops_of ps

  pub ops_of-append :
      (before after : List (ℕ × Operation I O))
      → ops_of (before ++ after) ≡ ops_of before ++ ops_of after
  ops_of-append [] after = refl
  ops_of-append (p ∷ before) after = ap (λ t. p.1 ∷ t) (ops_of-append before after)

  pub ops_of-numbered : (n : ℕ) (os : List (Operation I O)) → ops_of (numbered n os) ≡ os
  ops_of-numbered n [] = refl
  ops_of-numbered n (o ∷ os) = ap (λ t. o ∷ t) (ops_of-numbered (suc n) os)

  pub ops_of-All :
      (P : Operation I O → Type 0) (ps : List (ℕ × Operation I O))
      → All (λ p. P p.1) ps
      → All P (ops_of ps)
  ops_of-All P [] h = tt
  ops_of-All P (p ∷ ps) h = (h.0, ops_of-All P ps h.1)

  other_numbers :
      (x : ℕ × Operation I O) (before after : List (ℕ × Operation I O))
      → AreNumbered (before ++ x ∷ after)
      → All (λ q. q.0 ≢ x.0) (before ++ after) × AreNumbered (before ++ after)
  other_numbers x [] after w = w
  other_numbers x (p ∷ before) after w =
      let rest = other_numbers x before after w.1 in
      let here = All-middle (λ q. q.0 ≢ p.0) x before after w.0 in
      (((λ e. here.0 (sym e)), rest.0), (here.1, rest.1))

  -- One operation of those that are left, with its entries out of the list.
  module _ (t id : ℕ) (i : I) (o : O) (op : Operation I O) (before after : List (ℕ × Operation I O))
      (front back : List (TimeEntry I O)) where
    abbrev pub all_left : List (ℕ × Operation I O)
    all_left = before ++ (id, op) ∷ after

    abbrev pub entries : List (TimeEntry I O)
    entries = front ++ at_call t id i o ∷ back

    live : IsMade all_left entries → AreMatched (nodes_of front ++ call id i o ∷ nodes_of back)
    unfolding nodes_of
    live w = subst AreMatched (nodes_of-append front (at_call t id i o ∷ back)) w.matched

    pub lifted_nodes :
        nodes_of (front ++ without_ret id back) ≡ nodes_of front ++ remove_ret id (nodes_of back)
    lifted_nodes =
        nodes_of-append front (without_ret id back)
        ∙ ap (λ r. nodes_of front ++ r) (nodes_of-without_ret id back)

    pub lifted-IsMade :
        IsMade all_left entries → IsMade (before ++ after) (front ++ without_ret id back)
    lifted-IsMade w =
        let others = other_numbers (id, op) before after w.distinct in
        record {
          calls = λ u j a b h. called_left u j a b h;
          rets = λ j p h.
              ret_left j p (w.rets j p (Member-more (j, p) (id, op) before after h))
                (All_at (λ q. q.0 ≢ id) (j, p) (before ++ after) others.0 h);
          distinct = others.1;
          sorted = IsSorted-without id front (at_call t id i o) back w.sorted;
          matched =
              subst AreMatched (sym lifted_nodes)
                (AreMatched_lifted id i o (nodes_of front) (nodes_of back) (live w));
        }
      where
        back_in : (x : TimeEntry I O) → Member x (front ++ without_ret id back) → Member x entries
        back_in x h = elim (Member-append x front (without_ret id back) h) [
          | inl p ↦ Member-before x front _ p
          | inr p ↦ Member-after x front _ (inr (without_ret_out x id back p))
        ]

        none_left : has_call id (nodes_of (front ++ without_ret id back)) ≡ false
        none_left =
            subst (λ n. has_call id n ≡ false) (sym lifted_nodes)
              (called_no_more id i o (nodes_of front) (nodes_of back) (live w))

        called_left :
            (u j : ℕ) (a : I) (b : O)
            → Member (at_call u j a b) (front ++ without_ret id back)
            → Called (before ++ after) u j a b
        called_left u j a b h =
            let c = w.calls u j a b (back_in (at_call u j a b) h) in
            record {
              operation = c.operation;
              left = elim (Member-less (j, c.operation) (id, op) before after c.left) [
                | inl e ↦ absurd (
                    called_other u j id a b (front ++ without_ret id back) none_left h
                      (ap (λ q. q.0) e))
                | inr g ↦ g
              ];
              time = c.time;
              input = c.input;
              output = c.output;
            }

        ret_left :
            (j : ℕ) (p : Operation I O)
            → Member (at_ret p.return_time_ns j) entries
            → j ≢ id
            → Member (at_ret p.return_time_ns j) (front ++ without_ret id back)
        ret_left j p h ne = elim (Member-append (at_ret p.return_time_ns j) front _ h) [
          | inl g ↦ Member-before (at_ret p.return_time_ns j) front _ g
          | inr (inl e) ↦ cc (ap (λ x. x.node) e)
          | inr (inr g) ↦
              Member-after (at_ret p.return_time_ns j) front _
                (without_ret_in p.return_time_ns j id back ne g)
        ]

    -- None of the others has returned before this one was called.
    pub called_in_time :
        OnlyCalls (nodes_of front)
        → IsMade all_left entries
        → All (λ q. t ≤ q.1.return_time_ns) (before ++ after)
    called_in_time c w =
        All-of (λ q. t ≤ q.1.return_time_ns) (before ++ after)
          (λ q h. late q (w.rets q.0 q.1 (Member-more q (id, op) before after h)))
      where
        late :
            (q : ℕ × Operation I O)
            → Member (at_ret q.1.return_time_ns q.0) entries
            → t ≤ q.1.return_time_ns
        late q h =
            elim (ret_after q.1.return_time_ns q.0 (at_call t id i o) front back c w.sorted h) [
              | inl e ↦ cc (ap (λ x. x.node) e)
              | inr le ↦ le
            ]
