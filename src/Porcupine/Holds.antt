-- ===== src/Porcupine/Holds.antt =====
-- kvraft/porcupine.cpp: MakeLinkedEntries, the list of a history.
use chon_kv.Base.{ℕ, suc, ◌≡◌, refl, sym, ap, ◌∙◌, subst, inl, inr, List, [], ◌∷◌, arith, some}
use chon_kv.Base.{zero, ◌+◌, ◌*◌, get_elem?, length}
use mathlib.Core.Option.{some-injective}
use chon_kv.Codec.RoundTrip.{All}
use chon_kv.Porcupine.Times.{
  IsSorted, numbered, insert_in, sort_entries_rets, sort_entries-IsSorted,
}
use chon_kv.Porcupine.Members.{Member}
use chon_kv.Porcupine.{Operation, Node, TimeEntry, sort_entries, nodes_of, make_entries}
use chon_kv.Porcupine.Shape.{AreMatched}
use chon_kv.Porcupine.History.{
  at_ret, at_call, EndsAfterCall, sort_entries-AreMatched, length-sort_entries,
}

module _ {I O : Type 0} where
  sort_entries_calls :
      (n : ℕ) (os : List (Operation I O)) (p : ℕ × Operation I O)
      → Member p (numbered n os)
      → Member (at_call p.1.call_time_ns p.0 p.1.input p.1.output) (sort_entries n os)
  unfolding sort_entries
  sort_entries_calls n [] p h = absurd h
  sort_entries_calls n (o ∷ os) p h =
      let e = at_call p.1.call_time_ns p.0 p.1.input p.1.output in
      insert_in e (at_call o.call_time_ns n o.input o.output) _ (elim h [
        | inl q ↦ inl (ap (λ x. at_call x.1.call_time_ns x.0 x.1.input x.1.output) q)
        | inr g ↦
            inr
              (insert_in e (at_ret o.return_time_ns n) _ (inr (sort_entries_calls (suc n) os p g)))
      ])

  numbered_at :
      (n i : ℕ) (os : List (Operation I O)) (op : Operation I O)
      → get_elem? os i ≡ some op
      → Member (n + i, op) (numbered n os)
  numbered_at n i [] op h = cc h
  numbered_at n zero (o ∷ os) op h =
      let same : n + 0 ≡ n = omega arith in
      inl (ap (λ k. (k, op)) same ∙ ap (λ x. (n, x)) (sym (some-injective o op h)))
  numbered_at n (suc i) (o ∷ os) op h =
      let next : suc n + i ≡ n + suc i = omega arith in
      inr (subst (λ k. Member (k, op) (numbered (suc n) os)) next (numbered_at (suc n) i os op h))

  -- The list `nodes` is the calls and the returns of the history, each operation by its place there.
  pub record HoldsHistory (history : List (Operation I O)) (es : List (TimeEntry I O))
      (nodes : List (Node I O)) : Type 0 where
    pub listed : nodes ≡ nodes_of es
    pub calls :
        (i : ℕ) (op : Operation I O)
        → get_elem? history i ≡ some op
        → Member (at_call op.call_time_ns i op.input op.output) es
    pub rets :
        (i : ℕ) (op : Operation I O)
        → get_elem? history i ≡ some op
        → Member (at_ret op.return_time_ns i) es
    pub count : length nodes ≡ 2 * length history
    pub sorted : IsSorted es
    pub matched : AreMatched nodes

  -- The list made of a history in which every operation returns after its call is that of a list of
  -- entries in the order of their times, which has the call of every operation, at its time, with its
  -- place in the history, its input and its output, and its return, at its time, and twice as many
  -- entries as there are operations. The return of every call is behind it, and no call with its number
  -- is.
  pub make_entries-HoldsHistory :
      (history : List (Operation I O))
      → All EndsAfterCall history
      → (es : List (TimeEntry I O)) × HoldsHistory history es (make_entries history)
  unfolding make_entries
  make_entries-HoldsHistory history h = (
    sort_entries 0 history,
    record {
      listed = refl;
      calls = λ i op e.
          subst
            (λ k. Member (at_call op.call_time_ns k op.input op.output) (sort_entries 0 history))
            (zero_plus i) (sort_entries_calls 0 history (0 + i, op) (numbered_at 0 i history op e));
      rets = λ i op e.
          subst (λ k. Member (at_ret op.return_time_ns k) (sort_entries 0 history)) (zero_plus i)
            (sort_entries_rets 0 history (0 + i, op) (numbered_at 0 i history op e));
      count = length-sort_entries 0 history;
      sorted = sort_entries-IsSorted 0 history;
      matched = sort_entries-AreMatched 0 history h;
    },
  )
    where
      zero_plus : (i : ℕ) → 0 + i ≡ i
      zero_plus i = omega arith
