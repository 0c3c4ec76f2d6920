-- ===== src/Porcupine/RealTime.antt =====
-- kvraft/porcupine.cpp: an order of the calls in the list is an order of the operations that keeps to
-- their times.
use chon_kv.Base.{ℕ, ◌≤◌, ◌≡◌, refl, sym, ap, ◌∙◌, subst, inl, true, List, [], ◌∷◌, ◌++◌}
use chon_kv.Codec.RoundTrip.{All}
use chon_kv.Porcupine.{
  Operation, Model, Node, call, TimeEntry, sort_entries, nodes_of, make_entries, remove_ret,
}
use chon_kv.Porcupine.Shape.{OnlyCalls}
use chon_kv.Porcupine.Sound.{Linearizes, finished, next, IsLinearizable}
use chon_kv.Porcupine.History.{at_call, EndsAfterCall}
use chon_kv.Porcupine.Left.{
  ops_of, ops_of-append, ops_of-numbered, ops_of-All, lifted_nodes, lifted-IsMade, called_in_time,
}
use chon_kv.Porcupine.Lifted.{without_ret, cut, Member-after}
use chon_kv.Porcupine.Members.{Member, Member-split}
use chon_kv.Porcupine.Times.{numbered, Called, IsMade, sort_entries-IsMade}

module _ {I O S : Type 0} (m : Model I O S) where
  -- An order of the operations `left`: the first one was called before any of the others returned, the
  -- model accepts its output and goes on from there, and the others follow.
  pub data InRealTime : S → List (Operation I O) → List (Operation I O) → Type 0 where
    done : {s : S} → InRealTime s [] []
    first :
        {s : S} {left order : List (Operation I O)} (before : List (Operation I O))
        (o : Operation I O) (after : List (Operation I O))
        → left ≡ before ++ o ∷ after
        → All (λ p. o.call_time_ns ≤ p.return_time_ns) (before ++ after)
        → (m.step s o.input o.output).0 ≡ true
        → InRealTime (m.step s o.input o.output).1 (before ++ after) order
        → InRealTime s left (o ∷ order)

  -- The operations left, where the entries of them have an order.
  Ordered : S → List (ℕ × Operation I O) → Type 0
  Ordered s ps = (order : List (Operation I O)) × InRealTime s (ops_of ps) order

  no_operation :
      (s : S) (ps : List (ℕ × Operation I O)) (es : List (TimeEntry I O))
      → nodes_of es ≡ []
      → IsMade ps es
      → Ordered s ps
  unfolding Ordered nodes_of
  no_operation s [] es h w = ([], done)
  no_operation s (p ∷ ps) [] h w = absurd (w.rets p.0 p.1 (inl refl))
  no_operation s (p ∷ ps) (e ∷ es) h w = cc h

  first_of :
      (s : S) (op : Operation I O) (i : I) (o : O) (before after left order : List (Operation I O))
      → op.input ≡ i
      → op.output ≡ o
      → (m.step s i o).0 ≡ true
      → left ≡ before ++ op ∷ after
      → All (λ p. op.call_time_ns ≤ p.return_time_ns) (before ++ after)
      → InRealTime (m.step s i o).1 (before ++ after) order
      → InRealTime s left (op ∷ order)
  first_of s op i o before after left order p q ok split late follow =
      let same : m.step s i o ≡ m.step s op.input op.output =
        ap (λ x. m.step s x o) (sym p) ∙ ap (λ x. m.step s op.input x) (sym q) in
      first before op after split late (subst (λ r. r.0 ≡ true) same ok)
        (subst (λ r. InRealTime r.1 (before ++ after) order) same follow)

  Linearizes-Ordered :
      (s : S) (live : List (Node I O)) (ids : List ℕ) (ps : List (ℕ × Operation I O))
      (es : List (TimeEntry I O))
      → Linearizes m s live ids
      → nodes_of es ≡ live
      → IsMade ps es
      → Ordered s ps
  unfolding Ordered
  Linearizes-Ordered s live ids ps es finished h w = no_operation s ps es h w
  Linearizes-Ordered s live ids ps es (next {order = more} xs id i o ys e c ok rest) h w =
      let k = cut es xs (call id i o) ys (h ∙ e) in
      let t = k.entry.time_ns in
      let at : k.entry ≡ at_call t id i o = ap (λ n. record { time_ns = t; node = n }) k.node in
      let whole : es ≡ k.before ++ at_call t id i o ∷ k.after =
        k.whole ∙ ap (λ x. k.before ++ x ∷ k.after) at in
      let called : Called ps t id i o = w.calls t id i o (
        subst (Member (at_call t id i o)) (sym whole)
          (Member-after (at_call t id i o) k.before (at_call t id i o ∷ k.after) (inl refl))) in
      let op = called.operation in
      let (before, (after, split)) = Member-split (id, op) ps called.left in
      let made : IsMade (before ++ (id, op) ∷ after) (k.before ++ at_call t id i o ∷ k.after) =
        subst (λ x. IsMade (before ++ (id, op) ∷ after) x) whole
          (subst (λ x. IsMade x es) split w) in
      let left = ops_of-append before after in
      let nodes : nodes_of (k.before ++ without_ret id k.after) ≡ xs ++ remove_ret id ys =
        lifted_nodes t id i o op before after k.before k.after
        ∙ rw (k.nodes_before, k.nodes_after) refl in
      let others =
        Linearizes-Ordered (m.step s i o).1 (xs ++ remove_ret id ys) more (before ++ after)
          (k.before ++ without_ret id k.after) rest nodes
          (lifted-IsMade t id i o op before after k.before k.after made) in
      let calls_only : OnlyCalls (nodes_of k.before) = subst OnlyCalls (sym k.nodes_before) c in
      let late : All (λ p. op.call_time_ns ≤ p.return_time_ns) (ops_of before ++ ops_of after) =
        subst (All (λ p. op.call_time_ns ≤ p.return_time_ns)) left (
          ops_of-All (λ p. op.call_time_ns ≤ p.return_time_ns) (before ++ after)
            (subst (λ n. All (λ q. n ≤ q.1.return_time_ns) (before ++ after)) (sym called.time)
              (called_in_time t id i o op before after k.before k.after calls_only made))) in
      let follow : InRealTime (m.step s i o).1 (ops_of before ++ ops_of after) others.0 =
        subst (λ x. InRealTime (m.step s i o).1 x others.0) left others.1 in
      (
        op ∷ others.0,
        first_of s op i o (ops_of before) (ops_of after) (ops_of ps) others.0 called.input
            called.output ok (ap ops_of split ∙ ops_of-append before ((id, op) ∷ after)) late
            follow,
      )

  -- The operations of a history have an order that the model accepts, in which none comes before one that
  -- returned before it was called.
  abbrev pub HasOrder : List (Operation I O) → Type 0
  HasOrder history = (order : List (Operation I O)) × InRealTime m.init history order

  pub IsLinearizable-HasOrder :
      (history : List (Operation I O))
      → All EndsAfterCall history
      → IsLinearizable m (make_entries history)
      → HasOrder history
  unfolding Ordered make_entries
  IsLinearizable-HasOrder history h (ids, l) =
      let r =
        Linearizes-Ordered m.init (make_entries history) ids (numbered 0 history)
          (sort_entries 0 history) l refl (sort_entries-IsMade 0 history h) in
      (r.0, subst (λ x. InRealTime m.init x r.0) (ops_of-numbered 0 history) r.1)
