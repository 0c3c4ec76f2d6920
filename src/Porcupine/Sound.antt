-- ===== src/Porcupine/Sound.antt =====
-- kvraft/porcupine.cpp: what the verdict of CheckSingle says of a history.
use chon_kv.Base.{
  ℕ, zero, suc, ◌≡◌, refl, sym, subst, ◌∙◌, inl, inr, Bool, true, false, if◌then◌else◌, ltb, ◌/◌,
  ◌*◌, arith, Bool-cases, some, List, [], ◌∷◌, ◌++◌, set, length,
}
use mathlib.Core.Option.{some-injective}
use chon_kv.Porcupine.{Model, Node, call, ret, remove_ret, whole}
use chon_kv.Porcupine.Search.{
  Frame, Search, Progress, going, done, seen, skip_call, push_call, pop_call, try_call, back_track,
  at_entry, check_loop, begin, rounds, check_single,
}
use chon_kv.Porcupine.Shape.{
  AreMatched, AreMatched_lifted, AreMatched-OnlyCalls, OnlyCalls, OnlyCalls-forwards, forwards,
  whole-forwards,
}

module _ {I O S : Type 0} (m : Model I O S) where
  -- An order of the operations in a list of calls and returns: the first one is a call that no return
  -- stands before, the model accepts its output and goes on from there, and the others follow without
  -- it.
  pub data Linearizes : S → List (Node I O) → List ℕ → Type 0 where
    finished : {s : S} → Linearizes s [] []
    next :
        {s : S} {live : List (Node I O)} {order : List ℕ} (xs : List (Node I O)) (id : ℕ) (i : I)
        (o : O) (ys : List (Node I O))
        → live ≡ xs ++ call id i o ∷ ys
        → OnlyCalls xs
        → (m.step s i o).0 ≡ true
        → Linearizes (m.step s i o).1 (xs ++ remove_ret id ys) order
        → Linearizes s live (id ∷ order)

  -- There is such an order of a history.
  abbrev pub IsLinearizable : List (Node I O) → Type 0
  IsLinearizable entries = (order : List ℕ) × Linearizes m.init entries order

  module _ (entries : List (Node I O)) where
    -- The frames of the stack lead from the history to a list and a state.
    abbrev Chain : S → List (Node I O) → List (Frame I O S) → Type 0
    Chain s live [] = (s ≡ m.init) × ((live ≡ entries) × AreMatched live)
    Chain s live (f ∷ fs) =
        (s ≡ (m.step f.state f.input f.output).1)
        × ((live ≡ whole f.before (remove_ret f.id f.after))
            × (AreMatched live
                × (OnlyCalls f.before
                    × (((m.step f.state f.input f.output).0 ≡ true)
                        × Chain f.state (whole f.before (call f.id f.input f.output ∷ f.after))
                            fs))))

    matched :
        (s : S) (live : List (Node I O)) (fs : List (Frame I O S))
        → Chain s live fs
        → AreMatched live
    matched s live [] h = h.1.1
    matched s live (f ∷ fs) h = h.1.1.0

    unwind :
        (fs : List (Frame I O S)) (s : S) (live : List (Node I O)) (order : List ℕ)
        → Chain s live fs
        → Linearizes s live order
        → IsLinearizable entries
    unwind [] s live order h l = (
      order,
      subst (λ e. Linearizes m.init e order) h.1.0 (subst (λ t. Linearizes t live order) h.0 l),
    )
    unwind (f ∷ fs) s live order h l =
        unwind fs f.state (whole f.before (call f.id f.input f.output ∷ f.after)) (f.id ∷ order)
          h.1.1.1.1.1
          (next (forwards f.before) f.id f.input f.output f.after (whole-forwards f.before _)
            (OnlyCalls-forwards f.before h.1.1.1.0) h.1.1.1.1.0
            (subst (λ e. Linearizes (m.step f.state f.input f.output).1 e order)
              (h.1.0 ∙ whole-forwards f.before (remove_ret f.id f.after))
              (subst (λ t. Linearizes t live order) h.0 l)))

    record IsSound (w : Search I O S) : Type 0 where
      chain : Chain w.state (whole w.before w.rest) w.calls
      only_calls : OnlyCalls w.before

    abbrev Proves : Progress I O S → Type 0
    Proves (going v) = IsSound v
    Proves (done b) = b ≡ true → IsLinearizable entries

    push_call-IsSound :
        (limit id : ℕ) (i : I) (o : O) (after : List (Node I O)) (w : Search I O S)
        → Chain w.state (whole w.before (call id i o ∷ after)) w.calls
        → OnlyCalls w.before
        → (m.step w.state i o).0 ≡ true
        → IsSound (push_call limit id i o after (m.step w.state i o).1 w)
    unfolding push_call remove_ret whole
    push_call-IsSound limit id i o after w c h ok = record {
      chain = (
        refl,
        (
          refl,
          (
            subst AreMatched (sym (whole-forwards w.before (remove_ret id after))) (
                AreMatched_lifted id i o (forwards w.before) after (
                  subst AreMatched (whole-forwards w.before (call id i o ∷ after))
                    (matched _ _ w.calls c))),
            (h, (ok, c)),
          ),
        ),
      );
      only_calls = tt;
    }

    try_call-IsSound :
        (limit id : ℕ) (i : I) (o : O) (after : List (Node I O)) (w : Search I O S)
        → Chain w.state (whole w.before (call id i o ∷ after)) w.calls
        → OnlyCalls w.before
        → IsSound (try_call m limit id i o after w)
    unfolding try_call skip_call whole
    try_call-IsSound limit id i o after w c h = elim (Bool-cases (m.step w.state i o).0) [
      | inl e ↦
          elim (Bool-cases (seen m (set w.linearized id true) (m.step w.state i o).1 w.cache)) [
            | inl g ↦ rw (e, g, try_call) (record { chain = c; only_calls = h })
            | inr g ↦ rw (e, g, try_call) (push_call-IsSound limit id i o after w c h e)
          ]
      | inr e ↦ rw (e, try_call) (record { chain = c; only_calls = h })
    ]

    back_track-Proves :
        (s : S) (live : List (Node I O)) (fs : List (Frame I O S)) (w : Search I O S)
        → Chain s live fs
        → Proves (back_track fs w)
    unfolding back_track pop_call whole
    back_track-Proves s live [] w c = λ e. cc e
    back_track-Proves s live (f ∷ fs) w c = record { chain = c.1.1.1.1.1; only_calls = c.1.1.1.0 }

    at_entry-Proves :
        (limit : ℕ) (l : List (Node I O)) (w : Search I O S)
        → Chain w.state (whole w.before l) w.calls
        → OnlyCalls w.before
        → Proves (at_entry m limit l w)
    unfolding at_entry
    at_entry-Proves limit [] w c h = λ e. unwind w.calls w.state (forwards w.before) [] c (
        subst (λ xs. Linearizes w.state xs [])
          (sym (
            AreMatched-OnlyCalls (forwards w.before) (matched _ _ w.calls c)
              (OnlyCalls-forwards w.before h)))
          finished)
    at_entry-Proves limit (call id i o ∷ after) w c h = try_call-IsSound limit id i o after w c h
    at_entry-Proves limit (ret id ∷ after) w c h = back_track-Proves w.state _ w.calls w c

    check_loop-Proves :
        (limit : ℕ) (kill : ℕ → Bool) (fuel : ℕ) (w : Search I O S)
        → IsSound w
        → check_loop m limit kill fuel w ≡ some true
        → IsLinearizable entries
    unfolding check_loop
    check_loop-Proves limit kill zero w h e = cc e
    check_loop-Proves limit kill (suc fuel) w h e =
        go_on (at_entry m limit w.rest w) (at_entry-Proves limit w.rest w h.chain h.only_calls)
          (λ v k. check_loop-Proves limit kill fuel v k) e
      where
        go_on :
            (r : Progress I O S)
            → Proves r
            → ((v : Search I O S)
                → IsSound v
                → check_loop m limit kill fuel v ≡ some true
                → IsLinearizable entries)
            → (elim r [
              | done b ↦ some b
              | going v ↦
                  let next' = check_loop m limit kill fuel v in
                  if kill fuel then some false else next'
            ])
              ≡ some true
            → IsLinearizable entries
        go_on (done b) p f e = p (some-injective b true e)
        go_on (going v) p f e = elim (Bool-cases (kill fuel)) [
          | inl k ↦ cc (rw k at e)
          | inr k ↦ f v p (rw k at e)
        ]

-- Two entries for each operation: every call has its return behind it, and no two calls one number.
pub record IsHistory {I O : Type 0} (entries : List (Node I O)) : Type 0 where
  pub matched : AreMatched entries
  pub operations : ℕ
  pub count : length entries ≡ 2 * operations

no_entry :
    {I O : Type 0} (entries : List (Node I O))
    → IsHistory entries
    → ltb 0 (length entries / 2) ≡ false
    → entries ≡ []
no_entry [] w e = refl
no_entry (x ∷ []) w e = absurd (omega (arith, w.count))
no_entry (x ∷ y ∷ entries) w e = ground (arith, e)

-- Where CheckSingle says true of a history, in which every call has a return behind it and there are two
-- entries for each operation, there is an order of the operations that the model accepts from its first
-- state on, in which each operation comes before those that are called after its return. It holds
-- whenever the search is killed.
pub check_single-IsLinearizable :
    {I O S : Type 0} (m : Model I O S) (kill : ℕ → Bool) (entries : List (Node I O))
    → IsHistory entries
    → check_single m kill entries ≡ some true
    → IsLinearizable m entries
unfolding check_single begin whole
check_single-IsLinearizable m kill entries w h = elim (Bool-cases (ltb 0 (length entries / 2))) [
  | inl e ↦
      check_loop-Proves m entries _ kill (rounds (length entries)) (begin m entries)
        (record { chain = (refl, (refl, w.matched)); only_calls = tt }) (rw (e, check_single) at h)
  | inr e ↦ ([], subst (λ l. Linearizes m m.init l []) (sym (no_entry entries w e)) finished)
]
