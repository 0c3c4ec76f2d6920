-- ===== src/Porcupine/Terminates.antt =====
-- kvraft/porcupine.cpp: the rounds that CheckSingle needs.
use chon_kv.Base.{
  ℕ, zero, suc, ◌+◌, ◌*◌, ◌/◌, ◌==◌, ◌≤◌, ◌<◌, ◌≡◌, refl, inl, inr, Bool, true, false,
  if◌then◌else◌, ltb, Bool-cases, Option, some, List, [], ◌∷◌, length, set, arith,
}
use native.Mathlib.Nat.{mul-le-mul_right}
use chon_kv.Porcupine.{Model, Node, call, ret, remove_ret, whole}
use chon_kv.Porcupine.Search.{
  Frame, Search, Progress, going, done, seen, skip_call, push_call, pop_call, try_call, back_track,
  at_entry, check_loop, begin, rounds, check_single,
}

-- What is left to do at a place with `k` entries behind it, in a list of at most `n`.
abbrev cost : ℕ → ℕ → ℕ
cost zero k = 1
cost (suc n) k = 1 + k * (1 + rounds n)

module _ {I O S : Type 0} where
  -- The places that the frames of the stack go back to; the list grows by an entry at least each time.
  abbrev cost_of : ℕ → List (Frame I O S) → ℕ
  cost_of n [] = 0
  cost_of n (f ∷ fs) = cost (suc n) (length f.after) + cost_of (suc n) fs

  abbrev total : ℕ → Search I O S → ℕ
  total n w = cost n (length w.rest) + cost_of n w.calls

  -- The places are within their lists.
  abbrev Within : ℕ → List (Frame I O S) → Type 0
  Within n [] = Unit {0}
  Within n (f ∷ fs) = (length f.before + suc (length f.after) ≤ suc n) × Within (suc n) fs

  record Inside (n : ℕ) (w : Search I O S) : Type 0 where
    here : length w.before + length w.rest ≤ n
    frames : Within n w.calls

module _ {I O : Type 0} where
  pub length-whole :
      (before rest : List (Node I O)) → length (whole before rest) ≡ length before + length rest
  unfolding whole
  length-whole [] rest = omega arith
  length-whole (x ∷ before) rest = omega (arith, length-whole before (x ∷ rest))

  length-remove_ret : (id : ℕ) (xs : List (Node I O)) → length (remove_ret id xs) ≤ length xs
  unfolding remove_ret
  length-remove_ret id [] = omega arith
  length-remove_ret id (call j i o ∷ xs) = omega (arith, length-remove_ret id xs)
  length-remove_ret id (ret j ∷ xs) = elim (Bool-cases (j == id)) [
    | inl e ↦ rw e (omega arith)
    | inr e ↦ rw e (omega (arith, length-remove_ret id xs))
  ]

cost_step : (n k : ℕ) → cost (suc n) (suc k) ≡ cost (suc n) k + (1 + rounds n)
cost_step n k = omega arith

cost_bound : (n k : ℕ) → k ≤ n → cost n k ≤ rounds n
unfolding rounds
cost_bound zero k h = omega arith
cost_bound (suc n) k h = omega (arith, mul-le-mul_right (1 + rounds n) h)

cost_positive : (n k : ℕ) → 0 < cost n k
cost_positive zero k = omega arith
cost_positive (suc n) k = omega arith

module _ {I O S : Type 0} (m : Model I O S) (limit : ℕ) where
  -- A round that goes on has less left to do.
  record Less (c : ℕ) (v : Search I O S) : Type 0 where
    room : ℕ
    inside : Inside room v
    less : total room v < c

  abbrev Goes : ℕ → Progress I O S → Type 0
  Goes c (going v) = Less c v
  Goes c (done b) = Unit {0}

  skip_call-Less :
      (n id : ℕ) (i : I) (o : O) (after : List (Node I O)) (w : Search I O S)
      → length w.before + suc (length after) ≤ suc n
      → Within (suc n) w.calls
      → Less
          (cost (suc n) (suc (length after)) + cost_of (suc n) w.calls)
          (skip_call id i o after w)
  unfolding skip_call
  skip_call-Less n id i o after w h f = record {
    room = suc n;
    inside = record { here = omega arith; frames = f };
    less = omega (arith, cost_step n (length after));
  }

  push_call-Less :
      (n id : ℕ) (i : I) (o : O) (after : List (Node I O)) (s : S) (w : Search I O S)
      → length w.before + suc (length after) ≤ suc n
      → Within (suc n) w.calls
      → Less
          (cost (suc n) (suc (length after)) + cost_of (suc n) w.calls)
          (push_call limit id i o after s w)
  unfolding push_call
  push_call-Less n id i o after s w h f =
      let shorter : length (whole w.before (remove_ret id after)) ≤ n =
        omega (arith, length-whole w.before (remove_ret id after), length-remove_ret id after) in
      record {
        room = n;
        inside = record { here = omega (arith, shorter); frames = (h, f) };
        less = omega (
          arith,
          cost_step n (length after),
          cost_bound n (length (whole w.before (remove_ret id after))) shorter,
        );
      }

  try_call-Less :
      (n id : ℕ) (i : I) (o : O) (after : List (Node I O)) (w : Search I O S)
      → length w.before + suc (length after) ≤ suc n
      → Within (suc n) w.calls
      → Less
          (cost (suc n) (suc (length after)) + cost_of (suc n) w.calls)
          (try_call m limit id i o after w)
  unfolding try_call
  try_call-Less n id i o after w h f = elim (Bool-cases (m.step w.state i o).0) [
    | inl e ↦ elim (Bool-cases (seen m (set w.linearized id true) (m.step w.state i o).1 w.cache)) [
      | inl g ↦ rw (e, g, try_call) (skip_call-Less n id i o after w h f)
      | inr g ↦ rw (e, g, try_call) (push_call-Less n id i o after (m.step w.state i o).1 w h f)
    ]
    | inr e ↦ rw (e, try_call) (skip_call-Less n id i o after w h f)
  ]

  back_track-Goes :
      (n k : ℕ) (fs : List (Frame I O S)) (w : Search I O S)
      → Within n fs
      → Goes (cost n k + cost_of n fs) (back_track fs w)
  unfolding back_track pop_call
  back_track-Goes n k [] w h = tt
  back_track-Goes n k (f ∷ fs) w h = record {
    room = suc n;
    inside = record { here = omega (arith, h.0); frames = h.1 };
    less = omega (arith, cost_positive n k);
  }

  at_entry-Goes :
      (n : ℕ) (l : List (Node I O)) (w : Search I O S)
      → length w.before + length l ≤ n
      → Within n w.calls
      → Goes (cost n (length l) + cost_of n w.calls) (at_entry m limit l w)
  unfolding at_entry
  at_entry-Goes n [] w h f = tt
  at_entry-Goes zero (call id i o ∷ after) w h f = absurd (omega arith)
  at_entry-Goes (suc n) (call id i o ∷ after) w h f = try_call-Less n id i o after w h f
  at_entry-Goes n (ret id ∷ after) w h f = back_track-Goes n (suc (length after)) w.calls w f

  abbrev Returns : Option Bool → Type 0
  Returns o = (b : Bool) × (o ≡ some b)

  check_loop-Returns :
      (kill : ℕ → Bool) (fuel n : ℕ) (w : Search I O S)
      → Inside n w
      → total n w ≤ fuel
      → Returns (check_loop m limit kill fuel w)
  unfolding check_loop
  check_loop-Returns kill zero n w h c = absurd (omega (arith, cost_positive n (length w.rest)))
  check_loop-Returns kill (suc fuel) n w h c =
      go_on (at_entry m limit w.rest w) (at_entry-Goes n w.rest w h.here h.frames)
        (λ v k. check_loop-Returns kill fuel k.room v k.inside (omega (arith, k.less)))
    where
      go_on :
          (r : Progress I O S)
          → Goes (total n w) r
          → ((v : Search I O S) → Less (total n w) v → Returns (check_loop m limit kill fuel v))
          → Returns (elim r [
            | done b ↦ some b
            | going v ↦
                let next = check_loop m limit kill fuel v in if kill fuel then some false else next
          ])
      go_on (done b) g f = (b, refl)
      go_on (going v) g f = elim (Bool-cases (kill fuel)) [
        | inl e ↦ rw e (false, refl)
        | inr e ↦ rw e (f v g)
      ]

-- CheckSingle comes to a verdict on every list of entries, whatever the model and whenever it is killed,
-- within as many rounds as `rounds` gives for the length of the list.
pub check_single-Returns :
    {I O S : Type 0} (m : Model I O S) (kill : ℕ → Bool) (entries : List (Node I O))
    → (b : Bool) × (check_single m kill entries ≡ some b)
unfolding check_single begin
check_single-Returns m kill entries = elim (Bool-cases (ltb 0 (length entries / 2))) [
  | inl e ↦
      rw (e, check_single)
        (check_loop-Returns m _ kill (rounds (length entries)) (length entries) (begin m entries)
          (record { here = omega arith; frames = tt })
          (omega (arith, cost_bound (length entries) (length entries) (omega arith))))
  | inr e ↦ rw (e, check_single) (true, refl)
]
