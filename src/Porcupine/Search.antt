-- ===== src/Porcupine/Search.antt =====
-- kvraft/porcupine.cpp: CheckSingle, the search over the orders of one partition.
use chon_kv.Base.{
  ℕ, zero, suc, ◌+◌, ◌*◌, ◌/◌, Bool, true, false, ◌&&◌, if◌then◌else◌, ltb, Option, none, some,
  List, [], ◌∷◌, length, set, replicate, min,
}
use chon_kv.Porcupine.{Model, Node, call, ret, remove_ret, whole}

-- `words_ == other.words_` of two bitsets of one size
unfoldable pub same_bits : List Bool → List Bool → Bool
same_bits [] [] = true
same_bits [] (b ∷ bs) = false
same_bits (a ∷ as') [] = false
same_bits (a ∷ as') (b ∷ bs) = (if a then b else (if b then false else true)) && same_bits as' bs

-- The cache's bound for `n` operations: 1024 states each, within 256 MB.
unfoldable pub cache_cap : ℕ → ℕ
cache_cap n = min (n * 1024) (268435456 / (n / 8 + 64))

pub record Frame (I O S : Type 0) : Type 0 where
  pub before : List (Node I O)
  pub id : ℕ
  pub input : I
  pub output : O
  pub after : List (Node I O)
  pub state : S

pub record CacheEntry (S : Type 0) : Type 0 where
  pub linearized : List Bool
  pub state : S

pub record Search (I O S : Type 0) : Type 0 where
  pub before : List (Node I O)
  pub rest : List (Node I O)
  pub state : S
  pub linearized : List Bool
  pub calls : List (Frame I O S)
  pub cache : List (CacheEntry S)

-- What comes of a round of the loop.
pub data Progress (I O S : Type 0) : Type 0 where
  going : Search I O S → Progress I O S
  done : Bool → Progress I O S

-- An upper bound for the rounds over a list of `n` entries.
unfoldable pub rounds : ℕ → ℕ
rounds zero = 1
rounds (suc n) = 1 + suc n * (1 + rounds n)

module _ {I O S : Type 0} where
  unfoldable pub seen : Model I O S → List Bool → S → List (CacheEntry S) → Bool
  seen m lin s [] = false
  seen m lin s (c ∷ cs) =
      let others = seen m lin s cs in
      if same_bits c.linearized lin && m.equal c.state s then true else others

  -- `entry = entry->next` behind a call.
  unfoldable pub skip_call : ℕ → I → O → List (Node I O) → Search I O S → Search I O S
  skip_call id i o after w = record w { before = call id i o ∷ w.before; rest = after }

  -- The call is next in the order: it is pushed, and the search begins anew at the head.
  unfoldable pub push_call : ℕ → ℕ → I → O → List (Node I O) → S → Search I O S → Search I O S
  push_call limit id i o after s w =
      let lin = set w.linearized id true in
      record {
        before = [];
        rest = whole w.before (remove_ret id after);
        state = s;
        linearized = lin;
        calls =
            record {
              before = w.before;
              id = id;
              input = i;
              output = o;
              after = after;
              state = w.state;
            }
            ∷ w.calls;
        cache =
            if ltb (length w.cache) limit
            then record { linearized = lin; state = s } ∷ w.cache
            else w.cache;
      }

  -- The last call of the order is taken back, and the search goes on behind it.
  unfoldable pub pop_call : Frame I O S → List (Frame I O S) → Search I O S → Search I O S
  pop_call f fs w = record w {
    before = call f.id f.input f.output ∷ f.before;
    rest = f.after;
    state = f.state;
    linearized = set w.linearized f.id false;
    calls = fs;
  }

  -- A round at a call.
  unfoldable pub try_call :
      Model I O S → ℕ → ℕ → I → O → List (Node I O) → Search I O S → Search I O S
  try_call m limit id i o after w =
      let r = m.step w.state i o in
      if r.0
      then (if seen m (set w.linearized id true) r.1 w.cache
          then skip_call id i o after w
          else push_call limit id i o after r.1 w)
      else skip_call id i o after w

  -- A round at a return.
  unfoldable pub back_track : List (Frame I O S) → Search I O S → Progress I O S
  back_track [] w = done false
  back_track (f ∷ fs) w = going (pop_call f fs w)

  unfoldable pub at_entry : Model I O S → ℕ → List (Node I O) → Search I O S → Progress I O S
  at_entry m limit [] w = done true
  at_entry m limit (call id i o ∷ after) w = going (try_call m limit id i o after w)
  at_entry m limit (ret id ∷ after) w = back_track w.calls w

  -- The loop, on fuel; `kill` is whether another partition has failed when a round begins.
  unfoldable pub check_loop : Model I O S → ℕ → (ℕ → Bool) → ℕ → Search I O S → Option Bool
  check_loop m limit kill zero w = none
  check_loop m limit kill (suc fuel) w = elim (at_entry m limit w.rest w) [
    | done b ↦ some b
    | going v ↦ let next = check_loop m limit kill fuel v in if kill fuel then some false else next
  ]

  unfoldable pub begin : Model I O S → List (Node I O) → Search I O S
  begin m entries = record {
    before = [];
    rest = entries;
    state = m.init;
    linearized = replicate (length entries / 2) false;
    calls = [];
    cache = [];
  }

  -- CheckSingle
  unfoldable pub check_single : Model I O S → (ℕ → Bool) → List (Node I O) → Option Bool
  check_single m kill entries =
      let n = length entries / 2 in
      if ltb 0 n
      then check_loop m (cache_cap n) kill (rounds (length entries)) (begin m entries)
      else some true
