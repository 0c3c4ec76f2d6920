-- ===== src/Porcupine.antt =====
-- kvraft/porcupine.h and kvraft/porcupine.cpp: the linearizability checker. The doubly linked list of
-- MakeLinkedEntries is a list here, and a place in it is the part before the place, backwards, and the
-- rest. Lift takes a call and its return out; since Unlift undoes the last Lift that is not undone, a
-- frame of the stack keeps the place as it was. The cache is one list: its hash only says where to look.
pub mod Search
pub mod Terminates
pub mod Shape
pub mod Sound
pub mod History
pub mod Members
pub mod Times
pub mod Holds
pub mod Lifted
pub mod Left
pub mod RealTime
pub mod KvModel
mod Tests
use chon_kv.Base.{ℕ, suc, Bool, true, false, if◌then◌else◌, ltb, leb, ◌==◌, List, [], ◌∷◌}

pub record Operation (I O : Type 0) : Type 0 where
  pub input : I
  pub output : O
  pub call_time_ns : ℕ
  pub return_time_ns : ℕ

pub record Model (I O S : Type 0) : Type 0 where
  pub init : S
  pub step : S → I → O → Bool × S
  pub equal : S → S → Bool

-- A call knows the output of its return, which the links of the list give.
pub data Node (I O : Type 0) : Type 0 where
  call : ℕ → I → O → Node I O
  ret : ℕ → Node I O

pub record TimeEntry (I O : Type 0) : Type 0 where
  pub time_ns : ℕ
  pub node : Node I O

module _ {I O : Type 0} where
  -- std::sort leaves open how equal times are ordered; they stay as they come here.
  unfoldable pub insert_entry : TimeEntry I O → List (TimeEntry I O) → List (TimeEntry I O)
  insert_entry e [] = e ∷ []
  insert_entry e (f ∷ fs) =
      let rest = insert_entry e fs in if leb e.time_ns f.time_ns then e ∷ f ∷ fs else f ∷ rest

  -- Both entries of every operation, by time; `i` is the number of the first operation.
  unfoldable pub sort_entries : ℕ → List (Operation I O) → List (TimeEntry I O)
  sort_entries i [] = []
  sort_entries i (o ∷ os) =
      insert_entry (record { time_ns = o.call_time_ns; node = call i o.input o.output })
        (insert_entry (record { time_ns = o.return_time_ns; node = ret i })
          (sort_entries (suc i) os))

  unfoldable pub nodes_of : List (TimeEntry I O) → List (Node I O)
  nodes_of [] = []
  nodes_of (e ∷ es) = e.node ∷ nodes_of es

  -- MakeLinkedEntries
  unfoldable pub make_entries : List (Operation I O) → List (Node I O)
  make_entries history = nodes_of (sort_entries 0 history)

  -- The return of a call, taken out of the list.
  unfoldable pub remove_ret : ℕ → List (Node I O) → List (Node I O)
  remove_ret id [] = []
  remove_ret id (call j i o ∷ xs) = call j i o ∷ remove_ret id xs
  remove_ret id (ret j ∷ xs) = let rest = remove_ret id xs in if j == id then xs else ret j ∷ rest

  -- The list again, from a place in it.
  unfoldable pub whole : List (Node I O) → List (Node I O) → List (Node I O)
  whole [] rest = rest
  whole (x ∷ before) rest = whole before (x ∷ rest)
