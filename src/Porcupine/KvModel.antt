-- ===== src/Porcupine/KvModel.antt =====
-- kvraft/kv_model.cpp: the model of one key, and the histories that are checked against it, one for
-- each key; CheckParallel and CheckOperations of kvraft/porcupine.cpp put the verdicts together.
pub mod Partition
pub mod Verdict
use chon_kv.Base.{
  ℕ, zero, suc, Bool, true, false, if◌then◌else◌, ◌==◌, same_bytes, get_elem?, Option, none, some,
  List, [], ◌∷◌, ◌++◌,
}
use chon_kv.Porcupine.{Operation, Model, make_entries}
use chon_kv.Porcupine.Search.{check_single}

pub record KvInput : Type 0 where
  -- KV_OP_GET, KV_OP_PUT and KV_OP_APPEND are 0, 1 and 2.
  pub op : ℕ
  pub key : List ℕ
  pub value : List ℕ

pub record KvOutput : Type 0 where
  pub value : List ℕ

-- KvStep
unfoldable pub kv_step : List ℕ → KvInput → KvOutput → Bool × List ℕ
kv_step state inp out =
    if inp.op == 0
    then (same_bytes out.value state, state)
    else if inp.op == 1
    then (true, inp.value)
    else if inp.op == 2
    then (true, state ++ inp.value)
    else (false, state)

-- MakeKvModel
abbrev pub kv_model : Model KvInput KvOutput (List ℕ)
kv_model = record { init = []; step = kv_step; equal = same_bytes }

abbrev pub KvOperation : Type 0
KvOperation = Operation KvInput KvOutput

-- The operations of one key, by their places in the history.
pub record Bucket : Type 0 where
  pub key : List ℕ
  pub ids : List ℕ

unfoldable pub add_to_bucket : ℕ → List ℕ → List Bucket → List Bucket
add_to_bucket i k [] = record { key = k; ids = i ∷ [] } ∷ []
add_to_bucket i k (b ∷ bs) =
    let rest = add_to_bucket i k bs in
    if same_bytes b.key k then (record b { ids = b.ids ++ i ∷ [] }) ∷ bs else b ∷ rest

unfoldable pub fill_buckets : ℕ → List KvOperation → List Bucket → List Bucket
fill_buckets i [] bs = bs
fill_buckets i (o ∷ os) bs = fill_buckets (suc i) os (add_to_bucket i o.input.key bs)

-- KvPartition
unfoldable pub kv_partition : List KvOperation → List Bucket
kv_partition history = fill_buckets 0 history []

-- `sub[k] = history[idx[k]]`; every place is one of the history.
unfoldable pub pick : List KvOperation → List ℕ → List KvOperation
pick history [] = []
pick history (i ∷ is) =
    let rest = pick history is in elim (get_elem? history i) [ none ↦ rest | some o ↦ o ∷ rest ]

unfoldable pub pick_all : List KvOperation → List Bucket → List (List KvOperation)
pick_all history [] = []
pick_all history (b ∷ bs) = pick history b.ids ∷ pick_all history bs

-- PartitionHistory
unfoldable pub partition_history : List KvOperation → List (List KvOperation)
partition_history history = pick_all history (kv_partition history)

pub data CheckResult : Type 0 where
  ok illegal unknown : CheckResult

-- CheckParallel, from the partitions, whether each is done before the deadline, and whether the threads
-- could be made. The first one that fails, or is late, decides; nothing is killed before.
unfoldable pub gather : List (List KvOperation) → List Bool → CheckResult
gather [] ready = ok
gather (p ∷ ps) [] = unknown
gather (p ∷ ps) (false ∷ ready) = unknown
gather (p ∷ ps) (true ∷ ready) =
    let rest = gather ps ready in
    elim (check_single kv_model (λ _. false) (make_entries p)) [
      | none ↦ illegal
      | some b ↦ if b then rest else illegal
    ]

-- CheckOperations
unfoldable pub check_operations : Bool → List Bool → List KvOperation → CheckResult
check_operations threads ready [] = ok
check_operations threads ready (o ∷ os) =
    if threads then gather (partition_history (o ∷ os)) ready else unknown
