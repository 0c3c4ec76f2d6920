-- ===== src/Porcupine/Tests.antt =====
-- kvraft/porcupine.cpp: the search on the three clients of the comment in kvraft/porcupine.h.
use chon_kv.Base.{ℕ, ◌≡◌, refl, arith, Bool, true, false, some, List, [], ◌∷◌}
use chon_kv.Codec.RoundTrip.{All}
use chon_kv.Porcupine.{insert_entry, sort_entries, nodes_of, make_entries, remove_ret, whole}
use chon_kv.Porcupine.Search.{
  same_bits, cache_cap, rounds, seen, skip_call, push_call, pop_call, try_call, back_track,
  at_entry, check_loop, begin, check_single,
}
use chon_kv.Porcupine.Terminates.{check_single-Returns}
use chon_kv.Porcupine.Sound.{IsLinearizable, check_single-IsLinearizable}
use chon_kv.Porcupine.History.{EndsAfterCall, make_entries-IsHistory}
use chon_kv.Porcupine.KvModel.{
  KvOperation, kv_step, kv_model, add_to_bucket, fill_buckets, kv_partition, pick, pick_all,
  partition_history, ok, illegal, unknown, gather, check_operations,
}
use chon_kv.Porcupine.{TimeEntry}
use chon_kv.Porcupine.Holds.{HoldsHistory, make_entries-HoldsHistory}
use chon_kv.Porcupine.KvModel.{KvInput, KvOutput}

abbrev operation : ℕ → List ℕ → List ℕ → ℕ → ℕ → KvOperation
operation op value out begins ends = record {
  input = record { op = op; key = 107 ∷ []; value = value };
  output = record { value = out };
  call_time_ns = begins;
  return_time_ns = ends;
}

-- Client A puts "1"; clients B and C read it.
abbrev three_clients : List KvOperation
three_clients =
    operation 1 (49 ∷ []) [] 0 10
    ∷ operation 0 [] (49 ∷ []) 5 15
    ∷ operation 0 [] (49 ∷ []) 12 20
    ∷ []

-- Client C reads nothing, after the put has returned.
abbrev stale_read : List KvOperation
stale_read = operation 1 (49 ∷ []) [] 0 10 ∷ operation 0 [] [] 12 20 ∷ []

-- Two puts at one time, and a read of the one that is called first: the search has to go back.
abbrev two_puts : List KvOperation
two_puts =
    operation 1 (49 ∷ []) [] 0 10
    ∷ operation 1 (50 ∷ []) [] 1 11
    ∷ operation 0 [] (49 ∷ []) 12 20
    ∷ []

three_clients-EndsAfterCall : All EndsAfterCall three_clients
three_clients-EndsAfterCall = (omega arith, (omega arith, (omega arith, tt)))

stale_read_illegal : check_operations true (true ∷ []) stale_read ≡ illegal
unfolding check_operations partition_history kv_partition fill_buckets add_to_bucket pick pick_all
    gather make_entries sort_entries insert_entry nodes_of remove_ret whole same_bits cache_cap
    rounds seen skip_call push_call pop_call try_call back_track at_entry check_loop begin
    check_single kv_step
stale_read_illegal = refl

two_puts_ok : check_operations true (true ∷ []) two_puts ≡ ok
unfolding check_operations partition_history kv_partition fill_buckets add_to_bucket pick pick_all
    gather make_entries sort_entries insert_entry nodes_of remove_ret whole same_bits cache_cap
    rounds seen skip_call push_call pop_call try_call back_track at_entry check_loop begin
    check_single kv_step
two_puts_ok = refl

late_unknown : check_operations true (false ∷ []) three_clients ≡ unknown
unfolding check_operations partition_history kv_partition fill_buckets add_to_bucket pick pick_all
    gather
late_unknown = refl

three_clients-true : check_single kv_model (λ _. false) (make_entries three_clients) ≡ some true
unfolding make_entries sort_entries insert_entry nodes_of remove_ret whole same_bits cache_cap
    rounds seen skip_call push_call pop_call try_call back_track at_entry check_loop begin
    check_single kv_step
three_clients-true = refl

make_entries-HoldsHistory_example :
    (es : List (TimeEntry KvInput KvOutput)) × HoldsHistory three_clients es
      (make_entries three_clients)
make_entries-HoldsHistory_example =
    make_entries-HoldsHistory three_clients three_clients-EndsAfterCall

check_single-IsLinearizable_example : IsLinearizable kv_model (make_entries three_clients)
check_single-IsLinearizable_example =
    check_single-IsLinearizable kv_model (λ _. false) (make_entries three_clients)
      (make_entries-IsHistory three_clients three_clients-EndsAfterCall) three_clients-true

check_single-Returns_example :
    (b : Bool) × (check_single kv_model (λ _. false) (make_entries stale_read) ≡ some b)
check_single-Returns_example = check_single-Returns kv_model (λ _. false) (make_entries stale_read)
