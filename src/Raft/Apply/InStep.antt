-- ===== src/Raft/Apply/InStep.antt =====
-- raft/raft.cpp and kvraft/server.cpp: what a round of ApplyLoop does to the server above the node.
use chon_kv.Base.{
  ℕ, suc, ◌+◌, ◌-◌, ◌<◌, ◌≤◌, ◌≡◌, refl, sym, ap, subst, ◌∙◌, inl, inr, Bool-cases, Option-cases,
  Option, none, some, List, [], ◌∷◌, max, length, take, drop, arith, ltb, length-take, length-drop,
}
use chon_kv.Codec.{decode_all}
use chon_kv.Raft.Types.{LogEntry, EntryType, normal, conf_change, no_op}
use chon_kv.Raft.State.{RaftState}
use chon_kv.Raft.Log.{last_index-IsLog}
use chon_kv.Raft.Invariant.{IsValid}
use chon_kv.Raft.Apply.{
  entry_msg, msg_by_type, command_msg, conf_command, apply_round, max_apply_batch,
}
use chon_kv.Raft.Apply.Rounds.{entry_msgs, open_gate, apply_round-Round}
use chon_kv.Kv.Messages.{Op, get_op}
use chon_kv.Kv.Sessions.{get_seq, existing_seq}
use chon_kv.Kv.Server.{KvState, run_op, reap, apply_op, skip_entry, apply_command}
use chon_kv.Kv.Server.Once.{Spec, spec_op, Refines, Serves, apply_op-Serves}
use chon_kv.Kv.Snapshot.{apply_msg, apply_msgs}

run_op_index :
    (i : ℕ) (o : Op) (s : KvState) → (reap i (run_op i o s)).last_cmd_index ≡ s.last_cmd_index
unfolding run_op reap
run_op_index i o s =
    elim (Bool-cases
      (ltb (existing_seq o.client_id (get_seq o.client_id i s.sessions).0 s.fenced) o.seq_id)) [
        | inl e ↦ rw e refl
        | inr e ↦ rw e refl
      ]

-- The index that the server has applied.
abbrev Advanced : ℕ → KvState → KvState → Type 0
Advanced i s t = t.last_cmd_index ≡ max s.last_cmd_index i

apply_op-Advanced : (i : ℕ) (o : Op) (s : KvState) → Advanced i s (apply_op i o s)
unfolding apply_op
apply_op-Advanced i o s = ap (λ n. max n i) (run_op_index i o s)

skip_entry-Advanced : (i : ℕ) (s : KvState) → Advanced i s (skip_entry i s)
unfolding skip_entry
skip_entry-Advanced i s = refl

apply_command-Advanced :
    (t : EntryType) (i : ℕ) (c : List ℕ) (s : KvState) → Advanced i s (apply_command t i c s)
unfolding apply_command
apply_command-Advanced no_op i c s = skip_entry-Advanced i s
apply_command-Advanced conf_change i c s = skip_entry-Advanced i s
apply_command-Advanced normal i c s = elim (Option-cases (decode_all get_op c)) [
  | inl e ↦ rw (e, apply_command) (skip_entry-Advanced i s)
  | inr (o, e) ↦ rw (e, apply_command) (apply_op-Advanced i o s)
]
apply_command-Advanced (EntryType.unknown v) i c s = elim (Option-cases (decode_all get_op c)) [
  | inl e ↦ rw (e, apply_command) (skip_entry-Advanced i s)
  | inr (o, e) ↦ rw (e, apply_command) (apply_op-Advanced i o s)
]

-- What an entry does to the flat table: a client's command goes through `spec_op`, and the others are
-- no commands.
unfoldable pub spec_entry : EntryType → List ℕ → Spec → Spec
spec_entry no_op c m = m
spec_entry conf_change c m = m
spec_entry normal c m = elim (decode_all get_op c) [ none ↦ m | some o ↦ spec_op o m ]
spec_entry (EntryType.unknown v) c m = elim (decode_all get_op c) [
  | none ↦ m
  | some o ↦ spec_op o m
]

unfoldable pub spec_entries : List LogEntry → Spec → Spec
spec_entries [] m = m
spec_entries (e ∷ es) m = spec_entries es (spec_entry e.type e.command m)

-- A server that stands for the table `m` goes on, stands for `m'`, and has applied `k` entries more.
record Followed (k n : ℕ) (m : Spec) (s : KvState) (o : Option KvState) : Type 0 where
  server : KvState
  goes_on : o ≡ some server
  applied : server.last_cmd_index ≡ s.last_cmd_index + k
  serves : Serves m server n

skip_entry-Serves :
    (i n : ℕ) (m : Spec) (s : KvState) → Serves m s (suc n) → Serves m (skip_entry i s) n
unfolding skip_entry
skip_entry-Serves i n m s h = record {
  refines = record { store = h.refines.store; seqs = h.refines.seqs };
  distinct = h.distinct;
  room = omega (arith, h.room);
}

apply_command-Serves :
    (t : EntryType) (i n : ℕ) (c : List ℕ) (m : Spec) (s : KvState)
    → Serves m s (suc n)
    → Serves (spec_entry t c m) (apply_command t i c s) n
unfolding spec_entry apply_command
apply_command-Serves no_op i n c m s h = skip_entry-Serves i n m s h
apply_command-Serves conf_change i n c m s h = skip_entry-Serves i n m s h
apply_command-Serves normal i n c m s h = elim (Option-cases (decode_all get_op c)) [
  | inl e ↦ rw (e, spec_entry, apply_command) (skip_entry-Serves i n m s h)
  | inr (o, e) ↦ rw (e, spec_entry, apply_command) (apply_op-Serves i o m s n h)
]
apply_command-Serves (EntryType.unknown v) i n c m s h = elim (Option-cases (decode_all get_op c)) [
  | inl e ↦ rw (e, spec_entry, apply_command) (skip_entry-Serves i n m s h)
  | inr (o, e) ↦ rw (e, spec_entry, apply_command) (apply_op-Serves i o m s n h)
]

command_msg-Followed :
    (t : EntryType) (n : ℕ) (c : List ℕ) (m : Spec) (s : KvState)
    → Serves m s (suc n)
    → Followed 1 n (spec_entry t c m) s (apply_msg (command_msg (suc s.last_cmd_index) c t) s)
unfolding apply_msg
command_msg-Followed t n c m s h = record {
  server = apply_command t (suc s.last_cmd_index) c s;
  goes_on = refl;
  applied = omega (arith, apply_command-Advanced t (suc s.last_cmd_index) c s);
  serves = apply_command-Serves t (suc s.last_cmd_index) n c m s h;
}

msg_by_type-Followed :
    (t : EntryType) (n : ℕ) (e : LogEntry) (m : Spec) (s : KvState)
    → Serves m s (suc n)
    → Followed 1 n
        (spec_entry t e.command m)
        s
        (apply_msg (msg_by_type t (suc s.last_cmd_index) e) s)
unfolding msg_by_type spec_entry
msg_by_type-Followed conf_change n e m s h =
    command_msg-Followed conf_change n (conf_command e) m s h
msg_by_type-Followed no_op n e m s h = command_msg-Followed no_op n e.command m s h
msg_by_type-Followed normal n e m s h = command_msg-Followed normal n e.command m s h
msg_by_type-Followed (EntryType.unknown v) n e m s h = command_msg-Followed normal n e.command m s h

entry_msgs-Followed :
    (es : List LogEntry) (i n : ℕ) (m : Spec) (s : KvState)
    → i ≡ suc s.last_cmd_index
    → Serves m s (length es + n)
    → Followed (length es) n (spec_entries es m) s (apply_msgs (entry_msgs i es) s)
unfolding entry_msgs apply_msgs entry_msg spec_entries
entry_msgs-Followed [] i n m s h w = record {
  server = s;
  goes_on = refl;
  applied = omega arith;
  serves = record { refines = w.refines; distinct = w.distinct; room = omega (arith, w.room) };
}
entry_msgs-Followed (e ∷ es) i n m s h w =
    let one = spec_entry e.type e.command m in
    let here : Serves m s (suc (length es + n)) = record {
      refines = w.refines;
      distinct = w.distinct;
      room = omega (arith, w.room);
    } in
    let first : Followed 1 (length es + n) one s (apply_msg (msg_by_type e.type i e) s) =
      subst (λ j. Followed 1 (length es + n) one s (apply_msg (msg_by_type e.type j e) s)) (sym h)
        (msg_by_type-Followed e.type (length es + n) e m s here) in
    let rest =
      entry_msgs-Followed es (suc i) n one first.server (omega (arith, first.applied))
        first.serves in
    rw (first.goes_on, apply_msgs)
      (record {
        server = rest.server;
        goes_on = rest.goes_on;
        applied = omega (arith, rest.applied, first.applied);
        serves = rest.serves;
      })

-- The server after a round: it goes on, has applied what its node has, and stands for what the entries
-- of the round, taken from the node's log, make of the table that it stood for.
pub record InStep (m : Spec) (s t : RaftState) (o : Option KvState) : Type 0 where
  pub server : KvState
  pub goes_on : o ≡ some server
  pub applied : server.last_cmd_index ≡ t.last_applied
  pub moved : s.last_applied < t.last_applied
  pub refines :
      Refines
        (spec_entries
          (take
            (t.last_applied - s.last_applied)
            (drop (suc s.last_applied - s.snapshot_index) s.logs))
          m)
        server

-- On a well-formed node that has applied its snapshot, has no installed snapshot to hand over and has
-- something committed to apply, take a round of ApplyLoop that no installation interrupts, and the server
-- above it, which has applied what the node has applied before and stands for a table of sequence
-- numbers, with distinct sessions and room for as many more tombstones as a batch has entries. Given the
-- messages of the round, the server goes on, has applied what the node has applied then, and stands for
-- the table after the commands of the entries between, each executed once in the log's order if its
-- number is new.
pub apply_round-InStep :
    (now : ℕ) (s : RaftState) (m : Spec) (kv : KvState)
    → IsValid s
    → s.pending_snapshot ≡ none
    → s.snapshot_index ≤ s.last_applied
    → s.last_applied < s.commit_index
    → kv.last_cmd_index ≡ s.last_applied
    → Serves m kv max_apply_batch
    → InStep m s (apply_round now open_gate s).0 (apply_msgs (apply_round now open_gate s).1 kv)
apply_round-InStep now s m kv v quiet shot more same w =
    let r = apply_round-Round now s v quiet shot more in
    let after = drop (suc s.last_applied - s.snapshot_index) s.logs in
    let es = take r.count after in
    let whole : length es ≡ r.count = omega (
      arith,
      length-take r.count after,
      length-drop (suc s.last_applied - s.snapshot_index) s.logs,
      r.bounded,
      r.handed.applied,
      r.handed.commit,
      v.committed,
      last_index-IsLog s.snapshot_index s.logs v.is_log,
    ) in
    let room : Serves m kv (length es + 0) = record {
      refines = w.refines;
      distinct = w.distinct;
      room = omega (arith, w.room, whole, r.few);
    } in
    let k = entry_msgs-Followed es (suc s.last_applied) 0 m kv (ap suc (sym same)) room in
    let count : (apply_round now open_gate s).0.last_applied - s.last_applied ≡ r.count =
      omega (arith, r.handed.applied) in
    record {
      server = k.server;
      goes_on = ap (λ ms. apply_msgs ms kv) r.handed.msgs ∙ k.goes_on;
      applied = omega (arith, k.applied, r.handed.applied, whole, same);
      moved = omega (arith, r.handed.applied, r.moves);
      refines =
          subst (λ n. Refines (spec_entries (take n after) m) k.server) (sym count)
            k.serves.refines;
    }
