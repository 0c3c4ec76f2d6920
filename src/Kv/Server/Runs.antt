-- ===== src/Kv/Server/Runs.antt =====
-- kvraft/server.cpp: runs of commands through ApplierLoop.
use chon_kv.Base.{
  ℕ, ◌+◌, ◌≤◌, ◌≡◌, refl, sym, ap, subst, eqz_iff, ◌∙◌, inl, inr, false, ltb, Bool-cases, ℤ, eqz,
  List, [], ◌∷◌, arith, length,
}
use chon_kv.Raft.Types.{normal}
use chon_kv.Kv.Messages.{Op, put_op, OpFits, decode_op}
use chon_kv.Kv.Sessions.Fences.{eqz_same}
use chon_kv.Kv.Sessions.Lookup.{AreDistinct}
use chon_kv.Kv.Sessions.Reap.{known}
use chon_kv.Kv.Server.{KvState, fence_cap, apply_op, apply_command}
use chon_kv.Kv.Server.Once.{Spec, spec_op, Refines, Serves, apply_op-Serves}

-- The committed commands with their indices, in the order of the log.
unfoldable pub apply_ops : List (ℕ × Op) → KvState → KvState
apply_ops [] s = s
apply_ops ((i, o) ∷ ops) s = apply_ops ops (apply_op i o s)

unfoldable pub spec_ops : List (ℕ × Op) → Spec → Spec
spec_ops [] m = m
spec_ops ((i, o) ∷ ops) m = spec_ops ops (spec_op o m)

pub apply_ops-Serves :
    (ops : List (ℕ × Op)) (m : Spec) (s : KvState) (n : ℕ)
    → Serves m s (length ops + n)
    → Serves (spec_ops ops m) (apply_ops ops s) n
unfolding apply_ops spec_ops
apply_ops-Serves [] m s n h = record {
  refines = h.refines;
  distinct = h.distinct;
  room = omega (arith, h.room);
}
apply_ops-Serves ((i, o) ∷ ops) m s n h = apply_ops-Serves ops (spec_op o m) (apply_op i o s) n (
    apply_op-Serves i o m s (length ops + n)
      (record { refines = h.refines; distinct = h.distinct; room = omega (arith, h.room) }))

-- A server that stands for a table of sequence numbers, with distinct sessions and room for the
-- tombstones of as many more clients as there are commands, stands for that table after the commands,
-- however many sessions were reaped on the way.
pub apply_ops-Refines :
    (ops : List (ℕ × Op)) (m : Spec) (s : KvState)
    → Serves m s (length ops)
    → Refines (spec_ops ops m) (apply_ops ops s)
apply_ops-Refines ops m s h =
    (apply_ops-Serves ops m s 0
      (record { refines = h.refines; distinct = h.distinct; room = omega (arith, h.room) })).refines

-- The table that a state stands for.
abbrev spec_of : KvState → Spec
spec_of s = record { kv_store = s.kv_store; last_seq = λ c. known c s.sessions s.fenced }

spec_op_grows : (o : Op) (m : Spec) (c : ℤ) → m.last_seq c ≤ (spec_op o m).last_seq c
unfolding spec_op
spec_op_grows o m c = elim (Bool-cases (ltb (m.last_seq o.client_id) o.seq_id)) [
  | inl e ↦
      rw (e, spec_op)
        (elim (Bool-cases (eqz o.client_id c)) [
          | inl me ↦ rw me (at_client c ((eqz_iff o.client_id c).0 me) (ground (arith, e)))
          | inr other ↦ rw other (omega arith)
        ])
  | inr e ↦ rw (e, spec_op) (omega arith)
]
  where
    at_client :
        (d : ℤ) → o.client_id ≡ d → m.last_seq o.client_id ≤ o.seq_id → m.last_seq d ≤ o.seq_id
    at_client d p le = subst (λ x. m.last_seq x ≤ o.seq_id) p le

spec_ops_grow :
    (ops : List (ℕ × Op)) (m : Spec) (c : ℤ) → m.last_seq c ≤ (spec_ops ops m).last_seq c
unfolding spec_ops
spec_ops_grow [] m c = omega arith
spec_ops_grow ((i, o) ∷ ops) m c =
    omega (arith, spec_op_grows o m c, spec_ops_grow ops (spec_op o m) c)

spec_op_reaches : (o : Op) (m : Spec) → o.seq_id ≤ (spec_op o m).last_seq o.client_id
unfolding spec_op
spec_op_reaches o m = elim (Bool-cases (ltb (m.last_seq o.client_id) o.seq_id)) [
  | inl e ↦ rw (e, spec_op, eqz_same o.client_id) (omega arith)
  | inr e ↦ rw (e, spec_op) (ground (arith, e))
]

spec_op_again : (o : Op) (m : Spec) → o.seq_id ≤ m.last_seq o.client_id → spec_op o m ≡ m
unfolding spec_op
spec_op_again o m h =
    let done : ltb (m.last_seq o.client_id) o.seq_id ≡ false = ground (arith, h) in
    rw (done, spec_op) refl

-- With distinct sessions and room for the tombstones of as many more clients as there are commands, a
-- command that is committed a second time, with any commands of any clients in between, leaves the
-- store as it is.
pub apply_op_once :
    (i j : ℕ) (o : Op) (ops : List (ℕ × Op)) (s : KvState)
    → AreDistinct s.sessions
    → length s.sessions + length s.fenced + (length ops + 2) ≤ fence_cap
    → (apply_op j o (apply_ops ops (apply_op i o s))).kv_store
      ≡ (apply_ops ops (apply_op i o s)).kv_store
apply_op_once i j o ops s w room =
    let m = spec_of s in
    let first = apply_op-Serves i o m s (length ops + 1) (record {
      refines = record { store = refl; seqs = λ c. refl };
      distinct = w;
      room = omega (arith, room);
    }) in
    let between = apply_ops-Serves ops (spec_op o m) (apply_op i o s) 1 first in
    let second = apply_op-Serves j o (spec_ops ops (spec_op o m)) _ 0 between in
    let done =
      spec_op_again o (spec_ops ops (spec_op o m))
        (omega (arith, spec_op_reaches o m, spec_ops_grow ops (spec_op o m) o.client_id)) in
    second.refines.store ∙ ap (λ t. t.kv_store) done ∙ sym between.refines.store

-- A committed entry whose bytes are those of a command that fits its machine integers is that command.
pub apply_command-put_op :
    (i : ℕ) (o : Op) (s : KvState) → OpFits o → apply_command normal i (put_op o) s ≡ apply_op i o s
unfolding apply_command
apply_command-put_op i o s h = rw (decode_op o h, apply_command) refl
