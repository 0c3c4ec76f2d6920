-- ===== src/Kv/Requests/Events.antt =====
-- kvraft/server.cpp: what happens to a waiter while messages are applied.
use chon_kv.Base.{
  ℕ, ◌≡◌, ◌≢◌, refl, sym, subst, inl, inr, true, false, ltb, leb, ◌==◌, ℤ, Bool-cases, Option-cases,
  Option, none, some, List, [], ◌∷◌, Any, here, there, arith,
}
use chon_kv.Codec.{decode_all}
use chon_kv.Raft.Types.{EntryType, normal, conf_change, no_op, ApplyMsg}
use chon_kv.Kv.Messages.{Op, get_op}
use chon_kv.Kv.Sessions.{get_seq, existing_seq}
use chon_kv.Kv.Server.{KvState, run_op, reap, apply_op, skip_entry, apply_command}
use chon_kv.Kv.Snapshot.{apply_snapshot, apply_installed, apply_msg, get_contents}
use chon_kv.Kv.Requests.{Event, message, waiter_made, waiter_gone, step_event, run_events}
use chon_kv.Kv.Requests.Waiters.{
  Slot, answer_waiter-Slot, clear_waiter-Slot, clear_waiters-Slot, put_waiter-Slot,
  erase_waiter-Slot,
}

-- The message is a committed entry at the index, and its command is the client's.
pub record Carries (i : ℕ) (c : ℤ) (q : ℕ) (m : ApplyMsg) : Type 0 where
  pub command_valid : m.command_valid ≡ true
  pub index : m.command_index ≡ i
  pub op : Op
  pub decoded : decode_all get_op m.command ≡ some op
  pub client : op.client_id ≡ c
  pub seq : op.seq_id ≡ q

abbrev pub EventCarries : ℕ → ℤ → ℕ → Event → Type 0
EventCarries i c q (message m) = Carries i c q m
EventCarries i c q (waiter_made n) = ⊥
EventCarries i c q (waiter_gone j) = ⊥

-- No other WaitOp makes or takes a waiter of the index.
abbrev pub LeavesAlone : ℕ → Event → Type 0
LeavesAlone i (message m) = Unit {0}
LeavesAlone i (waiter_made n) = n.index ≢ i
LeavesAlone i (waiter_gone j) = j ≢ i

abbrev pub Alone : ℕ → List Event → Type 0
Alone i [] = Unit {0}
Alone i (e ∷ es) = LeavesAlone i e × Alone i es

unequal : (a b : ℕ) → a ≢ b → (a == b) ≡ false
unequal a b h = ground (arith, h)

run_op_waiters :
    (i : ℕ) (o : Op) (s : KvState) → (reap i (run_op i o s)).msg_replies ≡ s.msg_replies
unfolding run_op reap
run_op_waiters i o s =
    elim (Bool-cases
      (ltb (existing_seq o.client_id (get_seq o.client_id i s.sessions).0 s.fenced) o.seq_id)) [
        | inl e ↦ rw e refl
        | inr e ↦ rw e refl
      ]

-- The arm for an entry that carries a command.
abbrev decoded : ℕ → List ℕ → KvState → KvState
decoded j b s = elim (decode_all get_op b) [ none ↦ skip_entry j s | some o ↦ apply_op j o s ]

module _ (i : ℕ) (c : ℤ) (q : ℕ) (G : Type 0) where
  apply_op-Slot :
      (j : ℕ) (o : Op) (s : KvState)
      → (j ≡ i → o.client_id ≡ c → o.seq_id ≡ q → G)
      → Slot i c q G s.msg_replies
      → Slot i c q G (apply_op j o s).msg_replies
  unfolding apply_op
  apply_op-Slot j o s g h =
      answer_waiter-Slot j o.client_id o.seq_id i c q G (reap j (run_op j o s)).msg_replies g
        (subst (Slot i c q G) (sym (run_op_waiters j o s)) h)

  skip_entry-Slot :
      (j : ℕ) (s : KvState) → Slot i c q G s.msg_replies → Slot i c q G (skip_entry j s).msg_replies
  unfolding skip_entry
  skip_entry-Slot j s h = clear_waiter-Slot j i c q G s.msg_replies h

  decoded-Slot :
      (j : ℕ) (b : List ℕ) (s : KvState)
      → ((o : Op) → decode_all get_op b ≡ some o → j ≡ i → o.client_id ≡ c → o.seq_id ≡ q → G)
      → Slot i c q G s.msg_replies
      → Slot i c q G (decoded j b s).msg_replies
  decoded-Slot j b s g h = elim (Option-cases (decode_all get_op b)) [
    | inl e ↦ rw (e, decoded) (skip_entry-Slot j s h)
    | inr (o, e) ↦ rw (e, decoded) (apply_op-Slot j o s (g o e) h)
  ]

  apply_command-Slot :
      (t : EntryType) (j : ℕ) (b : List ℕ) (s : KvState)
      → ((o : Op) → decode_all get_op b ≡ some o → j ≡ i → o.client_id ≡ c → o.seq_id ≡ q → G)
      → Slot i c q G s.msg_replies
      → Slot i c q G (apply_command t j b s).msg_replies
  unfolding apply_command
  apply_command-Slot no_op j b s g h = skip_entry-Slot j s h
  apply_command-Slot conf_change j b s g h = skip_entry-Slot j s h
  apply_command-Slot normal j b s g h = decoded-Slot j b s g h
  apply_command-Slot (EntryType.unknown v) j b s g h = decoded-Slot j b s g h

-- What holds of the waiters of a state, where there is one.
abbrev pub SlotIn : ℕ → ℤ → ℕ → Type 0 → Option KvState → Type 0
SlotIn i c q G none = Unit {0}
SlotIn i c q G (some s) = Slot i c q G s.msg_replies

module _ (i : ℕ) (c : ℤ) (q : ℕ) (G : Type 0) where
  apply_snapshot-Slot :
      (blob : List ℕ) (s : KvState)
      → Slot i c q G s.msg_replies
      → SlotIn i c q G (apply_snapshot blob s)
  unfolding apply_snapshot
  apply_snapshot-Slot blob s h = elim (Option-cases (decode_all get_contents blob)) [
    | inl e ↦ rw (e, apply_snapshot) tt
    | inr (p, e) ↦ rw (e, apply_snapshot) h
  ]

  apply_installed-Slot :
      (j : ℕ) (blob : List ℕ) (s : KvState)
      → Slot i c q G s.msg_replies
      → SlotIn i c q G (apply_installed j blob s)
  unfolding apply_installed
  apply_installed-Slot j blob s h = elim (Option-cases (apply_snapshot blob s)) [
    | inl e ↦ rw (e, apply_installed) tt
    | inr (r, e) ↦
        let w = subst (SlotIn i c q G) e (apply_snapshot-Slot blob s h) in
        elim (Bool-cases (leb s.last_cmd_index j)) [
          | inl new ↦ rw (e, new, apply_installed) (clear_waiters-Slot j i c q G r.msg_replies w)
          | inr old ↦ rw (e, old, apply_installed) tt
        ]
  ]

  apply_msg-Slot :
      (m : ApplyMsg) (s : KvState)
      → (Carries i c q m → G)
      → Slot i c q G s.msg_replies
      → SlotIn i c q G (apply_msg m s)
  unfolding apply_msg
  apply_msg-Slot m s g h = elim (Bool-cases m.command_valid) [
    | inl e ↦
        rw (e, apply_msg)
          (apply_command-Slot i c q G m.entry_type m.command_index m.command s
            (λ o d x y z.
              g (record { command_valid = e; index = x; op = o; decoded = d; client = y; seq = z }))
            h)
    | inr e ↦ elim (Bool-cases m.snapshot_valid) [
      | inl f ↦ rw (e, f, apply_msg) (apply_installed-Slot m.snapshot_index m.snapshot s h)
      | inr f ↦ rw (e, f, apply_msg) h
    ]
  ]

  step_event-Slot :
      (e : Event) (s : KvState)
      → LeavesAlone i e
      → (EventCarries i c q e → G)
      → Slot i c q G s.msg_replies
      → SlotIn i c q G (step_event e s)
  unfolding step_event
  step_event-Slot (message m) s a g h = apply_msg-Slot m s g h
  step_event-Slot (waiter_made n) s a g h =
      put_waiter-Slot n i c q G s.msg_replies (unequal n.index i a) h
  step_event-Slot (waiter_gone j) s a g h =
      erase_waiter-Slot j i c q G s.msg_replies (unequal j i a) h

  pub run_events-Slot :
      (es : List Event) (s : KvState)
      → Alone i es
      → (Any (EventCarries i c q) es → G)
      → Slot i c q G s.msg_replies
      → SlotIn i c q G (run_events es s)
  unfolding run_events
  run_events-Slot [] s a g h = h
  run_events-Slot (e ∷ es) s a g h = elim (Option-cases (step_event e s)) [
    | inl p ↦ rw (p, run_events) tt
    | inr (r, p) ↦
        rw (p, run_events)
          (run_events-Slot es r a.1 (λ x. g (there x))
            (subst (SlotIn i c q G) p (step_event-Slot e s a.0 (λ x. g (here x)) h)))
  ]
