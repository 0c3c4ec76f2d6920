-- ===== src/Kv/Snapshot/Resumes.antt =====
-- kvraft/server.cpp: a server that installs a snapshot, beside the one that took it.
use chon_kv.Base.{
  ℕ, ◌≡◌, ◌≤◌, refl, sym, ap, ◌∙◌, none, some, List, [], ◌∷◌, inl, inr, true, false, ltb, leb,
  if◌then◌else◌, Option, Bool-cases, Option-cases, max, arith,
}
use mathlib.Core.Option.{some-injective}
use chon_kv.Codec.{decode_all}
use chon_kv.Raft.Types.{EntryType, normal, conf_change, no_op, ApplyMsg}
use chon_kv.Kv.Messages.{Op, get_op}
use chon_kv.Kv.Sessions.{get_seq, existing_seq}
use chon_kv.Kv.Server.{KvState, run_op, apply_op, reap, skip_entry, apply_command}
use chon_kv.Kv.Snapshot.{
  contents_of, encode_snapshot, get_contents, apply_snapshot, apply_installed, apply_msg,
  apply_msgs, clear_waiters,
}
use chon_kv.Kv.Snapshot.RoundTrip.{IsSound, ContentsFits, apply_snapshot-encode_snapshot}

-- The replicated part of the state: without the waiters, which each server has of its own.
abbrev pub machine : KvState → KvState
machine s = record s { msg_replies = [] }

abbrev pub machines : Option KvState → Option KvState
machines none = none
machines (some s) = some (machine s)

run_op-machine : (i : ℕ) (o : Op) (s : KvState) → machine (run_op i o s) ≡ run_op i o (machine s)
unfolding run_op
run_op-machine i o s =
    elim (Bool-cases
      (ltb (existing_seq o.client_id (get_seq o.client_id i s.sessions).0 s.fenced) o.seq_id)) [
        | inl e ↦ rw (e, run_op) refl
        | inr e ↦ rw (e, run_op) refl
      ]

reap-machine : (i : ℕ) (s : KvState) → machine (reap i s) ≡ reap i (machine s)
unfolding reap
reap-machine i s = refl

apply_op-machine :
    (i : ℕ) (o : Op) (s : KvState) → machine (apply_op i o s) ≡ machine (apply_op i o (machine s))
unfolding apply_op
apply_op-machine i o s =
    ap (λ (r : KvState). record r { msg_replies = []; last_cmd_index = max r.last_cmd_index i })
      (reap-machine i (run_op i o s) ∙ ap (reap i) (run_op-machine i o s))

skip_entry-machine :
    (i : ℕ) (s : KvState) → machine (skip_entry i s) ≡ machine (skip_entry i (machine s))
unfolding skip_entry
skip_entry-machine i s = refl

decoded-machine :
    (i : ℕ) (c : List ℕ) (s : KvState)
    → machine (elim (decode_all get_op c) [ none ↦ skip_entry i s | some o ↦ apply_op i o s ])
      ≡ machine (elim (decode_all get_op c) [
        | none ↦ skip_entry i (machine s)
        | some o ↦ apply_op i o (machine s)
      ])
decoded-machine i c s = elim (Option-cases (decode_all get_op c)) [
  | inl e ↦ rw e (skip_entry-machine i s)
  | inr (o, e) ↦ rw e (apply_op-machine i o s)
]

apply_command-machine :
    (t : EntryType) (i : ℕ) (c : List ℕ) (s : KvState)
    → machine (apply_command t i c s) ≡ machine (apply_command t i c (machine s))
unfolding apply_command
apply_command-machine no_op i c s = skip_entry-machine i s
apply_command-machine conf_change i c s = skip_entry-machine i s
apply_command-machine normal i c s = decoded-machine i c s
apply_command-machine (EntryType.unknown v) i c s = decoded-machine i c s

apply_snapshot-machine :
    (blob : List ℕ) (s : KvState)
    → machines (apply_snapshot blob s) ≡ apply_snapshot blob (machine s)
unfolding apply_snapshot
apply_snapshot-machine blob s = elim (Option-cases (decode_all get_contents blob)) [
  | inl e ↦ rw (e, apply_snapshot) refl
  | inr (p, e) ↦ rw (e, apply_snapshot) refl
]

-- What ApplierLoop does once the snapshot is decoded.
abbrev accept : ℕ → KvState → Option KvState → Option KvState
accept i s o = elim o [
  | none ↦ none
  | some r ↦
      if leb s.last_cmd_index i
      then some (record r { last_cmd_index = i; msg_replies = clear_waiters i r.msg_replies })
      else none
]

accept-machine :
    (i : ℕ) (s : KvState) (o : Option KvState)
    → machines (accept i s o) ≡ machines (accept i (machine s) (machines o))
accept-machine i s none = refl
accept-machine i s (some r) = elim (Bool-cases (leb s.last_cmd_index i)) [
  | inl new ↦ rw new refl
  | inr old ↦ rw old refl
]

apply_installed-machine :
    (i : ℕ) (blob : List ℕ) (s : KvState)
    → machines (apply_installed i blob s) ≡ machines (apply_installed i blob (machine s))
unfolding apply_installed
apply_installed-machine i blob s =
    accept-machine i s (apply_snapshot blob s)
    ∙ ap (λ o. machines (accept i (machine s) o)) (apply_snapshot-machine blob s)

apply_msg-machine :
    (m : ApplyMsg) (s : KvState) → machines (apply_msg m s) ≡ machines (apply_msg m (machine s))
unfolding apply_msg
apply_msg-machine m s = elim (Bool-cases m.command_valid) [
  | inl e ↦
      rw (e, apply_msg) (ap some (apply_command-machine m.entry_type m.command_index m.command s))
  | inr e ↦ elim (Bool-cases m.snapshot_valid) [
    | inl f ↦ rw (e, f, apply_msg) (apply_installed-machine m.snapshot_index m.snapshot s)
    | inr f ↦ rw (e, f, apply_msg) refl
  ]
]

then_alike :
    (f : KvState → Option KvState)
    → ((r u : KvState) → machine r ≡ machine u → machines (f r) ≡ machines (f u))
    → (o p : Option KvState) → machines o ≡ machines p
    → machines (elim o [ none ↦ none | some r ↦ f r ])
      ≡ machines (elim p [ none ↦ none | some r ↦ f r ])
then_alike f h none none e = refl
then_alike f h none (some r) e = cc e
then_alike f h (some r) none e = cc e
then_alike f h (some r) (some u) e = h r u (some-injective _ _ e)

-- Two servers that differ in their waiters alone go on alike.
apply_msgs-machine :
    (ms : List ApplyMsg) (s t : KvState)
    → machine s ≡ machine t
    → machines (apply_msgs ms s) ≡ machines (apply_msgs ms t)
unfolding apply_msgs
apply_msgs-machine [] s t h = ap some h
apply_msgs-machine (m ∷ ms) s t h =
    then_alike (apply_msgs ms) (apply_msgs-machine ms) (apply_msg m s) (apply_msg m t)
      (apply_msg-machine m s ∙ ap (λ u. machines (apply_msg m u)) h ∙ sym (apply_msg-machine m t))

-- The message that installs the snapshot of a server.
abbrev pub snapshot_msg : KvState → ApplyMsg
snapshot_msg s = record {
  command_valid = false;
  command = [];
  command_index = 0;
  entry_type = normal;
  snapshot_valid = true;
  snapshot = encode_snapshot s;
  snapshot_term = 0;
  snapshot_index = s.last_cmd_index;
}

-- A server that is not ahead of a sound server whose numbers and sizes fit their machine integers, and
-- has its limits, goes on as that server once it has installed its snapshot: whatever messages come
-- after, both abort, or both have the same store, sessions, tombstones and last index.
pub apply_msgs-snapshot_msg :
    (s t : KvState) (ms : List ApplyMsg)
    → IsSound s
    → ContentsFits (contents_of s)
    → t.last_cmd_index ≤ s.last_cmd_index
    → t.session_cap ≡ s.session_cap
    → t.max_idle_index ≡ s.max_idle_index
    → machines (apply_msgs (snapshot_msg s ∷ ms) t) ≡ machines (apply_msgs ms s)
unfolding apply_msgs apply_msg apply_installed
apply_msgs-snapshot_msg s t ms w h late caps idle =
    let new : leb t.last_cmd_index s.last_cmd_index ≡ true = ground (arith, late) in
    rw (apply_snapshot-encode_snapshot s t w h, new, apply_msgs)
      (apply_msgs-machine ms _ s (
        ap (λ n. record s { session_cap = n; max_idle_index = t.max_idle_index; msg_replies = [] })
          caps
        ∙ ap (λ n. record s { max_idle_index = n; msg_replies = [] }) idle))
