-- ===== src/Kv/Snapshot/Sound.antt =====
-- kvraft/server.cpp: the messages of the channel and the shape of the state.
use chon_kv.Base.{
  ℕ, subst, none, some, List, [], ◌∷◌, inl, inr, ltb, leb, Bool-cases, Option-cases, Option,
}
use chon_kv.Codec.{decode_all}
use chon_kv.Raft.Types.{EntryType, normal, conf_change, no_op, ApplyMsg}
use chon_kv.Kv.Messages.{Op, get_op}
use chon_kv.Kv.Sessions.{Session, Fence, get_seq, reap_idle, find_fence, existing_seq, load_session}
use chon_kv.Kv.Sessions.Unique.{Unique, clients, fenced_clients}
use chon_kv.Kv.Sessions.Kept.{
  put_seq-Unique, get_seq-Unique, load_session-Unique, append-Unique, reap_idle-Kept,
  reap_over-Kept,
}
use chon_kv.Kv.Server.{
  Pair, KvState, fence_cap, run_op, apply_op, reap, skip_entry, apply_command, set_key,
}
use chon_kv.Kv.Server.Ordered.{AreOrdered, set_key-AreOrdered, execute-AreOrdered}
use chon_kv.Kv.Snapshot.{
  get_contents, store_all, load_all, insert_fence, insert_all, apply_snapshot, apply_installed,
  apply_msg, apply_msgs,
}
use chon_kv.Kv.Snapshot.RoundTrip.{IsSound}

run_op-IsSound : (i : ℕ) (o : Op) (s : KvState) → IsSound s → IsSound (run_op i o s)
unfolding run_op
run_op-IsSound i o s w =
    let touched = get_seq-Unique o.client_id i s.sessions w.sessions in
    elim (Bool-cases
      (ltb (existing_seq o.client_id (get_seq o.client_id i s.sessions).0 s.fenced) o.seq_id)) [
        | inl e ↦
            rw (e, run_op)
              (record {
                store = execute-AreOrdered o s.kv_store w.store;
                sessions =
                    put_seq-Unique o.client_id o.seq_id i (get_seq o.client_id i s.sessions).1
                      touched;
                fences = w.fences;
              })
        | inr e ↦ rw (e, run_op) (record { store = w.store; sessions = touched; fences = w.fences })
      ]

reap-IsSound : (i : ℕ) (s : KvState) → IsSound s → IsSound (reap i s)
unfolding reap
reap-IsSound i s w =
    let a = reap_idle-Kept fence_cap i s.max_idle_index s.sessions s.fenced w.sessions w.fences in
    let r = reap_idle fence_cap i s.max_idle_index s.sessions s.fenced in
    let b = reap_over-Kept fence_cap s.session_cap r.0 r.1 a.sessions a.fences in
    record { store = w.store; sessions = b.sessions; fences = b.fences }

apply_op-IsSound : (i : ℕ) (o : Op) (s : KvState) → IsSound s → IsSound (apply_op i o s)
unfolding apply_op
apply_op-IsSound i o s w =
    let r = reap-IsSound i (run_op i o s) (run_op-IsSound i o s w) in
    record { store = r.store; sessions = r.sessions; fences = r.fences }

skip_entry-IsSound : (i : ℕ) (s : KvState) → IsSound s → IsSound (skip_entry i s)
unfolding skip_entry
skip_entry-IsSound i s w = record { store = w.store; sessions = w.sessions; fences = w.fences }

decoded-IsSound :
    (i : ℕ) (c : List ℕ) (s : KvState)
    → IsSound s
    → IsSound (elim (decode_all get_op c) [ none ↦ skip_entry i s | some o ↦ apply_op i o s ])
decoded-IsSound i c s w = elim (Option-cases (decode_all get_op c)) [
  | inl e ↦ rw e (skip_entry-IsSound i s w)
  | inr (o, e) ↦ rw e (apply_op-IsSound i o s w)
]

apply_command-IsSound :
    (t : EntryType) (i : ℕ) (c : List ℕ) (s : KvState) → IsSound s → IsSound (apply_command t i c s)
unfolding apply_command
apply_command-IsSound no_op i c s w = skip_entry-IsSound i s w
apply_command-IsSound conf_change i c s w = skip_entry-IsSound i s w
apply_command-IsSound normal i c s w = decoded-IsSound i c s w
apply_command-IsSound (EntryType.unknown v) i c s w = decoded-IsSound i c s w

store_all-AreOrdered : (more ps : List Pair) → AreOrdered ps → AreOrdered (store_all more ps)
unfolding store_all
store_all-AreOrdered [] ps w = w
store_all-AreOrdered (p ∷ more) ps w =
    store_all-AreOrdered more (set_key p.key p.value ps) (set_key-AreOrdered p.key p.value ps w)

load_all-Unique :
    (more es : List Session) → Unique (clients es) → Unique (clients (load_all more es))
unfolding load_all
load_all-Unique [] es w = w
load_all-Unique (n ∷ more) es w =
    load_all-Unique more (load_session n es) (load_session-Unique n es w)

insert_fence-Unique :
    (n : Fence) (fs : List Fence)
    → Unique (fenced_clients fs)
    → Unique (fenced_clients (insert_fence n fs))
unfolding insert_fence
insert_fence-Unique n fs w = elim (Option-cases (find_fence n.client_id fs)) [
  | inl new ↦ rw (new, insert_fence) (append-Unique n fs w new)
  | inr (f, old) ↦ rw (old, insert_fence) w
]

insert_all-Unique :
    (more fs : List Fence)
    → Unique (fenced_clients fs)
    → Unique (fenced_clients (insert_all more fs))
unfolding insert_all
insert_all-Unique [] fs w = w
insert_all-Unique (n ∷ more) fs w =
    insert_all-Unique more (insert_fence n fs) (insert_fence-Unique n fs w)

-- What holds of the result, where there is one.
abbrev pub Then : (KvState → Type 0) → Option KvState → Type 0
Then P none = Unit {0}
Then P (some r) = P r

-- Whatever bytes a snapshot has, a state rebuilt from them is sound.
apply_snapshot-IsSound : (blob : List ℕ) (s : KvState) → Then IsSound (apply_snapshot blob s)
unfolding apply_snapshot
apply_snapshot-IsSound blob s = elim (Option-cases (decode_all get_contents blob)) [
  | inl e ↦ rw (e, apply_snapshot) tt
  | inr (p, e) ↦
      rw (e, apply_snapshot)
        (record {
          store = store_all-AreOrdered p.pairs [] tt;
          sessions = load_all-Unique p.sessions [] tt;
          fences = insert_all-Unique p.fences [] tt;
        })
]

apply_installed-IsSound :
    (i : ℕ) (blob : List ℕ) (s : KvState) → Then IsSound (apply_installed i blob s)
unfolding apply_installed
apply_installed-IsSound i blob s = elim (Option-cases (apply_snapshot blob s)) [
  | inl e ↦ rw (e, apply_installed) tt
  | inr (r, e) ↦
      let w = subst (Then IsSound) e (apply_snapshot-IsSound blob s) in
      elim (Bool-cases (leb s.last_cmd_index i)) [
        | inl new ↦
            rw (e, new, apply_installed)
              (record { store = w.store; sessions = w.sessions; fences = w.fences })
        | inr old ↦ rw (e, old, apply_installed) tt
      ]
]

apply_msg-IsSound : (m : ApplyMsg) (s : KvState) → IsSound s → Then IsSound (apply_msg m s)
unfolding apply_msg
apply_msg-IsSound m s w = elim (Bool-cases m.command_valid) [
  | inl e ↦ rw (e, apply_msg) (apply_command-IsSound m.entry_type m.command_index m.command s w)
  | inr e ↦ elim (Bool-cases m.snapshot_valid) [
    | inl f ↦ rw (e, f, apply_msg) (apply_installed-IsSound m.snapshot_index m.snapshot s)
    | inr f ↦ rw (e, f, apply_msg) w
  ]
]

-- Whatever messages the channel brings, be they commands or snapshots of any bytes, a server that was
-- sound and has not aborted is sound: its keys are in order, and no client has two sessions or two
-- tombstones.
pub apply_msgs-IsSound :
    (ms : List ApplyMsg) (s : KvState) → IsSound s → Then IsSound (apply_msgs ms s)
unfolding apply_msgs
apply_msgs-IsSound [] s w = w
apply_msgs-IsSound (m ∷ ms) s w = elim (Option-cases (apply_msg m s)) [
  | inl e ↦ rw (e, apply_msgs) tt
  | inr (r, e) ↦
      rw (e, apply_msgs)
        (apply_msgs-IsSound ms r (subst (Then IsSound) e (apply_msg-IsSound m s w)))
]
