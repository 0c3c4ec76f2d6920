-- ===== src/Kv/Server/Once.antt =====
-- kvraft/server.cpp: a command against one table of sequence numbers for all clients, which has no
-- sessions to reap and no tombstones.
use chon_kv.Base.{
  ℕ, suc, ◌+◌, ◌≤◌, ◌<◌, ◌≡◌, refl, sym, ap, subst, ◌∙◌, inl, inr, true, false, if◌then◌else◌, ltb,
  ◌==◌, Bool-cases, ℤ, eqz, eqz_iff, List, [], ◌∷◌, ◌++◌, arith, length,
}
use chon_kv.Kv.Messages.{Op}
use chon_kv.Kv.Sessions.{Session, Fence, remove_session, get_seq, put_seq, existing_seq, reap_idle}
use chon_kv.Kv.Sessions.Lookup.{AreDistinct}
use chon_kv.Kv.Sessions.Reap.{seq_in, known, reap_idle-Reaped, reap_over-Reaped, known_same}
use chon_kv.Kv.Server.{Pair, KvState, fence_cap, execute, run_op, apply_op, reap}
use chon_kv.Kv.Server.Touch.{Touched, renewed, get_seq-Touched}

-- One table of the last sequence number of every client, and the store.
pub record Spec : Type 0 where
  pub kv_store : List Pair
  pub last_seq : ℤ → ℕ

-- A command runs if its number is past the client's.
unfoldable pub spec_op : Op → Spec → Spec
spec_op o m =
    if ltb (m.last_seq o.client_id) o.seq_id
    then record {
      kv_store = execute o m.kv_store;
      last_seq = λ c. if eqz o.client_id c then o.seq_id else m.last_seq c;
    }
    else m

-- The server's state stands for the table.
pub record Refines (m : Spec) (s : KvState) : Type 0 where
  pub store : s.kv_store ≡ m.kv_store
  pub seqs : (c : ℤ) → known c s.sessions s.fenced ≡ m.last_seq c

pub known_positive :
    (c : ℤ) (n : ℕ) (es : List Session) (fs : List Fence)
    → seq_in c es ≡ n
    → 0 < n
    → known c es fs ≡ n
unfolding existing_seq
known_positive c n es fs h p =
    let positive : (n == 0) ≡ false = ground (arith, p) in
    subst (λ k. existing_seq c k fs ≡ n) (sym h) (rw positive refl)

-- The server stands for the table, with room for the tombstones of `n` more clients.
pub record Serves (m : Spec) (s : KvState) (n : ℕ) : Type 0 where
  pub refines : Refines m s
  pub distinct : AreDistinct s.sessions
  pub room : length s.sessions + length s.fenced + n ≤ fence_cap

ran :
    (i : ℕ) (o : Op) (m : Spec) (s : KvState) (n : ℕ)
    → Serves m s (suc n)
    → ltb (m.last_seq o.client_id) o.seq_id ≡ true
    → (g : ℕ × List Session) → Touched o.client_id s.sessions g
    → Serves
        (record {
          kv_store = execute o m.kv_store;
          last_seq = λ c. if eqz o.client_id c then o.seq_id else m.last_seq c;
        })
        (record s {
          kv_store = execute o s.kv_store;
          sessions = put_seq o.client_id o.seq_id i g.1;
        })
        n
unfolding put_seq
ran i o m s n h e g t =
    let p : 0 < o.seq_id = ground (arith, e) in
    let new : Session = record { client_id = o.client_id; last_seq = o.seq_id; last_index = i } in
    let r = renewed new g.1 t.distinct p in
    record {
      refines = record {
        store = ap (execute o) h.refines.store;
        seqs = λ c. elim (Bool-cases (eqz o.client_id c)) [
          | inl me ↦ rw me (
              known_positive c o.seq_id _ s.fenced
                (subst (λ d. seq_in d (remove_session o.client_id g.1 ++ new ∷ []) ≡ o.seq_id)
                  ((eqz_iff o.client_id c).0 me) r.mine)
                p)
          | inr other ↦ rw other (
              known_same c _ s.sessions s.fenced s.fenced (r.others c other ∙ t.same c) refl
              ∙ h.refines.seqs c)
        ];
      };
      distinct = r.distinct;
      room = omega (arith, h.room, r.count, t.count);
    }

skipped :
    (o : Op) (m : Spec) (s : KvState) (n : ℕ)
    → Serves m s (suc n)
    → (g : ℕ × List Session) → Touched o.client_id s.sessions g
    → Serves m (record s { sessions = g.1 }) n
skipped o m s n h g t = record {
  refines = record {
    store = h.refines.store;
    seqs = λ c. known_same c g.1 s.sessions s.fenced s.fenced (t.same c) refl ∙ h.refines.seqs c;
  };
  distinct = t.distinct;
  room = omega (arith, h.room, t.count);
}

run_op-Serves :
    (i : ℕ) (o : Op) (m : Spec) (s : KvState) (n : ℕ)
    → Serves m s (suc n)
    → Serves (spec_op o m) (run_op i o s) n
unfolding run_op spec_op
run_op-Serves i o m s n h =
    let t = get_seq-Touched o.client_id i s.sessions h.distinct in
    let same : existing_seq o.client_id (get_seq o.client_id i s.sessions).0 s.fenced
        ≡ m.last_seq o.client_id =
      ap (λ k. existing_seq o.client_id k s.fenced) t.seq ∙ h.refines.seqs o.client_id in
    elim (Bool-cases (ltb (m.last_seq o.client_id) o.seq_id)) [
      | inl e ↦
          rw (same, e, run_op, spec_op) (ran i o m s n h e (get_seq o.client_id i s.sessions) t)
      | inr e ↦
          rw (same, e, run_op, spec_op) (skipped o m s n h (get_seq o.client_id i s.sessions) t)
    ]

reap-Serves : (i : ℕ) (m : Spec) (s : KvState) (n : ℕ) → Serves m s n → Serves m (reap i s) n
unfolding reap
reap-Serves i m s n h =
    let a =
      reap_idle-Reaped fence_cap i s.max_idle_index s.sessions s.fenced h.distinct
        (omega (arith, h.room)) in
    let r = reap_idle fence_cap i s.max_idle_index s.sessions s.fenced in
    let b =
      reap_over-Reaped fence_cap s.session_cap r.0 r.1 a.distinct
        (omega (arith, h.room, a.count)) in
    record {
      refines = record {
        store = h.refines.store;
        seqs = λ c. b.same c ∙ a.same c ∙ h.refines.seqs c;
      };
      distinct = b.distinct;
      room = omega (arith, h.room, a.count, b.count);
    }

pub apply_op-Serves :
    (i : ℕ) (o : Op) (m : Spec) (s : KvState) (n : ℕ)
    → Serves m s (suc n)
    → Serves (spec_op o m) (apply_op i o s) n
unfolding apply_op
apply_op-Serves i o m s n h =
    let r = reap-Serves i (spec_op o m) (run_op i o s) n (run_op-Serves i o m s n h) in
    record {
      refines = record { store = r.refines.store; seqs = r.refines.seqs };
      distinct = r.distinct;
      room = r.room;
    }
