-- ===== src/Kv/Server/Touch.antt =====
-- kvraft/server.cpp: the session of a command's client, touched and put.
use chon_kv.Base.{
  ℕ, suc, ◌≤◌, ◌<◌, ◌≡◌, refl, sym, ap, subst, ◌∙◌, inl, inr, false, Bool-cases, Option-cases, some,
  ℤ, eqz, eqz_iff, List, [], ◌∷◌, ◌++◌, arith, length, length-append,
}
use chon_kv.Kv.Sessions.{Session, find_session, remove_session, get_seq}
use chon_kv.Kv.Sessions.Fences.{eqz_same}
use chon_kv.Kv.Sessions.Lookup.{
  AreDistinct, renew-AreDistinct, find_session-append_new, find_session-append_other,
  find_session-remove_same, find_session-remove_other, find_session_client, length-remove_session,
  length-remove_session_found,
}
use chon_kv.Kv.Sessions.Reap.{seq_of, seq_in, seq_in_same}

-- A renewed session at the end: what its client and the others find.
seq_in-renew_same :
    (n : Session) (es : List Session)
    → seq_in n.client_id (remove_session n.client_id es ++ n ∷ []) ≡ n.last_seq
seq_in-renew_same n es = ap seq_of (
    find_session-append_new n.client_id n (remove_session n.client_id es)
      (find_session-remove_same n.client_id es) (eqz_same n.client_id))

seq_in-renew_other :
    (c : ℤ) (n : Session) (es : List Session)
    → eqz n.client_id c ≡ false
    → seq_in c (remove_session n.client_id es ++ n ∷ []) ≡ seq_in c es
seq_in-renew_other c n es e = seq_in_same c (remove_session n.client_id es ++ n ∷ []) es (
    find_session-append_other c n (remove_session n.client_id es) e
    ∙ find_session-remove_other c n.client_id es e)

length-renew :
    (n : Session) (es : List Session)
    → length (remove_session n.client_id es ++ n ∷ []) ≤ suc (length es)
length-renew n es = omega (
  arith,
  length-append (remove_session n.client_id es) (n ∷ []),
  length-remove_session n.client_id es,
)

-- What touching or putting a session leaves: the tombstones stay.
pub record Renewed (n : Session) (es new : List Session) : Type 0 where
  pub distinct : AreDistinct new
  pub mine : seq_in n.client_id new ≡ n.last_seq
  pub others : (c : ℤ) → eqz n.client_id c ≡ false → seq_in c new ≡ seq_in c es
  pub count : length new ≤ suc (length es)

pub renewed :
    (n : Session) (es : List Session)
    → AreDistinct es
    → 0 < n.last_seq
    → Renewed n es (remove_session n.client_id es ++ n ∷ [])
renewed n es w p = record {
  distinct = renew-AreDistinct n es w p;
  mine = seq_in-renew_same n es;
  others = λ c e. seq_in-renew_other c n es e;
  count = length-renew n es;
}

-- Touching a client's session changes no number.
pub record Touched (c : ℤ) (es : List Session) (r : ℕ × List Session) : Type 0 where
  pub seq : r.0 ≡ seq_in c es
  pub distinct : AreDistinct r.1
  pub same : (d : ℤ) → seq_in d r.1 ≡ seq_in d es
  pub count : length r.1 ≤ length es

positive_in :
    (c : ℤ) (es : List Session) (e : Session)
    → AreDistinct es
    → find_session c es ≡ some e
    → 0 < e.last_seq
unfolding find_session
positive_in c [] e w h = cc h
positive_in c (f ∷ es) e w h = elim (Bool-cases (eqz f.client_id c)) [
  | inl same ↦ head f e (rw same at h) w.0
  | inr other ↦ positive_in c es e w.1.1 (rw other at h)
]
  where
    head : (f e : Session) → some f ≡ some e → 0 < f.last_seq → 0 < e.last_seq
    head f e p lt = omega (arith, ap seq_of p)

pub get_seq-Touched :
    (c : ℤ) (now : ℕ) (es : List Session) → AreDistinct es → Touched c es (get_seq c now es)
unfolding get_seq
get_seq-Touched c now es w = elim (Option-cases (find_session c es)) [
  | inl gone ↦
      rw (gone, get_seq)
        (record { seq = sym (ap seq_of gone); distinct = w; same = λ d. refl; count = omega arith })
  | inr (e, found) ↦
      let mine = find_session_client c es e found in
      rw (found, get_seq)
        (touched e (record e { last_index = now }) mine refl found (positive_in c es e w found))
]
  where
    touched :
        (e n : Session)
        → n.client_id ≡ c
        → n.last_seq ≡ e.last_seq
        → find_session c es ≡ some e
        → 0 < e.last_seq
        → Touched c es (e.last_seq, remove_session c es ++ n ∷ [])
    touched e n mine kept found p =
        let r : Renewed n es (remove_session c es ++ n ∷ []) =
          subst (λ d. Renewed n es (remove_session d es ++ n ∷ [])) mine
            (renewed n es w (omega arith)) in
        record {
          seq = sym (ap seq_of found);
          distinct = r.distinct;
          same = λ d. elim (Bool-cases (eqz n.client_id d)) [
            | inl me ↦
                let here = (eqz_iff n.client_id d).0 me in
                let found' : seq_in d es ≡ e.last_seq =
                  subst (λ x. seq_in x es ≡ e.last_seq) (sym mine ∙ here) (ap seq_of found) in
                subst (λ x. seq_in x (remove_session c es ++ n ∷ []) ≡ n.last_seq) here r.mine
                ∙ kept
                ∙ sym found'
            | inr other ↦ r.others d other
          ];
          count = omega (
            arith,
            length-append (remove_session c es) (n ∷ []),
            length-remove_session_found c es e found,
          );
        }
