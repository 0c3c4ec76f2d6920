-- ===== src/Kv/Sessions/Lookup.antt =====
-- kvraft/server.h: looking up a session after one was touched or put.
use chon_kv.Base.{
  ◌≤◌, ◌<◌, ◌≡◌, refl, sym, ◌∙◌, inl, inr, true, false, Bool-cases, none, some, ℤ, eqz, eqz_iff,
  List, [], ◌∷◌, ◌++◌, arith, length,
}
use chon_kv.Kv.Sessions.{Session, find_session, remove_session}

-- Every session has a positive number and no client has two.
abbrev pub AreDistinct : List Session → Type 0
AreDistinct [] = Unit {0}
AreDistinct (e ∷ es) = (0 < e.last_seq) × ((find_session e.client_id es ≡ none) × AreDistinct es)

pub find_session-append_other :
    (c : ℤ) (n : Session) (es : List Session)
    → eqz n.client_id c ≡ false
    → find_session c (es ++ n ∷ []) ≡ find_session c es
unfolding find_session
find_session-append_other c n [] e = rw e refl
find_session-append_other c n (f ∷ es) e = rw (find_session-append_other c n es e) refl

pub find_session-append_new :
    (c : ℤ) (n : Session) (es : List Session)
    → find_session c es ≡ none
    → eqz n.client_id c ≡ true
    → find_session c (es ++ n ∷ []) ≡ some n
unfolding find_session
find_session-append_new c n [] h e = rw e refl
find_session-append_new c n (f ∷ es) h e = elim (Bool-cases (eqz f.client_id c)) [
  | inl same ↦ cc (rw same at h)
  | inr other ↦ rw other (find_session-append_new c n es (rw other at h) e)
]

pub find_session-remove_same :
    (c : ℤ) (es : List Session) → find_session c (remove_session c es) ≡ none
unfolding find_session remove_session
find_session-remove_same c [] = refl
find_session-remove_same c (f ∷ es) = elim (Bool-cases (eqz f.client_id c)) [
  | inl same ↦ rw same (find_session-remove_same c es)
  | inr other ↦ rw (other, other) (find_session-remove_same c es)
]

pub find_session-remove_other :
    (c d : ℤ) (es : List Session)
    → eqz d c ≡ false
    → find_session c (remove_session d es) ≡ find_session c es
unfolding find_session remove_session
find_session-remove_other c d [] e = refl
find_session-remove_other c d (f ∷ es) e = elim (Bool-cases (eqz f.client_id d)) [
  | inl same ↦ rw (same, (eqz_iff f.client_id d).0 same, e) (find_session-remove_other c d es e)
  | inr other ↦ rw (other, find_session-remove_other c d es e) refl
]

pub find_session_client :
    (c : ℤ) (es : List Session) (e : Session) → find_session c es ≡ some e → e.client_id ≡ c
unfolding find_session
find_session_client c [] e h = cc h
find_session_client c (f ∷ es) e h = elim (Bool-cases (eqz f.client_id c)) [
  | inl same ↦ cc ((rw same at h), (eqz_iff f.client_id c).0 same)
  | inr other ↦ find_session_client c es e (rw other at h)
]

pub length-remove_session : (c : ℤ) (es : List Session) → length (remove_session c es) ≤ length es
unfolding remove_session
length-remove_session c [] = omega arith
length-remove_session c (f ∷ es) = elim (Bool-cases (eqz f.client_id c)) [
  | inl same ↦ rw same (omega (arith, length-remove_session c es))
  | inr other ↦ rw other (omega (arith, length-remove_session c es))
]

pub length-remove_session_found :
    (c : ℤ) (es : List Session) (e : Session)
    → find_session c es ≡ some e
    → length (remove_session c es) < length es
unfolding find_session remove_session
length-remove_session_found c [] e h = cc h
length-remove_session_found c (f ∷ es) e h = elim (Bool-cases (eqz f.client_id c)) [
  | inl same ↦ rw same (omega (arith, length-remove_session c es))
  | inr other ↦ rw other (omega (arith, length-remove_session_found c es e (rw other at h)))
]

-- A client without a session has none after another one's was removed.
remove_stays_absent :
    (c d : ℤ) (es : List Session)
    → find_session c es ≡ none
    → find_session c (remove_session d es) ≡ none
remove_stays_absent c d es h = elim (Bool-cases (eqz d c)) [
  | inl same ↦ rw ((eqz_iff d c).0 same) (find_session-remove_same c es)
  | inr other ↦ find_session-remove_other c d es other ∙ h
]

remove-AreDistinct :
    (c : ℤ) (es : List Session) → AreDistinct es → AreDistinct (remove_session c es)
unfolding remove_session
remove-AreDistinct c [] w = tt
remove-AreDistinct c (f ∷ es) w = elim (Bool-cases (eqz f.client_id c)) [
  | inl same ↦ rw same (remove-AreDistinct c es w.1.1)
  | inr other ↦
      rw other (w.0, (remove_stays_absent f.client_id c es w.1.0, remove-AreDistinct c es w.1.1))
]

append-AreDistinct :
    (n : Session) (es : List Session)
    → AreDistinct es
    → find_session n.client_id es ≡ none
    → 0 < n.last_seq
    → AreDistinct (es ++ n ∷ [])
unfolding find_session
append-AreDistinct n [] w h p = (p, (refl, tt))
append-AreDistinct n (f ∷ es) w h p = elim (Bool-cases (eqz f.client_id n.client_id)) [
  | inl same ↦ cc (rw same at h)
  | inr other ↦ (
    w.0,
    (
      find_session-append_other f.client_id n es (not_same f.client_id n.client_id other) ∙ w.1.0,
      append-AreDistinct n es w.1.1 (rw other at h) p,
    ),
  )
]
  where
    not_same : (a b : ℤ) → eqz a b ≡ false → eqz b a ≡ false
    not_same a b e = elim (Bool-cases (eqz b a)) [
      | inl t ↦ cc (e, (eqz_iff a b).1 (sym ((eqz_iff b a).0 t)))
      | inr f ↦ f
    ]

-- A session that was removed and put back at the end.
pub renew-AreDistinct :
    (n : Session) (es : List Session)
    → AreDistinct es
    → 0 < n.last_seq
    → AreDistinct (remove_session n.client_id es ++ n ∷ [])
renew-AreDistinct n es w p =
    append-AreDistinct n (remove_session n.client_id es) (remove-AreDistinct n.client_id es w)
      (find_session-remove_same n.client_id es) p
