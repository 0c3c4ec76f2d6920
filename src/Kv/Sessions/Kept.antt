-- ===== src/Kv/Sessions/Kept.antt =====
-- kvraft/server.h and kvraft/server.cpp: the operations of the table and of the tombstones keep one
-- entry per client.
use chon_kv.Base.{
  ℕ, suc, ◌-◌, ◌≡◌, ◌⊎◌, refl, ap, subst, sym, inl, inr, false, ltb, leb, Bool-cases, Option-cases,
  none, ℤ, eqz, eqz_iff, List, [], ◌∷◌, ◌++◌, length, drop,
}
use chon_kv.Kv.Sessions.{
  Session, Fence, find_session, remove_session, get_seq, put_seq, load_session, find_fence,
  set_fence, add_fence, tombstone, reap_idle, reap_over,
}
use chon_kv.Kv.Sessions.Lookup.{find_session_client}
use chon_kv.Kv.Sessions.Unique.{
  Unique, has, clients, fenced_clients, Unique-append, Unique-renew, has-find_fence,
  fenced_clients-append,
}

pub put_seq-Unique :
    (c : ℤ) (seq now : ℕ) (es : List Session)
    → Unique (clients es)
    → Unique (clients (put_seq c seq now es))
unfolding put_seq
put_seq-Unique c seq now es w =
    Unique-renew (record { client_id = c; last_seq = seq; last_index = now }) es w

pub get_seq-Unique :
    (c : ℤ) (now : ℕ) (es : List Session)
    → Unique (clients es)
    → Unique (clients (get_seq c now es).1)
unfolding get_seq
get_seq-Unique c now es w = elim (Option-cases (find_session c es)) [
  | inl gone ↦ rw (gone, get_seq) w
  | inr (e, found) ↦
      rw (found, get_seq)
        (subst (λ d. Unique (clients (remove_session d es ++ (record e { last_index = now }) ∷ [])))
          (find_session_client c es e found) (Unique-renew (record e { last_index = now }) es w))
]

clients-load_session :
    (n : Session) (es : List Session)
    → (clients (load_session n es) ≡ clients es ++ n.client_id ∷ [])
        × (has n.client_id (clients es) ≡ false)
      ⊎ (clients (load_session n es) ≡ clients es)
unfolding load_session
clients-load_session n [] = inl (refl, refl)
clients-load_session n (e ∷ es) = elim (Bool-cases (eqz e.client_id n.client_id)) [
  | inl same ↦
      inr (rw same (ap (λ c. c ∷ clients es) (sym ((eqz_iff e.client_id n.client_id).0 same))))
  | inr other ↦ elim (clients-load_session n es) [
    | inl (p, h) ↦ inl (rw other (ap (◌∷◌ e.client_id) p), rw other h)
    | inr p ↦ inr (rw other (ap (◌∷◌ e.client_id) p))
  ]
]

pub load_session-Unique :
    (n : Session) (es : List Session) → Unique (clients es) → Unique (clients (load_session n es))
load_session-Unique n es w = elim (clients-load_session n es) [
  | inl (p, h) ↦ subst Unique (sym p) (Unique-append n.client_id (clients es) w h)
  | inr p ↦ subst Unique (sym p) w
]

clients-set_fence :
    (n : Fence) (fs : List Fence) → fenced_clients (set_fence n fs) ≡ fenced_clients fs
unfolding set_fence
clients-set_fence n [] = refl
clients-set_fence n (f ∷ fs) = elim (Bool-cases (eqz f.client_id n.client_id)) [
  | inl same ↦
      rw same (ap (λ c. c ∷ fenced_clients fs) (sym ((eqz_iff f.client_id n.client_id).0 same)))
  | inr other ↦ rw other (ap (◌∷◌ f.client_id) (clients-set_fence n fs))
]

pub append-Unique :
    (n : Fence) (fs : List Fence)
    → Unique (fenced_clients fs)
    → find_fence n.client_id fs ≡ none
    → Unique (fenced_clients (fs ++ n ∷ []))
append-Unique n fs w h =
    rw (fenced_clients-append fs (n ∷ []))
      (Unique-append n.client_id (fenced_clients fs) w (has-find_fence n.client_id fs h))

drop_one : (fs : List Fence) → Unique (fenced_clients fs) → Unique (fenced_clients (drop 1 fs))
drop_one [] w = tt
drop_one (f ∷ fs) w = w.1

pub add_fence-Unique :
    (limit : ℕ) (n : Fence) (fs : List Fence)
    → Unique (fenced_clients fs)
    → Unique (fenced_clients (add_fence limit n fs))
unfolding add_fence
add_fence-Unique limit n fs w = elim (Option-cases (find_fence n.client_id fs)) [
  | inl new ↦
      let longer = append-Unique n fs w new in
      elim (Bool-cases (ltb limit (length (fs ++ n ∷ [])))) [
        | inl full ↦ rw (new, full, add_fence) (drop_one (fs ++ n ∷ []) longer)
        | inr fits ↦ rw (new, fits, add_fence) longer
      ]
  | inr (f, old) ↦ rw (old, add_fence) (subst Unique (sym (clients-set_fence n fs)) w)
]

-- What an eviction leaves.
pub record Kept (r : List Session × List Fence) : Type 0 where
  pub sessions : Unique (clients r.0)
  pub fences : Unique (fenced_clients r.1)

pub reap_idle-Kept :
    (limit now max_idle : ℕ) (es : List Session) (fs : List Fence)
    → Unique (clients es)
    → Unique (fenced_clients fs)
    → Kept (reap_idle limit now max_idle es fs)
unfolding reap_idle
reap_idle-Kept limit now max_idle [] fs w v = record { sessions = tt; fences = v }
reap_idle-Kept limit now max_idle (e ∷ es) fs w v =
    elim (Bool-cases (leb (now - e.last_index) max_idle)) [
      | inl young ↦ rw young (record { sessions = w; fences = v })
      | inr idle ↦ rw idle (
          reap_idle-Kept limit now max_idle es (add_fence limit (tombstone e) fs) w.1
            (add_fence-Unique limit (tombstone e) fs v))
    ]

pub reap_over-Kept :
    (limit most : ℕ) (es : List Session) (fs : List Fence)
    → Unique (clients es)
    → Unique (fenced_clients fs)
    → Kept (reap_over limit most es fs)
unfolding reap_over
reap_over-Kept limit most [] fs w v = record { sessions = tt; fences = v }
reap_over-Kept limit most (e ∷ es) fs w v = elim (Bool-cases (ltb most (suc (length es)))) [
  | inl over ↦ rw over (
      reap_over-Kept limit most es (add_fence limit (tombstone e) fs) w.1
        (add_fence-Unique limit (tombstone e) fs v))
  | inr fits ↦ rw fits (record { sessions = w; fences = v })
]
