-- ===== src/Kv/Requests/Waiters.antt =====
-- kvraft/server.cpp: a waiter of msg_replies_ while messages are applied and other waiters come and go.
use chon_kv.Base.{
  ℕ, ◌≡◌, refl, sym, ap, subst, ◌∙◌, inl, inr, true, false, leb, ◌==◌, ◌&&◌, eqz, eqz_iff, ℤ,
  if◌then◌else◌, Bool-cases, Option, none, some, List, [], ◌∷◌, arith, Bool,
}
use chon_kv.Kv.Server.{NotifyMsg, answer_waiter, clear_waiter}
use chon_kv.Kv.Snapshot.{clear_waiters}
use chon_kv.Kv.Requests.{put_waiter, find_waiter, erase_waiter}

-- The waiter is the command's, and was told "ok" only if `G`.
pub record Mine (c : ℤ) (q : ℕ) (G : Type 0) (n : NotifyMsg) : Type 0 where
  pub client : n.client_id ≡ c
  pub seq : n.seq_id ≡ q
  pub told : n.ok ≡ true → G

-- So is every waiter that is found at the index.
abbrev pub Slot : ℕ → ℤ → ℕ → Type 0 → List NotifyMsg → Type 0
Slot i c q G ws = (n : NotifyMsg) → find_waiter i ws ≡ some n → Mine c q G n

find_head :
    (i : ℕ) (w : NotifyMsg) (ws : List NotifyMsg)
    → (w.index == i) ≡ true
    → find_waiter i (w ∷ ws) ≡ some w
unfolding find_waiter
find_head i w ws e = rw e refl

find_tail :
    (i : ℕ) (w : NotifyMsg) (ws : List NotifyMsg)
    → (w.index == i) ≡ false
    → find_waiter i (w ∷ ws) ≡ find_waiter i ws
unfolding find_waiter
find_tail i w ws e = rw e refl

Slot-tail :
    (i : ℕ) (c : ℤ) (q : ℕ) (G : Type 0) (w : NotifyMsg) (ws : List NotifyMsg)
    → (w.index == i) ≡ false
    → Slot i c q G (w ∷ ws)
    → Slot i c q G ws
Slot-tail i c q G w ws e h n f = h n (find_tail i w ws e ∙ f)

Slot-head :
    (i : ℕ) (c : ℤ) (q : ℕ) (G : Type 0) (w : NotifyMsg) (ws : List NotifyMsg)
    → (w.index == i) ≡ true
    → Mine c q G w
    → Slot i c q G (w ∷ ws)
Slot-head i c q G w ws e m n f =
    subst (λ (o : Option NotifyMsg). AllMine o) (sym (find_head i w ws e) ∙ f) m
  where
    AllMine : Option NotifyMsg → Type 0
    AllMine none = Unit
    AllMine (some n) = Mine c q G n

Slot-cons :
    (i : ℕ) (c : ℤ) (q : ℕ) (G : Type 0) (w : NotifyMsg) (vs : List NotifyMsg)
    → (w.index == i) ≡ false
    → Slot i c q G vs
    → Slot i c q G (w ∷ vs)
Slot-cons i c q G w vs e h n f = h n (sym (find_tail i w vs e) ∙ f)

-- The first waiter of the list is changed, but for its index.
Slot-change :
    (i : ℕ) (c : ℤ) (q : ℕ) (G : Type 0) (w v : NotifyMsg) (ws : List NotifyMsg)
    → v.index ≡ w.index
    → ((w.index == i) ≡ true → Mine c q G w → Mine c q G v)
    → Slot i c q G (w ∷ ws)
    → Slot i c q G (v ∷ ws)
Slot-change i c q G w v ws p f h = elim (Bool-cases (w.index == i)) [
  | inl e ↦ Slot-head i c q G v ws (ap (λ n. n == i) p ∙ e) (f e (h w (find_head i w ws e)))
  | inr e ↦ Slot-cons i c q G v ws (ap (λ n. n == i) p ∙ e) (Slot-tail i c q G w ws e h)
]

-- The first waiter stays, and the others are changed.
Slot-keep :
    (i : ℕ) (c : ℤ) (q : ℕ) (G : Type 0) (w : NotifyMsg) (ws vs : List NotifyMsg)
    → (Slot i c q G ws → Slot i c q G vs)
    → Slot i c q G (w ∷ ws)
    → Slot i c q G (w ∷ vs)
Slot-keep i c q G w ws vs f h = elim (Bool-cases (w.index == i)) [
  | inl e ↦ Slot-head i c q G w vs e (h w (find_head i w ws e))
  | inr e ↦ Slot-cons i c q G w vs e (f (Slot-tail i c q G w ws e h))
]

pub answer_waiter-Slot :
    (j : ℕ) (d : ℤ) (r i : ℕ) (c : ℤ) (q : ℕ) (G : Type 0) (ws : List NotifyMsg)
    → (j ≡ i → d ≡ c → r ≡ q → G)
    → Slot i c q G ws
    → Slot i c q G (answer_waiter j d r ws)
unfolding answer_waiter
answer_waiter-Slot j d r i c q G [] g h = h
answer_waiter-Slot j d r i c q G (w ∷ ws) g h = elim (Bool-cases (w.index == j)) [
  | inl e ↦ rw e (Slot-change i c q G w _ ws refl (λ here' m. told here' e m) h)
  | inr e ↦ rw e (Slot-keep i c q G w ws _ (answer_waiter-Slot j d r i c q G ws g) h)
]
  where
    told :
        (w.index == i) ≡ true
        → (w.index == j) ≡ true
        → Mine c q G w
        → Mine c q G (record w { done = true; ok = eqz w.client_id d && w.seq_id == r })
    told a b m = record {
      client = m.client;
      seq = m.seq;
      told = λ e.
          g (ground arith) (sym ((eqz_iff w.client_id d).0 (ground arith)) ∙ m.client)
            (ground (arith, m.seq));
    }

-- A waiter that is told of a failure.
abbrev failed : NotifyMsg → NotifyMsg
failed w = record w { done = true; ok = false }

failed-Slot :
    (i : ℕ) (c : ℤ) (q : ℕ) (G : Type 0) (w : NotifyMsg) (ws : List NotifyMsg)
    → Slot i c q G (w ∷ ws)
    → Slot i c q G (failed w ∷ ws)
failed-Slot i c q G w ws h =
    Slot-change i c q G w (failed w) ws refl
      (λ e m. record { client = m.client; seq = m.seq; told = λ f. cc f }) h

by_test : {A : Type 0} (b : Bool) (P : A → Type 0) (x y : A) → P x → P y → P (if b then x else y)
by_test true P x y p r = p
by_test false P x y p r = r

pub clear_waiter-Slot :
    (j i : ℕ) (c : ℤ) (q : ℕ) (G : Type 0) (ws : List NotifyMsg)
    → Slot i c q G ws
    → Slot i c q G (clear_waiter j ws)
unfolding clear_waiter
clear_waiter-Slot j i c q G [] h = h
clear_waiter-Slot j i c q G (w ∷ ws) h = elim (Bool-cases (w.index == j)) [
  | inl e ↦
      rw e (by_test w.done (λ v. Slot i c q G (v ∷ ws)) w (failed w) h (failed-Slot i c q G w ws h))
  | inr e ↦ rw e (Slot-keep i c q G w ws _ (clear_waiter-Slot j i c q G ws) h)
]

pub clear_waiters-Slot :
    (j i : ℕ) (c : ℤ) (q : ℕ) (G : Type 0) (ws : List NotifyMsg)
    → Slot i c q G ws
    → Slot i c q G (clear_waiters j ws)
unfolding clear_waiters
clear_waiters-Slot j i c q G [] h = h
clear_waiters-Slot j i c q G (w ∷ ws) h =
    let kept : Slot i c q G (w ∷ clear_waiters j ws) =
      Slot-keep i c q G w ws (clear_waiters j ws) (clear_waiters-Slot j i c q G ws) h in
    elim (Bool-cases (leb w.index j)) [
      | inl e ↦
          rw (e, clear_waiters)
            (by_test w.done (λ v. Slot i c q G (v ∷ clear_waiters j ws)) w (failed w) kept
              (failed-Slot i c q G w (clear_waiters j ws) kept))
      | inr e ↦ rw (e, clear_waiters) kept
    ]

pub put_waiter-Slot :
    (v : NotifyMsg) (i : ℕ) (c : ℤ) (q : ℕ) (G : Type 0) (ws : List NotifyMsg)
    → (v.index == i) ≡ false
    → Slot i c q G ws
    → Slot i c q G (put_waiter v ws)
unfolding put_waiter
put_waiter-Slot v i c q G [] ne h = Slot-cons i c q G v [] ne h
put_waiter-Slot v i c q G (w ∷ ws) ne h = elim (Bool-cases (w.index == v.index)) [
  | inl e ↦
      let other : (w.index == i) ≡ false = ground arith in
      rw e (Slot-cons i c q G v ws ne (Slot-tail i c q G w ws other h))
  | inr e ↦ rw e (Slot-keep i c q G w ws _ (put_waiter-Slot v i c q G ws ne) h)
]

find_waiter-put_waiter :
    (v : NotifyMsg) (ws : List NotifyMsg) → find_waiter v.index (put_waiter v ws) ≡ some v
unfolding find_waiter put_waiter
find_waiter-put_waiter v [] = let same : (v.index == v.index) ≡ true = ground arith in rw same refl
find_waiter-put_waiter v (w ∷ ws) = elim (Bool-cases (w.index == v.index)) [
  | inl e ↦ let same : (v.index == v.index) ≡ true = ground arith in rw (e, same) refl
  | inr e ↦ rw (e, e) (find_waiter-put_waiter v ws)
]

-- A waiter that was just made.
pub made-Slot :
    (v : NotifyMsg) (G : Type 0) (ws : List NotifyMsg)
    → v.ok ≡ false
    → Slot v.index v.client_id v.seq_id G (put_waiter v ws)
made-Slot v G ws quiet n f =
    subst (λ o. Told o) (sym (find_waiter-put_waiter v ws) ∙ f)
      (record { client = refl; seq = refl; told = λ e. absurd (not_ok e quiet) })
  where
    Told : Option NotifyMsg → Type 0
    Told none = Unit
    Told (some m) = Mine v.client_id v.seq_id G m

    not_ok : v.ok ≡ true → v.ok ≡ false → ⊥
    not_ok e f = cc (e, f)

pub erase_waiter-Slot :
    (j i : ℕ) (c : ℤ) (q : ℕ) (G : Type 0) (ws : List NotifyMsg)
    → (j == i) ≡ false
    → Slot i c q G ws
    → Slot i c q G (erase_waiter j ws)
unfolding erase_waiter
erase_waiter-Slot j i c q G [] ne h = h
erase_waiter-Slot j i c q G (w ∷ ws) ne h = elim (Bool-cases (w.index == j)) [
  | inl e ↦
      let other : (w.index == i) ≡ false = ground arith in rw e (Slot-tail i c q G w ws other h)
  | inr e ↦ rw e (Slot-keep i c q G w ws _ (erase_waiter-Slot j i c q G ws ne) h)
]
