-- ===== src/Kv/Sessions/Reap.antt =====
-- kvraft/server.h: SessionTable::Reap and what is known of a client before and after.
use chon_kv.Base.{
  ℕ, suc, ◌+◌, ◌-◌, ◌≤◌, ◌<◌, ◌≡◌, refl, sym, ap, subst, ◌∙◌, inl, inr, true, false, leb, ltb, ◌==◌,
  Bool-cases, Option, none, some, ℤ, eqz, eqz_iff, List, [], ◌∷◌, arith, length,
}
use chon_kv.Kv.Sessions.{
  Session, Fence, find_session, find_fence, add_fence, tombstone, reap_idle, reap_over,
  existing_seq,
}
use chon_kv.Kv.Sessions.Fences.{add_fence-Fenced}
use chon_kv.Kv.Sessions.Lookup.{AreDistinct}

-- The last sequence number of a client's session, 0 without one, and what is known of the client.
abbrev pub seq_of : Option Session → ℕ
seq_of none = 0
seq_of (some e) = e.last_seq

abbrev pub seq_in : ℤ → List Session → ℕ
seq_in c es = seq_of (find_session c es)

abbrev pub known : ℤ → List Session → List Fence → ℕ
known c es fs = existing_seq c (seq_in c es) fs

-- What an eviction keeps: the table's shape, what is known of every client, and the room there is.
pub record Reaped (es : List Session) (fs : List Fence) (r : List Session × List Fence)
    : Type 0 where
  pub distinct : AreDistinct r.0
  pub same : (c : ℤ) → known c r.0 r.1 ≡ known c es fs
  pub count : length r.0 + length r.1 ≤ length es + length fs

left_alone : (es : List Session) (fs : List Fence) → AreDistinct es → Reaped es fs (es, fs)
left_alone es fs w = record { distinct = w; same = λ c. refl; count = omega arith }

find_session_head :
    (c : ℤ) (e : Session) (es : List Session)
    → eqz e.client_id c ≡ true
    → find_session c (e ∷ es) ≡ some e
unfolding find_session
find_session_head c e es h = rw h refl

find_session_tail :
    (c : ℤ) (e : Session) (es : List Session)
    → eqz e.client_id c ≡ false
    → find_session c (e ∷ es) ≡ find_session c es
unfolding find_session
find_session_tail c e es h = rw h refl

pub known_session :
    (c : ℤ) (e : Session) (es : List Session) (fs : List Fence)
    → find_session c es ≡ some e
    → 0 < e.last_seq
    → known c es fs ≡ e.last_seq
unfolding existing_seq
known_session c e es fs h p =
    let positive : (e.last_seq == 0) ≡ false = ground (arith, p) in
    subst (λ n. existing_seq c n fs ≡ e.last_seq) (sym (ap seq_of h)) (rw positive refl)

pub known_fence :
    (c : ℤ) (f : Fence) (es : List Session) (fs : List Fence)
    → find_session c es ≡ none
    → find_fence c fs ≡ some f
    → known c es fs ≡ f.last_seq
unfolding existing_seq
known_fence c f es fs h k =
    subst (λ n. existing_seq c n fs ≡ f.last_seq) (sym (ap seq_of h)) (rw k refl)

-- What is known of a client depends on the two lookups alone.
pub known_same :
    (c : ℤ) (es es' : List Session) (fs fs' : List Fence)
    → seq_in c es ≡ seq_in c es'
    → find_fence c fs ≡ find_fence c fs'
    → known c es fs ≡ known c es' fs'
unfolding existing_seq
known_same c es es' fs fs' h k = rw (h, k) refl

pub seq_in_same :
    (c : ℤ) (es es' : List Session)
    → find_session c es ≡ find_session c es'
    → seq_in c es ≡ seq_in c es'
seq_in_same c es es' h = ap seq_of h

evicted_same :
    (limit : ℕ) (e : Session) (es : List Session) (fs : List Fence) (c : ℤ)
    → AreDistinct (e ∷ es)
    → length fs < limit
    → known c es (add_fence limit (tombstone e) fs) ≡ known c (e ∷ es) fs
evicted_same limit e es fs c w room =
    let f = add_fence-Fenced limit (tombstone e) fs room in
    elim (Bool-cases (eqz e.client_id c)) [
      | inl same ↦
          let here = (eqz_iff e.client_id c).0 same in
          known_fence c (tombstone e) es (add_fence limit (tombstone e) fs)
            (subst (λ d. find_session d es ≡ none) here w.1.0)
            (subst (λ d. find_fence d (add_fence limit (tombstone e) fs) ≡ some (tombstone e)) here
              f.self)
          ∙ sym (known_session c e (e ∷ es) fs (find_session_head c e es same) w.0)
      | inr other ↦
          known_same c es (e ∷ es) _ fs
            (seq_in_same c es (e ∷ es) (sym (find_session_tail c e es other))) (f.others c other)
    ]

evicted :
    (limit : ℕ) (e : Session) (es : List Session) (fs : List Fence) (r : List Session × List Fence)
    → AreDistinct (e ∷ es)
    → length fs < limit
    → Reaped es (add_fence limit (tombstone e) fs) r
    → Reaped (e ∷ es) fs r
evicted limit e es fs r w room h = record {
  distinct = h.distinct;
  same = λ c. h.same c ∙ evicted_same limit e es fs c w room;
  count = omega (arith, h.count, (add_fence-Fenced limit (tombstone e) fs room).count);
}

pub reap_idle-Reaped :
    (limit now max_idle : ℕ) (es : List Session) (fs : List Fence)
    → AreDistinct es
    → length es + length fs ≤ limit
    → Reaped es fs (reap_idle limit now max_idle es fs)
unfolding reap_idle
reap_idle-Reaped limit now max_idle [] fs w room = left_alone [] fs w
reap_idle-Reaped limit now max_idle (e ∷ es) fs w room =
    elim (Bool-cases (leb (now - e.last_index) max_idle)) [
      | inl young ↦ rw young (left_alone (e ∷ es) fs w)
      | inr idle ↦
          let f = add_fence-Fenced limit (tombstone e) fs (omega arith) in
          rw idle (
            evicted limit e es fs _ w (omega arith) (
              reap_idle-Reaped limit now max_idle es (add_fence limit (tombstone e) fs) w.1.1
                (omega (arith, f.count))))
    ]

pub reap_over-Reaped :
    (limit cap_ : ℕ) (es : List Session) (fs : List Fence)
    → AreDistinct es
    → length es + length fs ≤ limit
    → Reaped es fs (reap_over limit cap_ es fs)
unfolding reap_over
reap_over-Reaped limit cap_ [] fs w room = left_alone [] fs w
reap_over-Reaped limit cap_ (e ∷ es) fs w room = elim (Bool-cases (ltb cap_ (suc (length es)))) [
  | inl over ↦
      let f = add_fence-Fenced limit (tombstone e) fs (omega arith) in
      rw over (
        evicted limit e es fs _ w (omega arith) (
          reap_over-Reaped limit cap_ es (add_fence limit (tombstone e) fs) w.1.1
            (omega (arith, f.count))))
  | inr fits ↦ rw fits (left_alone (e ∷ es) fs w)
]
