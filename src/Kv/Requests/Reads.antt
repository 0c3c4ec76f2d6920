-- ===== src/Kv/Requests/Reads.antt =====
-- kvraft/server.cpp: what Get answers, and when.
use chon_kv.Base.{
  ℕ, ◌≤◌, ◌<◌, ◌≡◌, refl, inl, inr, ◌⊎◌, false, ltb, leb, leb→le, ◌||◌, Bool-cases, ℤ, pos, some,
  List, [], ◌∷◌, minus_one, arith, Option, Any, here, there,
}
use chon_kv.Kv.Rpc.{GetReply}
use chon_kv.Kv.Requests.{read_key, ReadTurn, wait_timeout, give_up, get_loop, get}

-- The store of a server that has applied the read index answers.
pub record Fresh (ri : ℕ) (k : List ℕ) (r : GetReply) (t : ReadTurn) : Type 0 where
  pub applied : ri ≤ t.state.last_cmd_index
  pub answer : r ≡ read_key k minus_one t.state

abbrev pub IsLate : ReadTurn → Type 0
IsLate t = wait_timeout < t.elapsed

-- A reply that the loop gave, and why.
pub record Replied (ri : ℕ) (k : List ℕ) (ts : List ReadTurn) (o : Option GetReply) : Type 0 where
  pub reply : GetReply
  pub given : o ≡ some reply
  pub why : (reply ≡ give_up) ⊎ Any (Fresh ri k reply) ts

Replied-later :
    {ri : ℕ} {k : List ℕ} {t : ReadTurn} {ts : List ReadTurn} {o : Option GetReply}
    → Replied ri k ts o
    → Replied ri k (t ∷ ts) o
Replied-later h = record {
  reply = h.reply;
  given = h.given;
  why = elim h.why [ inl p ↦ inl p | inr p ↦ inr (there p) ];
}

get_loop-Replied :
    (ri : ℕ) (k : List ℕ) (ts : List ReadTurn) → Any IsLate ts → Replied ri k ts (get_loop ri k ts)
unfolding get_loop
get_loop-Replied ri k [] late = elim late [ ]
get_loop-Replied ri k (t ∷ ts) late = elim (Bool-cases (leb ri t.state.last_cmd_index)) [
  | inl e ↦
      rw (e, get_loop)
        (record {
          reply = read_key k minus_one t.state;
          given = refl;
          why = inr (here (record { applied = leb→le ri t.state.last_cmd_index e; answer = refl }));
        })
  | inr e ↦ elim (Bool-cases (t.dead || ltb wait_timeout t.elapsed)) [
    | inl f ↦ rw (e, f, get_loop) (record { reply = give_up; given = refl; why = inl refl })
    | inr f ↦ rw (e, f, get_loop) (Replied-later (get_loop-Replied ri k ts (still_late late f)))
  ]
]
  where
    still_late :
        Any IsLate (t ∷ ts) → (t.dead || ltb wait_timeout t.elapsed) ≡ false → Any IsLate ts
    still_late (here h) f = absurd (in_time h f)
      where
        in_time : IsLate t → (t.dead || ltb wait_timeout t.elapsed) ≡ false → ⊥
        in_time h f = ground arith
    still_late (there h) f = h

-- Once the node has confirmed a read index, Get returns by the first turn that ends more than
-- kWaitTimeout after the start, and what it returns is kWrongLeader, or the key's value (or kNoKey) in a
-- state of the server, at one of the turns, that had applied the index.
pub get-Replied :
    (me leader : ℤ) (ri : ℕ) (k : List ℕ) (ts : List ReadTurn)
    → Any IsLate ts
    → Replied ri k ts (get me (pos ri) leader k ts)
unfolding get
get-Replied me leader ri k ts late = get_loop-Replied ri k ts late
