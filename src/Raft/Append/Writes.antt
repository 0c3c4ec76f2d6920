-- ===== src/Raft/Append/Writes.antt =====
-- raft/raft.cpp: the loop of AppendEntries over the entries.
use chon_kv.Base.{
  ℕ, suc, ◌+◌, ◌-◌, ◌≤◌, ◌<◌, ◌≡◌, refl, ap, ◌∙◌, ◌⊎◌, inl, inr, leb, ◌==◌, ◌||◌, Bool-cases, List,
  [], ◌∷◌, ◌++◌, arith, length, length-append, length-take, get_elem?, take,
}
use native.Mathlib.Decide.{dec_lt}
use chon_kv.Store.{last_index}
use chon_kv.Raft.Types.{LogEntry}
use chon_kv.Raft.State.{term_at}
use chon_kv.Raft.Log.{
  Contiguous, IsLog, last_index-IsLog, Contiguous-append, Contiguous-take, get_elem?-take,
  get_elem?-append, get_elem?-append_end, term_at_same,
}
use chon_kv.Raft.Append.{Tail, put_one, put_all}

-- After entry `e`, at most one past the end, was put: the log has its shape, it agrees with `e` and
-- nothing in front of `e` has changed.
pub record PutOne (snap : ℕ) (t : Tail) (e : LogEntry) (u : Tail) : Type 0 where
  pub is_log : IsLog snap u.logs
  pub kept : (j : ℕ) → snap + j < e.index → get_elem? u.logs j ≡ get_elem? t.logs j
  pub agrees : snap < e.index → term_at u.logs (e.index - snap) ≡ e.term
  pub reach : e.index ≤ last_index u.logs

put_at_end :
    (snap : ℕ) (logs : List LogEntry) (e : LogEntry) (t : Tail)
    → Contiguous snap logs
    → e.index ≡ snap + length logs
    → ((j : ℕ) → snap + j < e.index → get_elem? logs j ≡ get_elem? t.logs j)
    → (u : Tail) → u.logs ≡ logs ++ e ∷ []
    → PutOne snap t e u
put_at_end snap logs e t c h same u eu = record {
  is_log = is_log;
  kept = λ j lt. rw (eu, get_elem?-append j logs (e ∷ []) (omega arith)) (same j lt);
  agrees = λ lt. rw (eu, get_elem?-append_end (e.index - snap) logs e (omega arith), term_at);
  reach =
      omega (arith, last_index-IsLog snap u.logs is_log, ap length eu, length-append logs (e ∷ []));
}
  where
    is_log : IsLog snap u.logs
    is_log = rw eu (record {
      contiguous = Contiguous-append snap logs (e ∷ []) c (h, tt);
      sentinel = omega (arith, length-append logs (e ∷ []));
    })

put_nothing :
    (snap : ℕ) (t : Tail) (e : LogEntry)
    → IsLog snap t.logs
    → e.index ≤ last_index t.logs
    → (snap < e.index → term_at t.logs (e.index - snap) ≡ e.term)
    → PutOne snap t e t
put_nothing snap t e v le a = record { is_log = v; kept = λ j lt. refl; agrees = a; reach = le }

put_one-PutOne :
    (snap : ℕ) (t : Tail) (e : LogEntry)
    → IsLog snap t.logs
    → e.index ≤ last_index t.logs + 1
    → PutOne snap t e (put_one snap t e)
unfolding put_one
put_one-PutOne snap t e v le = elim (Bool-cases (e.index == 0 || leb e.index snap)) [
  | inl skip ↦ rw skip (put_nothing snap t e v (ground (arith, last)) (λ lt. absurd (ground arith)))
  | inr go ↦ rw go (elim (Bool-cases (leb e.index (last_index t.logs))) [
    | inl inside ↦ rw inside (elim (Bool-cases (term_at t.logs (e.index - snap) == e.term)) [
      | inl same ↦ rw same (put_nothing snap t e v (ground arith) (λ lt. ground arith))
      | inr conflict ↦ rw conflict (
          put_at_end snap (take (e.index - snap) t.logs) e t
            (Contiguous-take snap _ t.logs v.contiguous)
            (ground (arith, last, length-take (e.index - snap) t.logs))
            (λ j lt. get_elem?-take (e.index - snap) j t.logs (omega arith)) _ refl)
    ])
    | inr outside ↦
        rw outside
          (put_at_end snap t.logs e t v.contiguous (ground (arith, last)) (λ j lt. refl) _ refl)
  ])
]
  where
    last : last_index t.logs + 1 ≡ snap + length t.logs
    last = last_index-IsLog snap t.logs v

-- The log holds an entry of the same term at the index of each entry behind the snapshot.
abbrev pub Agrees : ℕ → List LogEntry → List LogEntry → Type 0
Agrees snap logs [] = Unit {0}
Agrees snap logs (e ∷ es) =
    (snap < e.index → term_at logs (e.index - snap) ≡ e.term) × Agrees snap logs es

pub record PutAll (snap k : ℕ) (es : List LogEntry) (t u : Tail) : Type 0 where
  pub is_log : IsLog snap u.logs
  pub kept : (j : ℕ) → snap + j < k → get_elem? u.logs j ≡ get_elem? t.logs j
  pub agrees : Agrees snap u.logs es
  pub reach : k + length es ≤ last_index u.logs + 1

-- Entries with consecutive indices from `k` on, `k` at most one past the end of the log.
pub put_all-PutAll :
    (snap k : ℕ) (es : List LogEntry) (t : Tail)
    → IsLog snap t.logs
    → Contiguous k es
    → k ≤ last_index t.logs + 1
    → PutAll snap k es t (put_all snap t es)
unfolding put_all
put_all-PutAll snap k [] t v c le = record {
  is_log = v;
  kept = λ j lt. refl;
  agrees = tt;
  reach = omega arith;
}
put_all-PutAll snap k (e ∷ es) t v c le =
    let one : PutOne snap t e (put_one snap t e) = put_one-PutOne snap t e v (omega arith) in
    let rest : PutAll snap (suc k) es (put_one snap t e) (put_all snap (put_one snap t e) es) =
      put_all-PutAll snap (suc k) es (put_one snap t e) one.is_log c.1 (omega (arith, one.reach)) in
    record {
      is_log = rest.is_log;
      kept = λ j lt. rest.kept j (omega arith) ∙ one.kept j (omega arith);
      agrees = (
        λ lt.
            term_at_same _ (put_one snap t e).logs (e.index - snap)
              (rest.kept (e.index - snap) (omega arith))
            ∙ one.agrees lt,
        rest.agrees,
      );
      reach = omega (arith, rest.reach);
    }

-- The entries that reach down to index `c` do not conflict with the log there.
abbrev pub NoConflict : ℕ → ℕ → List LogEntry → List LogEntry → Type 0
NoConflict c snap logs [] = Unit {0}
NoConflict c snap logs (e ∷ es) =
    (snap < e.index → e.index ≤ c → term_at logs (e.index - snap) ≡ e.term)
    × NoConflict c snap logs es

NoConflict-same :
    (c snap : ℕ) (xs ys es : List LogEntry)
    → ((j : ℕ) → snap + j ≤ c → get_elem? ys j ≡ get_elem? xs j)
    → NoConflict c snap xs es
    → NoConflict c snap ys es
NoConflict-same c snap xs ys [] same h = tt
NoConflict-same c snap xs ys (e ∷ es) same h = (
  λ lt le. term_at_same ys xs (e.index - snap) (same (e.index - snap) (omega arith)) ∙ h.0 lt le,
  NoConflict-same c snap xs ys es same h.1,
)

-- An entry that agrees with the log changes nothing; any other one stands behind `c`.
put_one_stays :
    (c snap : ℕ) (t : Tail) (e : LogEntry)
    → c ≤ last_index t.logs
    → (snap < e.index → e.index ≤ c → term_at t.logs (e.index - snap) ≡ e.term)
    → (c < e.index) ⊎ (put_one snap t e ≡ t)
unfolding put_one
put_one_stays c snap t e le h = elim (dec_lt c e.index) [
  | yes lt ↦ inl lt
  | no ge ↦ elim (dec_lt snap e.index) [
    | yes lt ↦ let same = h lt (omega arith) in inr (ground arith)
    | no out ↦ inr (ground arith)
  ]
]

-- Nothing at or below `c` changes, and the log still reaches `c`.
pub record Keeps (c snap : ℕ) (t u : Tail) : Type 0 where
  pub same : (j : ℕ) → snap + j ≤ c → get_elem? u.logs j ≡ get_elem? t.logs j
  pub reach : c ≤ last_index u.logs

put_one-Keeps :
    (c snap : ℕ) (t : Tail) (e : LogEntry)
    → IsLog snap t.logs
    → e.index ≤ last_index t.logs + 1
    → c ≤ last_index t.logs
    → (snap < e.index → e.index ≤ c → term_at t.logs (e.index - snap) ≡ e.term)
    → Keeps c snap t (put_one snap t e)
put_one-Keeps c snap t e v le lc h = elim (put_one_stays c snap t e lc h) [
  | inl lt ↦
      let one = put_one-PutOne snap t e v le in
      record { same = λ j lj. one.kept j (omega arith); reach = omega (arith, one.reach) }
  | inr e ↦ rw e (record { same = λ j lj. refl; reach = lc })
]

pub put_all-Keeps :
    (c snap k : ℕ) (es : List LogEntry) (t : Tail)
    → IsLog snap t.logs
    → Contiguous k es
    → k ≤ last_index t.logs + 1
    → c ≤ last_index t.logs
    → NoConflict c snap t.logs es
    → Keeps c snap t (put_all snap t es)
unfolding put_all
put_all-Keeps c snap k [] t v ct le lc h = record { same = λ j lj. refl; reach = lc }
put_all-Keeps c snap k (e ∷ es) t v ct le lc h =
    let one = put_one-PutOne snap t e v (omega arith) in
    let first = put_one-Keeps c snap t e v (omega arith) lc h.0 in
    let rest =
      put_all-Keeps c snap (suc k) es (put_one snap t e) one.is_log ct.1 (omega (arith, one.reach))
        first.reach (NoConflict-same c snap t.logs _ es first.same h.1) in
    record { same = λ j lj. rest.same j lj ∙ first.same j lj; reach = rest.reach }
