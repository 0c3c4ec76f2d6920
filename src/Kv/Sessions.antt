-- ===== src/Kv/Sessions.antt =====
-- kvraft/server.h: SessionTable. Its map and its LRU list hold the same clients, so the table is one
-- list here, in the order of the LRU list from its back: the session that was idle longest first. The
-- count of evicted sessions, which only tests read, is left out.
pub mod Fences
pub mod Lookup
pub mod Reap
pub mod Unique
pub mod Kept
use chon_kv.Base.{
  ℕ, zero, suc, ◌+◌, ◌-◌, Bool, true, false, not, if◌then◌else◌, ltb, leb, ◌==◌, ℤ, eqz, Option,
  none, some, List, [], ◌∷◌, ◌++◌, length, drop,
}

pub record Session : Type 0 where
  pub client_id : ℤ
  pub last_seq : ℕ
  pub last_index : ℕ

-- A client's tombstone: the last sequence number of a session that was evicted.
pub record Fence : Type 0 where
  pub client_id : ℤ
  pub last_seq : ℕ

unfoldable pub find_session : ℤ → List Session → Option Session
find_session c [] = none
find_session c (e ∷ es) = let rest = find_session c es in if eqz e.client_id c then some e else rest

unfoldable pub remove_session : ℤ → List Session → List Session
remove_session c [] = []
remove_session c (e ∷ es) =
    let rest = remove_session c es in if eqz e.client_id c then rest else e ∷ rest

-- SessionTable::Get: the sequence number (0 where there is no session), and the session touched.
unfoldable pub get_seq : ℤ → ℕ → List Session → ℕ × List Session
get_seq c now es = elim (find_session c es) [
  | none ↦ (0, es)
  | some e ↦ (e.last_seq, remove_session c es ++ (record e { last_index = now }) ∷ [])
]

-- SessionTable::Put: an entry is made or refreshed, and is now the one used last.
unfoldable pub put_seq : ℤ → ℕ → ℕ → List Session → List Session
put_seq c seq now es =
    remove_session c es ++ record { client_id = c; last_seq = seq; last_index = now } ∷ []

-- SessionTable::Load keeps the place of a session that is there.
unfoldable pub load_session : Session → List Session → List Session
load_session n [] = n ∷ []
load_session n (e ∷ es) =
    let rest = load_session n es in if eqz e.client_id n.client_id then n ∷ es else e ∷ rest

unfoldable pub find_fence : ℤ → List Fence → Option Fence
find_fence c [] = none
find_fence c (f ∷ fs) = let rest = find_fence c fs in if eqz f.client_id c then some f else rest

unfoldable pub set_fence : Fence → List Fence → List Fence
set_fence n [] = []
set_fence n (f ∷ fs) =
    let rest = set_fence n fs in if eqz f.client_id n.client_id then n ∷ fs else f ∷ rest

-- The callback that ApplierLoop hands to Reap: a tombstone is refreshed, or is added and may push
-- the oldest one out. `cap` is kFenceCap.
unfoldable pub add_fence : ℕ → Fence → List Fence → List Fence
add_fence cap n fs =
    let longer = fs ++ n ∷ [] in
    elim (find_fence n.client_id fs) [
      | none ↦ if ltb cap (length longer) then drop 1 longer else longer
      | some f ↦ set_fence n fs
    ]

abbrev pub tombstone : Session → Fence
tombstone e = record { client_id = e.client_id; last_seq = e.last_seq }

-- The first loop of SessionTable::Reap evicts what was idle for more than `max_idle` entries.
unfoldable pub reap_idle : ℕ → ℕ → ℕ → List Session → List Fence → List Session × List Fence
reap_idle cap now max_idle [] fs = ([], fs)
reap_idle cap now max_idle (e ∷ es) fs =
    let rest = reap_idle cap now max_idle es (add_fence cap (tombstone e) fs) in
    if leb (now - e.last_index) max_idle then (e ∷ es, fs) else rest

-- The second loop evicts down to the table's capacity.
unfoldable pub reap_over : ℕ → ℕ → List Session → List Fence → List Session × List Fence
reap_over cap limit [] fs = ([], fs)
reap_over cap limit (e ∷ es) fs =
    let rest = reap_over cap limit es (add_fence cap (tombstone e) fs) in
    if ltb limit (suc (length es)) then rest else (e ∷ es, fs)

-- The last sequence number known of a client: of its session, or of its tombstone.
unfoldable pub existing_seq : ℤ → ℕ → List Fence → ℕ
existing_seq c seq fs =
    if seq == 0 then (elim (find_fence c fs) [ none ↦ 0 | some f ↦ f.last_seq ]) else seq
