-- ===== src/Raft/Propose/Accepted.antt =====
-- raft/raft.cpp: Start and ProposeConfChangeTo, by how a call ends.
use chon_kv.Base.{
  ℕ, ◌+◌, ◌≤◌, ◌≡◌, refl, ◌∙◌, ap, ◌⊎◌, inl, inr, true, false, ◌||◌, not, Bool-cases, Option-cases,
  some, none, at_ℤ, ℤ, pos, minus_one, List, [], ◌∷◌, ◌++◌, length-append, arith,
}
use chon_kv.Store.{append, last_index}
use chon_kv.Store.Backend.{append-keeps}
use chon_kv.Raft.Types.{
  MemberRole, voter, learner, removed, unknown, is_voter, LogEntry, plain_entry, StartResult,
}
use chon_kv.Raft.State.{
  RaftState, leader, is_leader, last_log_index, voter_at, member_count, is_removed_self, persist,
  persist_log,
}
use chon_kv.Raft.Log.{last_index-IsLog, Contiguous-append}
use chon_kv.Raft.Invariant.{IsValid}
use chon_kv.Raft.Commit.{advance_commit_index}
use chon_kv.Raft.Commit.Quorum.{advance_commit_index-Kept, advance_commit_index-IsValid}
use chon_kv.Raft.Propose.{
  is_enumerator, backlogged, disk_is_full, add_entry, start, conf_entry, change_allowed,
  propose_conf_change_to,
}

-- The entry `e` is the new end of the log; in memory mode the whole log is on disk.
pub record Proposed (e : LogEntry) (s t : RaftState) : Type 0 where
  pub valid : IsValid t
  pub logs : t.logs ≡ s.logs ++ e ∷ []
  pub commit : s.commit_index ≤ t.commit_index
  pub term : t.current_term ≡ s.current_term
  pub durable : s.log_store.keeps_log_externally ≡ false → t.disk.logs ≡ t.logs

last_index-append_one :
    (logs : List LogEntry) (e : LogEntry) → last_index (logs ++ e ∷ []) ≡ e.index
last_index-append_one [] e = refl
last_index-append_one (x ∷ []) e = refl
last_index-append_one (x ∷ y ∷ ys) e = last_index-append_one (y ∷ ys) e

add_entry-IsValid :
    (e : LogEntry) (s t : RaftState)
    → e.index ≡ last_log_index s + 1
    → IsValid s
    → t.logs ≡ s.logs ++ e ∷ []
    → t.snapshot_index ≡ s.snapshot_index
    → t.commit_index ≡ s.commit_index
    → IsValid t
add_entry-IsValid e s t h v logs snap commit = record {
  is_log =
      rw (logs, snap)
        (record {
          contiguous =
              Contiguous-append s.snapshot_index s.logs (e ∷ []) v.is_log.contiguous
                (omega (arith, last_index-IsLog s.snapshot_index s.logs v.is_log), tt);
          sentinel = omega (arith, length-append s.logs (e ∷ []));
        });
  covered = rw (snap, commit) v.covered;
  committed =
      omega (arith, commit, ap last_index logs, last_index-append_one s.logs e, v.committed);
}

external-append :
    (s : RaftState) (e : LogEntry)
    → s.log_store.keeps_log_externally ≡ false
    → append s.log_store e ≡ s.log_store
unfolding append
external-append s e h = ground arith

start-Proposed :
    (command : List ℕ) (s : RaftState)
    → IsValid s
    → let e = plain_entry s.current_term (last_log_index s + 1) command in
      Proposed e s (advance_commit_index (persist_log (add_entry e s)))
unfolding persist_log add_entry
start-Proposed command s v =
    let e = plain_entry s.current_term (last_log_index s + 1) command in
    let t = persist_log (add_entry e s) in
    let k = advance_commit_index-Kept t in
    record {
      valid =
          advance_commit_index-IsValid t
            (add_entry-IsValid e s t refl v (ground arith) (ground arith) (ground arith));
      logs = k.logs ∙ ground arith;
      commit = ground (arith, k.commit);
      term = k.current_term ∙ ground arith;
      durable = λ h. ground (arith, k.disk, k.logs, external-append s e h);
    }

-- Why Start takes a command, and what it does with it.
pub record Started (command : List ℕ) (s t : RaftState) (r : StartResult) : Type 0 where
  pub role : (s.state ≡ leader) × (s.killed ≡ false) × (s.pending_stepdown ≡ false)
  pub backlog : backlogged s ≡ false
  pub room : disk_is_full s ≡ false
  pub proposed : Proposed (plain_entry s.current_term (last_log_index s + 1) command) s t
  pub index : r.index ≡ pos (last_log_index s + 1)
  pub term : r.term ≡ s.current_term

-- A call that takes no command changes nothing and returns no index.
pub record Rejected (s t : RaftState) (r : StartResult) : Type 0 where
  pub same : t ≡ s
  pub index : r.index ≡ minus_one

-- Start either takes the command, on a live leader that is not stepping down, within its backlog and
-- with room on disk: the command is the new last entry of the log, of the current term, at the index
-- returned, on disk in memory mode, and the state keeps its shape. Or it reports that it does not
-- lead, changes nothing and returns index -1.
pub start_cases :
    (command : List ℕ) (s : RaftState)
    → IsValid s
    → (((start command s).1.is_leader ≡ true)
        × Started command s (start command s).0 (start command s).1)
      ⊎ (((start command s).1.is_leader ≡ false)
          × Rejected s (start command s).0 (start command s).1)
unfolding start
start_cases command s v =
    elim (Bool-cases
      (s.killed || not (is_leader s.state) || s.pending_stepdown || is_removed_self s)) [
        | inl e ↦ rw e (inr (refl, record { same = refl; index = refl }))
        | inr e ↦ rw e (elim (Bool-cases (backlogged s)) [
          | inl b ↦ rw b (inr (refl, record { same = refl; index = refl }))
          | inr b ↦ rw b (elim (Bool-cases (disk_is_full s)) [
            | inl d ↦ rw d (inr (refl, record { same = refl; index = refl }))
            | inr d ↦ rw d (
                inl (
                  refl,
                  record {
                    role = (ground arith, ground arith, ground arith);
                    backlog = b;
                    room = d;
                    proposed = start-Proposed command s v;
                    index = refl;
                    term = refl;
                  },
                ))
          ])
        ])
      ]

-- An accepted change: its server is a node of the configuration and its role an enumerator, no other
-- change was pending, it is pending now, and a voter is left.
pub record Changed (server : ℤ) (target : MemberRole) (s t : RaftState) (r : StartResult)
    : Type 0 where
  pub node : (m : MemberRole) × (at_ℤ s.is_member server ≡ some m)
  pub role : (target ≡ voter) ⊎ (target ≡ learner) ⊎ (target ≡ removed)
  pub free : s.pending_conf_index ≡ 0
  pub pending : t.pending_conf_index ≡ last_log_index s + 1
  pub not_last :
      (is_voter target ≡ true) ⊎ (voter_at s.is_member server ≡ false) ⊎ (2 ≤ member_count s)
  pub proposed : Proposed (conf_entry server target s) s t
  pub index : r.index ≡ pos (last_log_index s + 1)

is_enumerator_cases :
    (r : MemberRole) → is_enumerator r ≡ true → (r ≡ voter) ⊎ (r ≡ learner) ⊎ (r ≡ removed)
is_enumerator_cases voter h = inl refl
is_enumerator_cases learner h = inr (inl refl)
is_enumerator_cases removed h = inr (inr refl)
is_enumerator_cases (unknown v) h = cc h

change_allowed-parts :
    (server : ℤ) (target : MemberRole) (s : RaftState)
    → change_allowed server target s ≡ true
    → ((m : MemberRole) × (at_ℤ s.is_member server ≡ some m))
      × ((target ≡ voter) ⊎ (target ≡ learner) ⊎ (target ≡ removed))
      × (s.pending_conf_index ≡ 0)
      × ((is_voter target ≡ true) ⊎ (voter_at s.is_member server ≡ false) ⊎ (2 ≤ member_count s))
unfolding change_allowed
change_allowed-parts server target s h =
    (node, is_enumerator_cases target (ground (arith, h)), ground arith, ground arith)
  where
    never : at_ℤ s.is_member server ≡ none → ⊥
    never e = ground (arith, rw (e, change_allowed) at h)

    node : (m : MemberRole) × (at_ℤ s.is_member server ≡ some m)
    node = elim (Option-cases (at_ℤ s.is_member server)) [ inl e ↦ absurd (never e) | inr f ↦ f ]

changed :
    (server : ℤ) (target : MemberRole) (s t : RaftState) (r : StartResult)
    → IsValid s
    → change_allowed server target s ≡ true
    → (u : RaftState) → t ≡ advance_commit_index (persist u)
    → u.logs ≡ s.logs ++ conf_entry server target s ∷ []
    → (u.snapshot_index ≡ s.snapshot_index)
      × (u.commit_index ≡ s.commit_index)
      × (u.current_term ≡ s.current_term)
      × (u.log_store.keeps_log_externally ≡ s.log_store.keeps_log_externally)
      × (u.pending_conf_index ≡ last_log_index s + 1)
    → r.index ≡ pos (last_log_index s + 1)
    → Changed server target s t r
unfolding persist
changed server target s t r v ok u et logs (snap, commit, term, kept, pending) index =
    let (node, role, free, not_last) = change_allowed-parts server target s ok in
    let k = advance_commit_index-Kept (persist u) in
    rw et (record {
      node = node;
      role = role;
      free = free;
      pending = k.pending_conf_index ∙ pending;
      not_last = not_last;
      proposed = record {
        valid =
            advance_commit_index-IsValid (persist u) (
              add_entry-IsValid (conf_entry server target s) s (persist u) refl v logs snap commit);
        logs = k.logs ∙ logs;
        commit = ground (arith, k.commit);
        term = k.current_term ∙ term;
        durable = λ h. ground (arith, k.disk, k.logs);
      };
      index = index;
    })

-- On a well-formed state, ProposeConfChangeTo either appends the change, which needs a leader that is
-- not stepping down, no pending change, a node of the configuration, a role that is an enumerator and a
-- voter that is left: the change is then the new last entry, pending, and on disk in memory mode. Or it
-- changes nothing and returns index -1.
pub propose_conf_change_to_cases :
    (server : ℤ) (target : MemberRole) (s : RaftState)
    → IsValid s
    → let r = propose_conf_change_to server target s in
      ((s.state ≡ leader) × (s.pending_stepdown ≡ false) × Changed server target s r.0 r.1)
      ⊎ Rejected s r.0 r.1
unfolding propose_conf_change_to
propose_conf_change_to_cases server target s v =
    elim (Bool-cases (not (is_leader s.state) || s.pending_stepdown)) [
      | inl e ↦ rw e (inr (record { same = refl; index = refl }))
      | inr e ↦ rw e (elim (Bool-cases (change_allowed server target s)) [
        | inr c ↦ rw c (inr (record { same = refl; index = refl }))
        | inl c ↦ rw c (elim (Bool-cases (disk_is_full s)) [
          | inl d ↦ rw d (inr (record { same = refl; index = refl }))
          | inr d ↦ rw d (
              inl (
                ground arith,
                ground arith,
                unfold add_entry in
                    changed server target s _ _ v c _ refl refl
                      (
                        refl,
                        refl,
                        refl,
                        append-keeps s.log_store (conf_entry server target s),
                        refl,
                      )
                      refl,
              ))
        ])
      ])
    ]
