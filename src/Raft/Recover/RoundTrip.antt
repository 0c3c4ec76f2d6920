-- ===== src/Raft/Recover/RoundTrip.antt =====
-- raft/raft.cpp: the persisted state read back.
use chon_kv.Base.{
  ◌≤◌, ◌<◌, ◌^◌, ◌≡◌, refl, ap, true, false, ltb, ◌==◌, pos, some, List, [], ◌∷◌, ◌++◌, map, length,
  length-map, arith,
}
use chon_kv.Codec.{get_index, get_int, get_items, put_items, put_int, put_list, decode_all}
use chon_kv.Codec.Reads.{Reads, Reads-bind, decode_all-Reads}
use chon_kv.Codec.RoundTrip.{All, IsI32, get_int-put_int, get_index-put_index, get_items-put_items}
use chon_kv.Raft.Types.{MemberRole, to_role, of_role, LogEntry}
use chon_kv.Raft.Wire.{get_entry, put_entry}
use chon_kv.Raft.Wire.RoundTrip.{IsIndex, EntryFits, get_entry-put_entry}
use chon_kv.Raft.State.{Saved, put_saved}
use chon_kv.Raft.Recover.{get_logs, get_members, get_saved}

-- A role that has an enumerator, or one that no enumerator has, of an int.
abbrev pub RoleFits : MemberRole → Type 0
RoleFits r = (to_role (of_role r) ≡ r) × IsI32 (of_role r)

pub record SavedFits (d : Saved) : Type 0 where
  pub term : IsIndex d.term
  pub voted_for : IsI32 d.voted_for
  pub snapshot_index : IsIndex d.snapshot_index
  pub snapshot_term : IsIndex d.snapshot_term
  pub entries : All EntryFits d.logs
  pub count : length d.logs ≤ 4194304
  pub roles : All RoleFits d.is_member
  pub peers : length d.is_member < 2 ^ 31
  pub pending : IsIndex d.pending_conf_index

get_logs-put_list :
    (es : List LogEntry)
    → All EntryFits es
    → length es ≤ 4194304
    → Reads (get_logs false) (put_list put_entry es) es
unfolding get_logs put_list
get_logs-put_list es h fits =
    let few : ltb 4194304 (length es) ≡ false = ground (arith, fits) in
    Reads-bind get_int _ (put_int (pos (length es))) (put_items put_entry es) (pos (length es)) es
      (get_int-put_int (pos (length es)) (omega arith))
      (λ rest.
        rw few (get_items-put_items EntryFits get_entry put_entry get_entry-put_entry es h rest))

roles_back : (ms : List MemberRole) → All RoleFits ms → map to_role (map of_role ms) ≡ ms
roles_back [] h = refl
roles_back (m ∷ ms) h = rw (h.0.0, roles_back ms h.1) refl

All-of_role : (ms : List MemberRole) → All RoleFits ms → All IsI32 (map of_role ms)
All-of_role [] h = tt
All-of_role (m ∷ ms) h = (h.0.1, All-of_role ms h.1)

put_items-map :
    (ms : List MemberRole)
    → put_items (λ r. put_int (of_role r)) ms ≡ put_items put_int (map of_role ms)
unfolding put_items
put_items-map [] = refl
put_items-map (m ∷ ms) = ap (λ t. put_int (of_role m) ++ t) (put_items-map ms)

get_members-put_list :
    (ms : List MemberRole)
    → All RoleFits ms
    → length ms < 2 ^ 31
    → Reads (get_members (length ms)) (put_list (λ r. put_int (of_role r)) ms) ms
unfolding get_members put_list
get_members-put_list ms h fits =
    let same : (length ms == length ms) ≡ true = ground arith in
    let read : Reads (get_items (length ms) get_int) (put_items (λ r. put_int (of_role r)) ms)
        (map of_role ms) =
      λ rest.
        rw (put_items-map ms, ← length-map ms of_role)
          (get_items-put_items IsI32 get_int put_int get_int-put_int (map of_role ms)
            (All-of_role ms h) rest) in
    Reads-bind get_int _ (put_int (pos (length ms))) (put_items (λ r. put_int (of_role r)) ms)
      (pos (length ms)) ms (get_int-put_int (pos (length ms)) fits)
      (λ rest. rw (read rest, same, roles_back ms h) refl)

pub get_saved-put_saved :
    (d : Saved) → SavedFits d → Reads (get_saved false (length d.is_member)) (put_saved d) d
unfolding get_saved put_saved
get_saved-put_saved d h = Reads-bind get_index _ _ _ _ _ (get_index-put_index _ h.term) (
    Reads-bind get_int _ _ _ _ _ (get_int-put_int _ h.voted_for) (
      Reads-bind get_index _ _ _ _ _ (get_index-put_index _ h.snapshot_index) (
        Reads-bind get_index _ _ _ _ _ (get_index-put_index _ h.snapshot_term) (
          Reads-bind (get_logs false) _ _ _ _ _ (get_logs-put_list d.logs h.entries h.count) (
            Reads-bind (get_members (length d.is_member)) _ _ _ _ _
              (get_members-put_list d.is_member h.roles h.peers)
              (Reads-bind get_index _ _ _ _ _ (get_index-put_index _ h.pending) (λ r. refl)))))))

pub decode_saved :
    (d : Saved)
    → SavedFits d
    → decode_all (get_saved false (length d.is_member)) (put_saved d) ≡ some d
decode_saved d h = decode_all-Reads _ _ d (get_saved-put_saved d h)
