-- ===== src/Store.antt =====
-- persist/log_store.h, persist/log/memory_log_store.h and persist/log/segment_log_store.cpp: the
-- log behind the raft node, in memory (every call does nothing) or in one record file.
-- Modelled of the file: the entries it holds, the offset after each record, and its size. `aborted`
-- stands for std::abort(); the thread that fsyncs and the failures of system calls are not modelled.
pub mod Backend
use chon_kv.Base.{
  ℕ, zero, suc, ◌+◌, ◌-◌, ◌≤◌, Bool, true, false, not, ◌&&◌, ◌||◌, same_bytes, if◌then◌else◌, ltb,
  leb, ◌==◌, List, [], ◌∷◌, ◌++◌, length, take, drop, get_or,
}
use chon_kv.Raft.Types.{LogEntry, plain_entry}
use chon_kv.Raft.Wire.{put_entry}

pub record LogStore : Type 0 where
  pub keeps_log_externally : Bool
  pub entries : List LogEntry
  pub offsets : List ℕ
  pub file_size : ℕ
  pub aborted : Bool

-- `logs_.back().index` and `.term`, 0 for the empty list.
abbrev pub last_index : List LogEntry → ℕ
last_index [] = 0
last_index (e ∷ []) = e.index
last_index (e ∷ f ∷ es) = last_index (f ∷ es)

abbrev pub last_term : List LogEntry → ℕ
last_term [] = 0
last_term (e ∷ []) = e.term
last_term (e ∷ f ∷ es) = last_term (f ∷ es)

abbrev pub is_empty : List LogEntry → Bool
is_empty [] = true
is_empty (e ∷ es) = false

-- A record is a length, a checksum and the encoded entry.
unfoldable pub record_size : LogEntry → ℕ
record_size e = 8 + length (put_entry e)

unfoldable pub write_record : LogStore → LogEntry → LogStore
write_record s e =
    let size = s.file_size + record_size e in
    record s { offsets = s.offsets ++ size ∷ []; file_size = size }

unfoldable pub write_records : LogStore → List LogEntry → LogStore
write_records s [] = s
write_records s (e ∷ es) = write_records (write_record s e) es

unfoldable pub rewrite_file : LogStore → LogStore
rewrite_file s = write_records (record s { offsets = []; file_size = 0 }) s.entries

-- SegmentLogStorage::Append
unfoldable pub append_file : LogStore → LogEntry → LogStore
append_file s e =
    let s' = if is_empty s.entries && ltb 0 s.file_size then rewrite_file s else s in
    if not (is_empty s'.entries) && not (e.index == last_index s'.entries + 1)
    then record s' { aborted = true }
    else (let w = write_record s' e in record w { entries = w.entries ++ e ∷ [] })

unfoldable pub append : LogStore → LogEntry → LogStore
unfolding append_file
append s e = if s.keeps_log_externally then append_file s e else s

-- How many entries at the front have an index up to `i`.
unfoldable pub count_upto : ℕ → List LogEntry → ℕ
count_upto i [] = 0
count_upto i (e ∷ es) = let rest = count_upto i es in if leb e.index i then suc rest else 0

-- SegmentLogStorage::TruncateSuffix
unfoldable pub truncate_suffix : LogStore → ℕ → LogStore
truncate_suffix s i =
    let keep = count_upto i s.entries in
    let size = (if ltb 0 keep then get_or s.offsets (keep - 1) 0 else 0) in
    if s.keeps_log_externally
    then record s { entries = take keep s.entries; offsets = take keep s.offsets; file_size = size }
    else s

-- SegmentLogStorage::DropPrefix leaves the file as it is.
unfoldable pub drop_prefix : LogStore → ℕ → LogStore
drop_prefix s i =
    let gone = count_upto i s.entries in
    if s.keeps_log_externally
    then record s { entries = drop gone s.entries; offsets = drop gone s.offsets }
    else s

unfoldable pub truncate_prefix : LogStore → ℕ → LogStore
truncate_prefix s i = if s.keeps_log_externally then rewrite_file (drop_prefix s i) else s

-- SegmentLogStorage::Replay: a sentinel, then what lies behind the snapshot.
unfoldable pub after_snapshot : ℕ → List LogEntry → List LogEntry
after_snapshot i [] = []
after_snapshot i (e ∷ es) =
    let rest = after_snapshot i es in if leb e.index i then rest else e ∷ rest

unfoldable pub replay : LogStore → ℕ → ℕ → List LogEntry
replay s snap_term snap_idx =
    if s.keeps_log_externally
    then plain_entry snap_term snap_idx [] ∷ after_snapshot snap_idx s.entries
    else []

-- The entries are those of the log behind its sentinel, byte for byte.
unfoldable pub same_entries : List LogEntry → List LogEntry → Bool
same_entries [] [] = true
same_entries [] (l ∷ ls) = false
same_entries (e ∷ es) [] = false
same_entries (e ∷ es) (l ∷ ls) = same_bytes (put_entry e) (put_entry l) && same_entries es ls

-- SegmentLogStorage::ResetFromLogs
unfoldable pub reset_from_logs : LogStore → List LogEntry → LogStore
reset_from_logs s logs =
    let tail = drop 1 logs in
    if not s.keeps_log_externally || same_entries s.entries tail
    then s
    else rewrite_file (record s { entries = tail })
