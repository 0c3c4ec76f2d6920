-- ===== src/Raft/Wire.antt =====
-- raft/raft.cpp, the Serialize and Deserialize pairs of the messages, and the encoding of a log
-- entry that the messages, the raft state and the log file share.
pub mod RoundTrip
use chon_kv.Base.{
  ℕ, Bool, true, false, not, if◌then◌else◌, ℤ, pos, eqz, Option, List, [], ◌∷◌, ◌++◌,
}
use chon_kv.Codec.{
  Decoder, ◌>>=◌, return, fields, put_index, get_index, put_int, get_int, put_zigzag, get_zigzag,
  put_varint, get_varint, put_bool, get_bool, put_bytes, get_bytes, put_list, get_list,
}
use chon_kv.Raft.Types.{
  LogEntry, to_entry_type, of_entry_type, VoteArgs, VoteReply, AppendEntriesArgs,
  AppendEntriesReply, ReadIndexArgs, ReadIndexReply, InstallSnapshotArgs, InstallSnapshotReply,
}

unfoldable pub put_vote_args : VoteArgs → List ℕ
put_vote_args a = fields (
    put_index a.term
    ∷ put_int a.candidate_id
    ∷ put_index a.last_log_index
    ∷ put_index a.last_log_term
    ∷ [])

unfoldable pub get_vote_args : Decoder VoteArgs
get_vote_args = do
  t ← get_index
  c ← get_int
  i ← get_index
  l ← get_index
  return (record { term = t; candidate_id = c; last_log_index = i; last_log_term = l })

unfoldable pub put_vote_reply : VoteReply → List ℕ
put_vote_reply r = fields (put_index r.term ∷ put_bool r.vote_granted ∷ [])

unfoldable pub get_vote_reply : Decoder VoteReply
get_vote_reply = do t ← get_index; g ← get_bool; return (record { term = t; vote_granted = g })

unfoldable pub put_entry : LogEntry → List ℕ
put_entry e = fields (
    put_index e.term
    ∷ put_index e.index
    ∷ put_bytes e.command
    ∷ put_int (of_entry_type e.type)
    ∷ put_int e.conf_server
    ∷ put_int e.conf_role
    ∷ [])

unfoldable pub get_entry : Decoder LogEntry
get_entry = do
  t ← get_index
  i ← get_index
  c ← get_bytes
  et ← get_int
  s ← get_int
  r ← get_int
  return (record {
    term = t;
    index = i;
    command = c;
    type = to_entry_type et;
    conf_server = s;
    conf_role = r;
  })

unfoldable pub put_append_args : AppendEntriesArgs → List ℕ
put_append_args a = fields (
    put_index a.term
    ∷ put_int a.leader_id
    ∷ put_index a.prev_log_index
    ∷ put_index a.prev_log_term
    ∷ put_index a.leader_commit
    ∷ put_varint a.read_ctx
    ∷ put_list put_entry a.entries
    ∷ [])

unfoldable pub get_append_args : Decoder AppendEntriesArgs
get_append_args = do
  t ← get_index
  l ← get_int
  i ← get_index
  pt ← get_index
  c ← get_index
  rc ← get_varint
  es ← get_list get_entry
  return (record {
    term = t;
    leader_id = l;
    prev_log_index = i;
    prev_log_term = pt;
    entries = es;
    leader_commit = c;
    read_ctx = rc;
  })

unfoldable pub put_append_reply : AppendEntriesReply → List ℕ
put_append_reply r =
    fields
      (put_index r.term ∷ put_bool r.success ∷ put_index r.next_index ∷ put_varint r.read_ctx ∷ [])

unfoldable pub get_append_reply : Decoder AppendEntriesReply
get_append_reply = do
  t ← get_index
  s ← get_bool
  i ← get_index
  c ← get_varint
  return (record { term = t; success = s; next_index = i; read_ctx = c })

-- `done ? 1 : 0`
abbrev pub flag : Bool → ℤ
flag b = if b then pos 1 else pos 0

unfoldable pub put_snapshot_args : InstallSnapshotArgs → List ℕ
put_snapshot_args a = fields (
    put_index a.term
    ∷ put_int a.leader_id
    ∷ put_index a.last_included_index
    ∷ put_index a.last_included_term
    ∷ put_zigzag a.offset
    ∷ put_int a.chunk_size
    ∷ put_int (flag a.done)
    ∷ put_int a.crc
    ∷ put_int a.epoch
    ∷ put_bytes a.chunk
    ∷ put_list put_int a.members
    ∷ [])

unfoldable pub get_snapshot_args : Decoder InstallSnapshotArgs
get_snapshot_args = do
  t ← get_index
  l ← get_int
  i ← get_index
  lt ← get_index
  o ← get_zigzag
  n ← get_int
  d ← get_int
  c ← get_int
  e ← get_int
  b ← get_bytes
  ms ← get_list get_int
  return (record {
    term = t;
    leader_id = l;
    last_included_index = i;
    last_included_term = lt;
    offset = o;
    chunk_size = n;
    done = not (eqz d (pos 0));
    crc = c;
    epoch = e;
    chunk = b;
    members = ms;
  })

unfoldable pub put_snapshot_reply : InstallSnapshotReply → List ℕ
put_snapshot_reply r = fields (put_index r.term ∷ put_int (flag r.ok_install) ∷ [])

unfoldable pub get_snapshot_reply : Decoder InstallSnapshotReply
get_snapshot_reply = do
  t ← get_index
  o ← get_int
  return (record { term = t; ok_install = not (eqz o (pos 0)) })

unfoldable pub put_read_args : ReadIndexArgs → List ℕ
put_read_args a = put_index a.term

unfoldable pub get_read_args : Decoder ReadIndexArgs
get_read_args = do t ← get_index; return (record { term = t })

unfoldable pub put_read_reply : ReadIndexReply → List ℕ
put_read_reply r = fields (put_index r.term ∷ put_zigzag r.read_index ∷ [])

unfoldable pub get_read_reply : Decoder ReadIndexReply
get_read_reply = do t ← get_index; i ← get_zigzag; return (record { term = t; read_index = i })
