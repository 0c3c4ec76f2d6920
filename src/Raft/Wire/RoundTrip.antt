-- ===== src/Raft/Wire/RoundTrip.antt =====
-- raft/raft.cpp: the bytes of each message read back.
use chon_kv.Base.{ℕ, ◌^◌, ◌<◌, ◌≡◌, refl, Bool, true, false, not, pos, eqz, some, arith, length}
use chon_kv.Codec.{
  decode_all, get_index, put_int, get_int, get_zigzag, get_varint, get_bool, get_bytes, get_list,
}
use chon_kv.Codec.Reads.{Reads, Reads-bind, decode_all-Reads}
use chon_kv.Codec.RoundTrip.{
  IsU64, IsI64, IsI32, All, get_index-put_index, get_int-put_int, get_zigzag-put_zigzag,
  get_varint-put_varint, get_bool-put_bool, get_bytes-put_bytes, get_list-put_list,
}
use chon_kv.Raft.Types.{
  LogEntry, to_entry_type, of_entry_type, VoteArgs, VoteReply, AppendEntriesArgs,
  AppendEntriesReply, ReadIndexReply, InstallSnapshotArgs, InstallSnapshotReply,
}
use chon_kv.Raft.Wire.{
  put_vote_args, get_vote_args, put_vote_reply, get_vote_reply, put_entry, get_entry,
  put_append_args, get_append_args, put_append_reply, get_append_reply, put_snapshot_args,
  get_snapshot_args, put_snapshot_reply, get_snapshot_reply, put_read_reply, get_read_reply, flag,
}

abbrev pub IsIndex : ℕ → Type 0
IsIndex n = n < 2 ^ 63

pub record VoteArgsFits (a : VoteArgs) : Type 0 where
  pub term : IsIndex a.term
  pub candidate : IsI32 a.candidate_id
  pub last_index : IsIndex a.last_log_index
  pub last_term : IsIndex a.last_log_term

pub get_vote_args-put_vote_args :
    (a : VoteArgs) → VoteArgsFits a → Reads get_vote_args (put_vote_args a) a
unfolding get_vote_args put_vote_args
get_vote_args-put_vote_args a h = Reads-bind get_index _ _ _ _ _ (get_index-put_index _ h.term) (
    Reads-bind get_int _ _ _ _ _ (get_int-put_int _ h.candidate) (
      Reads-bind get_index _ _ _ _ _ (get_index-put_index _ h.last_index)
        (Reads-bind get_index _ _ _ _ _ (get_index-put_index _ h.last_term) (λ r. refl))))

pub record EntryFits (e : LogEntry) : Type 0 where
  pub term : IsIndex e.term
  pub index : IsIndex e.index
  pub command : IsU64 (length e.command)
  pub type : to_entry_type (of_entry_type e.type) ≡ e.type
  pub type_int : IsI32 (of_entry_type e.type)
  pub server : IsI32 e.conf_server
  pub role : IsI32 e.conf_role

pub get_entry-put_entry : (e : LogEntry) → EntryFits e → Reads get_entry (put_entry e) e
unfolding get_entry put_entry
get_entry-put_entry e h = Reads-bind get_index _ _ _ _ _ (get_index-put_index _ h.term) (
    Reads-bind get_index _ _ _ _ _ (get_index-put_index _ h.index) (
      Reads-bind get_bytes _ _ _ _ _ (get_bytes-put_bytes _ h.command) (
        Reads-bind get_int _ _ _ _ _ (get_int-put_int _ h.type_int) (
          Reads-bind get_int _ _ _ _ _ (get_int-put_int _ h.server)
            (Reads-bind get_int _ _ _ _ _ (get_int-put_int _ h.role) (λ r. cc h.type))))))

pub record AppendArgsFits (a : AppendEntriesArgs) : Type 0 where
  pub term : IsIndex a.term
  pub leader : IsI32 a.leader_id
  pub prev_index : IsIndex a.prev_log_index
  pub prev_term : IsIndex a.prev_log_term
  pub commit : IsIndex a.leader_commit
  pub ctx : IsU64 a.read_ctx
  pub each : All EntryFits a.entries
  pub count : length a.entries < 2 ^ 31

pub get_append_args-put_append_args :
    (a : AppendEntriesArgs) → AppendArgsFits a → Reads get_append_args (put_append_args a) a
unfolding get_append_args put_append_args
get_append_args-put_append_args a h =
    Reads-bind get_index _ _ _ _ _ (get_index-put_index _ h.term) (
      Reads-bind get_int _ _ _ _ _ (get_int-put_int _ h.leader) (
        Reads-bind get_index _ _ _ _ _ (get_index-put_index _ h.prev_index) (
          Reads-bind get_index _ _ _ _ _ (get_index-put_index _ h.prev_term) (
            Reads-bind get_index _ _ _ _ _ (get_index-put_index _ h.commit) (
              Reads-bind get_varint _ _ _ _ _ (get_varint-put_varint _ h.ctx) (
                Reads-bind (get_list get_entry) _ _ _ _ _
                  (get_list-put_list EntryFits get_entry put_entry get_entry-put_entry _ h.each
                    h.count)
                  (λ r. refl)))))))

get_flag : (b : Bool) → Reads get_int (put_int (flag b)) (flag b)
get_flag true = get_int-put_int (pos 1) (omega arith)
get_flag false = get_int-put_int (pos 0) (omega arith)

flag_back : (b : Bool) → not (eqz (flag b) (pos 0)) ≡ b
flag_back true = refl
flag_back false = refl

pub record SnapshotArgsFits (a : InstallSnapshotArgs) : Type 0 where
  pub term : IsIndex a.term
  pub leader : IsI32 a.leader_id
  pub last_index : IsIndex a.last_included_index
  pub last_term : IsIndex a.last_included_term
  pub offset : IsI64 a.offset
  pub size : IsI32 a.chunk_size
  pub crc : IsI32 a.crc
  pub epoch : IsI32 a.epoch
  pub chunk : IsU64 (length a.chunk)
  pub each : All IsI32 a.members
  pub count : length a.members < 2 ^ 31

pub get_snapshot_args-put_snapshot_args :
    (a : InstallSnapshotArgs) → SnapshotArgsFits a → Reads get_snapshot_args (put_snapshot_args a) a
unfolding get_snapshot_args put_snapshot_args
get_snapshot_args-put_snapshot_args a h =
    Reads-bind get_index _ _ _ _ _ (get_index-put_index _ h.term) (
      Reads-bind get_int _ _ _ _ _ (get_int-put_int _ h.leader) (
        Reads-bind get_index _ _ _ _ _ (get_index-put_index _ h.last_index) (
          Reads-bind get_index _ _ _ _ _ (get_index-put_index _ h.last_term) (
            Reads-bind get_zigzag _ _ _ _ _ (get_zigzag-put_zigzag _ h.offset) (
              Reads-bind get_int _ _ _ _ _ (get_int-put_int _ h.size) (
                Reads-bind get_int _ _ _ _ _ (get_flag a.done) (
                  Reads-bind get_int _ _ _ _ _ (get_int-put_int _ h.crc) (
                    Reads-bind get_int _ _ _ _ _ (get_int-put_int _ h.epoch) (
                      Reads-bind get_bytes _ _ _ _ _ (get_bytes-put_bytes _ h.chunk) (
                        Reads-bind (get_list get_int) _ _ _ _ _
                          (get_list-put_list IsI32 get_int put_int get_int-put_int _ h.each h.count)
                          (λ r. cc (flag_back a.done))))))))))))

pub get_append_reply-put_append_reply :
    (r : AppendEntriesReply)
    → IsIndex r.term
    → IsIndex r.next_index
    → IsU64 r.read_ctx
    → Reads get_append_reply (put_append_reply r) r
unfolding get_append_reply put_append_reply
get_append_reply-put_append_reply r t i c =
    Reads-bind get_index _ _ _ _ _ (get_index-put_index _ t) (
      Reads-bind get_bool _ _ _ _ _ (get_bool-put_bool _) (
        Reads-bind get_index _ _ _ _ _ (get_index-put_index _ i)
          (Reads-bind get_varint _ _ _ _ _ (get_varint-put_varint _ c) (λ s. refl))))

pub get_vote_reply-put_vote_reply :
    (r : VoteReply) → IsIndex r.term → Reads get_vote_reply (put_vote_reply r) r
unfolding get_vote_reply put_vote_reply
get_vote_reply-put_vote_reply r t =
    Reads-bind get_index _ _ _ _ _ (get_index-put_index _ t)
      (Reads-bind get_bool _ _ _ _ _ (get_bool-put_bool _) (λ s. refl))

pub get_snapshot_reply-put_snapshot_reply :
    (r : InstallSnapshotReply) → IsIndex r.term → Reads get_snapshot_reply (put_snapshot_reply r) r
unfolding get_snapshot_reply put_snapshot_reply
get_snapshot_reply-put_snapshot_reply r t =
    Reads-bind get_index _ _ _ _ _ (get_index-put_index _ t)
      (Reads-bind get_int _ _ _ _ _ (get_flag r.ok_install) (λ s. cc (flag_back r.ok_install)))

pub get_read_reply-put_read_reply :
    (r : ReadIndexReply)
    → IsIndex r.term
    → IsI64 r.read_index
    → Reads get_read_reply (put_read_reply r) r
unfolding get_read_reply put_read_reply
get_read_reply-put_read_reply r t i =
    Reads-bind get_index _ _ _ _ _ (get_index-put_index _ t)
      (Reads-bind get_zigzag _ _ _ _ _ (get_zigzag-put_zigzag _ i) (λ s. refl))

-- A vote request, an AppendEntries and an InstallSnapshot whose numbers fit the machine integers of
-- their fields are decoded from their bytes whole, with no byte left.
pub message_round_trips :
    (v : VoteArgs) (a : AppendEntriesArgs) (s : InstallSnapshotArgs)
    → VoteArgsFits v
    → AppendArgsFits a
    → SnapshotArgsFits s
    → (decode_all get_vote_args (put_vote_args v) ≡ some v)
      × (decode_all get_append_args (put_append_args a) ≡ some a)
      × (decode_all get_snapshot_args (put_snapshot_args s) ≡ some s)
message_round_trips v a s hv ha hs = (
  decode_all-Reads get_vote_args _ v (get_vote_args-put_vote_args v hv),
  decode_all-Reads get_append_args _ a (get_append_args-put_append_args a ha),
  decode_all-Reads get_snapshot_args _ s (get_snapshot_args-put_snapshot_args s hs),
)
