-- ===== src/Store/Backend.antt =====
-- persist/log: Append and the backend that a node has.
use chon_kv.Base.{◌≡◌, refl, ◌∙◌, List, [], ◌∷◌, arith}
use chon_kv.Raft.Types.{LogEntry}
use chon_kv.Store.{LogStore, write_record, write_records, rewrite_file, append_file, append}

write_records-keeps :
    (s : LogStore) (es : List LogEntry)
    → (write_records s es).keeps_log_externally ≡ s.keeps_log_externally
unfolding write_records write_record
write_records-keeps s [] = refl
write_records-keeps s (e ∷ es) = write_records-keeps (write_record s e) es ∙ refl

append_file-keeps :
    (s : LogStore) (e : LogEntry) → (append_file s e).keeps_log_externally ≡ s.keeps_log_externally
unfolding append_file rewrite_file write_record
append_file-keeps s e =
    ground (arith, write_records-keeps (record s { offsets = []; file_size = 0 }) s.entries)

pub append-keeps :
    (s : LogStore) (e : LogEntry) → (append s e).keeps_log_externally ≡ s.keeps_log_externally
unfolding append
append-keeps s e = ground (arith, append_file-keeps s e)
