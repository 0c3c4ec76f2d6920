-- ===== src/Raft/Recover/Tests.antt =====
-- Snapshot blobs and restarts at concrete bytes.
use chon_kv.Base.{
  ℕ, ◌≡◌, refl, some, false, if◌then◌else◌, ltb, pos, List, [], ◌∷◌, Option, arith, take,
}
use chon_kv.Store.{LogStore}
use chon_kv.Raft.Types.{plain_entry, voter, learner, to_role, of_role, to_entry_type, of_entry_type}
use chon_kv.Raft.State.{Saved, put_saved}
use chon_kv.Raft.Blob.{good, absent, corrupt, decode_blob, encode_blob}
use chon_kv.Raft.Blob.RoundTrip.{decode_blob-encode_blob, length-encode_blob}
use chon_kv.Raft.Blob.Torn.{decode_blob-take}
use chon_kv.Raft.Recover.{restart, blob_bytes}
use chon_kv.Raft.Recover.RoundTrip.{SavedFits}
use chon_kv.Raft.Recover.Restart.{Back, blob_at, restart-Resumed}

abbrev raw : List ℕ
raw = 1 ∷ 2 ∷ 3 ∷ []

decode_blob-encode_blob_example : decode_blob (encode_blob 2 1 raw) ≡ good (pos 2) (pos 1) raw
decode_blob-encode_blob_example =
    decode_blob-encode_blob 2 1 raw (omega arith) (omega arith) (omega arith)

decode_blob-take_example :
    decode_blob (take 34 (encode_blob 2 1 raw)) ≡ (if ltb 34 20 then absent else corrupt)
decode_blob-take_example =
    decode_blob-take 34 2 1 raw (omega (arith, length-encode_blob 2 1 raw)) (omega arith)

abbrev memory : LogStore
memory = record {
  keeps_log_externally = false;
  entries = [];
  offsets = [];
  file_size = 0;
  aborted = false;
}

-- The state on disk has a snapshot at 1 and voted for node 2; the blob is of index 2.
abbrev on_disk : Saved
on_disk = record {
  term = 3;
  voted_for = pos 2;
  snapshot_index = 1;
  snapshot_term = 1;
  logs = plain_entry 1 1 [] ∷ plain_entry 1 2 (7 ∷ []) ∷ plain_entry 3 3 (8 ∷ []) ∷ [];
  is_member = voter ∷ learner ∷ voter ∷ [];
  pending_conf_index = 0;
}

abbrev newer : Option (ℕ × ℕ × List ℕ)
newer = some (2, 1, raw)

on_disk-Fits : SavedFits on_disk
unfolding to_role of_role to_entry_type of_entry_type
on_disk-Fits = record {
  term = omega arith;
  voted_for = omega arith;
  snapshot_index = omega arith;
  snapshot_term = omega arith;
  entries = (
    record {
      term = omega arith;
      index = omega arith;
      command = omega arith;
      type = refl;
      type_int = omega arith;
      server = omega arith;
      role = omega arith;
    },
    (
      record {
        term = omega arith;
        index = omega arith;
        command = omega arith;
        type = refl;
        type_int = omega arith;
        server = omega arith;
        role = omega arith;
      },
      (
        record {
          term = omega arith;
          index = omega arith;
          command = omega arith;
          type = refl;
          type_int = omega arith;
          server = omega arith;
          role = omega arith;
        },
        tt,
      ),
    ),
  );
  count = omega arith;
  roles = ((refl, omega arith), ((refl, omega arith), ((refl, omega arith), tt)));
  peers = omega arith;
  pending = omega arith;
}

restart-Resumed_example :
    Back on_disk (blob_at newer) (restart 0 3 memory (put_saved on_disk) (blob_bytes newer))
restart-Resumed_example =
    restart-Resumed 0 memory on_disk newer refl
      (record { contiguous = (refl, (refl, (refl, tt))); sentinel = omega arith }) on_disk-Fits
      (omega arith, (omega arith, omega arith))
