-- ===== src/Kv/Snapshot/Tests.antt =====
-- The theorems on snapshots at a server of two keys, one session and one tombstone.
use chon_kv.Base.{◌≡◌, refl, some, true, false, pos, List, [], ◌∷◌, arith}
use chon_kv.Raft.Types.{ApplyMsg, normal}
use chon_kv.Kv.Messages.{put_op, put_name}
use chon_kv.Kv.Server.{KvState, less_bytes}
use chon_kv.Kv.Snapshot.{contents_of, encode_snapshot, apply_snapshot, apply_msgs}
use chon_kv.Kv.Snapshot.RoundTrip.{IsSound, ContentsFits, apply_snapshot-encode_snapshot}
use chon_kv.Kv.Snapshot.Sound.{Then, apply_msgs-IsSound}
use chon_kv.Kv.Snapshot.Resumes.{machines, snapshot_msg, apply_msgs-snapshot_msg}

abbrev ahead : KvState
ahead = record {
  kv_store =
      record { key = 97 ∷ []; value = 1 ∷ [] } ∷ record { key = 97 ∷ 98 ∷ []; value = [] } ∷ [];
  sessions = record { client_id = pos 7; last_seq = 2; last_index = 4 } ∷ [];
  session_cap = 1;
  max_idle_index = 10;
  fenced = record { client_id = pos 3; last_seq = 6 } ∷ [];
  msg_replies = [];
  last_cmd_index = 4;
}

abbrev behind : KvState
behind = record ahead {
  kv_store = [];
  sessions = [];
  fenced = [];
  msg_replies = record { index = 2; done = false; ok = false; client_id = pos 7; seq_id = 1 } ∷ [];
  last_cmd_index = 1;
}

-- A Put, then a command that is no command.
abbrev later : List ApplyMsg
later =
    record {
      command_valid = true;
      command = put_op (record {
        key = 99 ∷ [];
        value = 5 ∷ [];
        method = put_name;
        client_id = pos 8;
        seq_id = 1;
      });
      command_index = 5;
      entry_type = normal;
      snapshot_valid = false;
      snapshot = [];
      snapshot_term = 0;
      snapshot_index = 0;
    }
    ∷ []

ahead-IsSound : IsSound ahead
unfolding less_bytes
ahead-IsSound = record {
  store = ((refl, tt), (tt, tt));
  sessions = (refl, tt);
  fences = (refl, tt);
}

ahead-Fits : ContentsFits (contents_of ahead)
ahead-Fits = record {
  pairs = ((omega arith, omega arith), ((omega arith, omega arith), tt));
  pair_count = omega arith;
  sessions = ((omega arith, (omega arith, omega arith)), tt);
  session_count = omega arith;
  fences = ((omega arith, omega arith), tt);
  fence_count = omega arith;
}

apply_snapshot-encode_snapshot_example :
    apply_snapshot (encode_snapshot ahead) behind
    ≡ some (record behind {
      kv_store = ahead.kv_store;
      sessions = ahead.sessions;
      fenced = ahead.fenced;
    })
apply_snapshot-encode_snapshot_example =
    apply_snapshot-encode_snapshot ahead behind ahead-IsSound ahead-Fits

apply_msgs-IsSound_example : Then IsSound (apply_msgs later ahead)
apply_msgs-IsSound_example = apply_msgs-IsSound later ahead ahead-IsSound

apply_msgs-snapshot_msg_example :
    machines (apply_msgs (snapshot_msg ahead ∷ later) behind) ≡ machines (apply_msgs later ahead)
apply_msgs-snapshot_msg_example =
    apply_msgs-snapshot_msg ahead behind later ahead-IsSound ahead-Fits (omega arith) refl refl
