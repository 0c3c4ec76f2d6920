-- ===== src/Porcupine/KvModel/Verdict.antt =====
-- kvraft/kv_model.cpp and kvraft/porcupine.cpp: what the verdict `Ok` says of a history of all keys.
use chon_kv.Base.{◌≡◌, List}
use chon_kv.Porcupine.{make_entries}
use chon_kv.Porcupine.Sound.{IsLinearizable}
use chon_kv.Porcupine.KvModel.{KvOperation, kv_model, CheckResult, ok, illegal}

-- The operations of one key have an order that the model of a key accepts.
abbrev pub PartIsLinearizable : List KvOperation → Type 0
PartIsLinearizable p = IsLinearizable kv_model (make_entries p)

not_ok : {r : CheckResult} → r ≡ illegal → ¬ (r ≡ ok)
not_ok e h = cc (e, h)
