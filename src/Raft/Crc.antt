-- ===== src/Raft/Crc.antt =====
-- raft/raft.cpp: Crc32Raw, Crc32Update and Crc32, the checksum of snapshots and of log records.
use chon_kv.Base.{ℕ, zero, suc, ◌+◌, ◌*◌, ◌/◌, ◌%◌, if◌then◌else◌, ◌==◌, ℤ, pos, List, [], ◌∷◌}
use chon_kv.Codec.{to_i32}

-- `a ^ b` on the low `n` bits.
unfoldable pub xor : ℕ → ℕ → ℕ → ℕ
xor zero a b = 0
xor (suc n) a b = (a % 2 + b % 2) % 2 + 2 * xor n (a / 2) (b / 2)

-- `for (int k = 0; k < 8; ++k) c = (c & 1) ? (0xEDB88320u ^ (c >> 1)) : (c >> 1);` from `c = i`
unfoldable pub table_entry : ℕ → ℕ → ℕ
table_entry zero c = c
table_entry (suc k) c = table_entry k (if c % 2 == 1 then xor 32 3988292384 (c / 2) else c / 2)

-- `crc = table[(crc ^ bytes[i]) & 0xff] ^ (crc >> 8)` over the bytes
unfoldable pub crc32_raw : ℕ → List ℕ → ℕ
crc32_raw crc [] = crc
crc32_raw crc (b ∷ bytes) =
    crc32_raw (xor 32 (table_entry 8 (xor 32 crc (b % 256) % 256)) (crc / 256)) bytes

abbrev pub flip : ℕ → ℕ
flip crc = xor 32 crc 4294967295

unfoldable pub crc32_update : ℕ → List ℕ → ℕ
crc32_update crc bytes = flip (crc32_raw (flip crc) bytes)

-- `static_cast<int>` of the checksum.
unfoldable pub crc32 : List ℕ → ℤ
crc32 bytes = to_i32 (pos (crc32_update 0 bytes))
