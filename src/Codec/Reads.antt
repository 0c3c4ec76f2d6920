-- ===== src/Codec/Reads.antt =====
-- What a decoder call makes of the bytes that the matching encoder call wrote, whatever follows.
use chon_kv.Base.{ℕ, ◌≡◌, List, [], ◌++◌, some, append_assoc, append-nil}
use chon_kv.Codec.{Decoder, ◌>>=◌, complete, decode_all}

abbrev pub Reads : {A : Type 0} → Decoder A → List ℕ → A → Type 0
Reads d bytes a = (rest : List ℕ) → d (bytes ++ rest) ≡ some (a, rest)

-- The last call of a chain reads its bytes and returns a record.
pub Reads-bind :
    {A B : Type 0} (d : Decoder A) (f : A → Decoder B) (bytes more : List ℕ) (a : A) (b : B)
    → Reads d bytes a
    → Reads (f a) more b
    → Reads (d >>= f) (bytes ++ more) b
Reads-bind d f bytes more a b h k rest =
    rw (append_assoc bytes more rest, h (more ++ rest), ◌>>=◌) (k rest)

pub Reads-last :
    {A B : Type 0} (d : Decoder A) (f : A → Decoder B) (bytes : List ℕ) (a : A) (b : B)
    → Reads d bytes a
    → ((rest : List ℕ) → f a rest ≡ some (b, rest))
    → Reads (d >>= f) bytes b
Reads-last d f bytes a b h k rest = rw (h rest, ◌>>=◌) (k rest)

pub decode_all-Reads :
    {A : Type 0} (d : Decoder A) (bytes : List ℕ) (a : A)
    → Reads d bytes a
    → decode_all d bytes ≡ some a
unfolding decode_all
decode_all-Reads d bytes a h = rw (← append-nil bytes, h [], complete)
