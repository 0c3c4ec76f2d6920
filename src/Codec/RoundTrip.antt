-- ===== src/Codec/RoundTrip.antt =====
-- labrpc/codec.h: each encoder call against the decoder call of its type.
use mathlib.Core.WellFounded.{Acc}
use chon_kv.Base.{
  ℕ, ◌+◌, ◌*◌, ◌/◌, ◌%◌, ◌^◌, ◌<◌, ◌≡◌, refl, ap, ◌∙◌, Bool, true, false, ltb, leb, ◌==◌, ℤ, pos,
  negsuc, some, List, [], ◌∷◌, ◌++◌, arith, append_assoc, length, length-append, take, drop,
}
use native.Mathlib.Numerals.{towards_suc}
use native.Mathlib.Nat.{div-add-mod, pow-le-pow_right}
use native.Mathlib.Decide.{dec_lt, dec_le}
use mathlib.Core.Logic.{dif_pos, dif_neg}
use native.Mathlib.Bridge.{le_prop}
use chon_kv.Codec.{
  Decoder, smaller_first, varint_loop, shift_shrinks, put_varint, get_varint, get_varint_loop,
  put_bool, get_bool, put_zigzag, get_zigzag, put_bytes, get_bytes, put_int, get_int, put_index,
  get_index, put_list, get_list, put_items, get_items, to_u64, to_i64, xor_sign,
}
use chon_kv.Codec.Reads.{Reads, Reads-bind, Reads-last}

abbrev pub IsU64 : ℕ → Type 0
IsU64 v = v < 2 ^ 64

abbrev pub IsI64 : ℤ → Type 0
IsI64 (pos n) = n < 2 ^ 63
IsI64 (negsuc n) = n < 2 ^ 63

abbrev pub IsI32 : ℤ → Type 0
IsI32 (pos n) = n < 2 ^ 31
IsI32 (negsuc n) = n < 2 ^ 31

next_shift : (s : ℕ) → 2 ^ (s + 7) ≡ 128 * 2 ^ s
next_shift s = simp towards_suc (omega arith)

-- The seven low bits of `w` at position `s`, and what stands above them.
low_and_high : (w s : ℕ) → w * 2 ^ s ≡ w % 128 * 2 ^ s + w / 128 * 2 ^ (s + 7)
low_and_high w s = omega (
  arith,
  ap (λ (t : ℕ). t * 2 ^ s) (div-add-mod w 128),
  ap (λ (t : ℕ). w / 128 * t) (next_shift s),
)

-- One byte of the loop: a last byte ends it, any other byte passes its group on.
last_group :
    (w acc shift : ℕ) (rest : List ℕ)
    → w < 128
    → shift < 64
    → acc + w * 2 ^ shift < 2 ^ 64
    → get_varint_loop acc shift (w ∷ rest) ≡ some (acc + w * 2 ^ shift, rest)
unfolding get_varint_loop
last_group w acc shift rest hw hs fits = ground arith

inner_group :
    (w acc shift : ℕ) (rest : List ℕ)
    → shift < 64
    → acc + w % 128 * 2 ^ shift < 2 ^ 64
    → get_varint_loop acc shift ((w % 128 + 128) ∷ rest)
      ≡ get_varint_loop (acc + w % 128 * 2 ^ shift) (shift + 7) rest
unfolding get_varint_loop
inner_group w acc shift rest hs fits = ground arith

-- A number above 0 shifted by `shift` fits 64 bits only for a shift below 64.
shift-lt : (w shift : ℕ) → 0 < w → w * 2 ^ shift < 2 ^ 64 → shift < 64
shift-lt w shift hw fits = elim (dec_lt shift 64) [
  | yes h ↦ h
  | no h ↦ absurd (
      grind
        (arith, fits, pow-le-pow_right {n = 2} (omega arith) {i = 64} {j = shift} (omega arith)))
]

get_varint_loop-varint_loop :
    (w : ℕ) (a : Acc ◌<◌ w) (acc shift : ℕ) (rest : List ℕ)
    → shift < 64
    → acc + w * 2 ^ shift < 2 ^ 64
    → get_varint_loop acc shift (varint_loop w a ++ rest) ≡ some (acc + w * 2 ^ shift, rest)
unfolding varint_loop
get_varint_loop-varint_loop w (Acc.intro _ smaller) acc shift rest hs fits = elim (dec_le 128 w) [
  | yes big ↦ rw (dif_pos _ le_prop big) (
      let e = low_and_high w shift in
      inner_group w acc shift _ hs (omega arith)
      ∙ get_varint_loop-varint_loop (w / 128) (smaller (w / 128) (shift_shrinks w big))
          (acc + w % 128 * 2 ^ shift) (shift + 7) rest
          (shift-lt (w / 128) (shift + 7) (omega arith) (omega arith)) (omega arith)
      ∙ ap (λ t. some (t, rest)) (omega arith))
  | no small ↦ rw (dif_neg _ small) (last_group w acc shift rest (omega arith) hs fits)
]

-- `Varint` of the decoder reads back the uint64 that `Varint` of the encoder wrote.
pub get_varint-put_varint : (v : ℕ) → IsU64 v → Reads get_varint (put_varint v) v
unfolding get_varint put_varint
get_varint-put_varint v h rest =
    get_varint_loop-varint_loop v (smaller_first.apply v) 0 0 rest (omega arith) (omega arith)
    ∙ ap (λ t. some (t, rest)) (omega arith)

pub get_bool-put_bool : (v : Bool) → Reads get_bool (put_bool v) v
unfolding get_bool put_bool
get_bool-put_bool true =
    Reads-last get_varint _ (put_varint 1) 1 true (get_varint-put_varint 1 (omega arith))
      (λ r. refl)
get_bool-put_bool false =
    Reads-last get_varint _ (put_varint 0) 0 false (get_varint-put_varint 0 (omega arith))
      (λ r. refl)

abbrev zigzag_word : ℤ → ℕ
zigzag_word v = xor_sign (to_u64 v * 2 % 2 ^ 64) (leb (2 ^ 63) (to_u64 v))

zigzag_word_value :
    (v : ℤ) → IsI64 v → zigzag_word v ≡ (elim v [ pos n ↦ 2 * n | negsuc n ↦ 2 * n + 1 ])
zigzag_word_value (pos n) h = ground arith
zigzag_word_value (negsuc n) h = ground arith

unzigzag : (v : ℤ) → IsI64 v → let x = zigzag_word v in to_i64 (xor_sign (x / 2) (x % 2 == 1)) ≡ v
unzigzag (pos n) h = rw (zigzag_word_value (pos n) h) (ground arith)
unzigzag (negsuc n) h = rw (zigzag_word_value (negsuc n) h) (ground arith)

zigzag_word-IsU64 : (v : ℤ) → IsI64 v → IsU64 (zigzag_word v)
zigzag_word-IsU64 (pos n) h = omega (arith, zigzag_word_value (pos n) h)
zigzag_word-IsU64 (negsuc n) h = omega (arith, zigzag_word_value (negsuc n) h)

pub get_zigzag-put_zigzag : (v : ℤ) → IsI64 v → Reads get_zigzag (put_zigzag v) v
unfolding get_zigzag put_zigzag
get_zigzag-put_zigzag v h =
    Reads-last get_varint _ (put_varint (zigzag_word v)) (zigzag_word v) v
      (get_varint-put_varint (zigzag_word v) (zigzag_word-IsU64 v h))
      (λ rest. ap (λ t. some (t, rest)) (unzigzag v h))

pub get_int-put_int : (v : ℤ) → IsI32 v → Reads get_int (put_int v) v
unfolding get_int put_int
get_int-put_int (pos n) h =
    Reads-last get_zigzag _ (put_zigzag (pos n)) (pos n) (pos n)
      (get_zigzag-put_zigzag (pos n) (omega arith)) (λ rest. ground arith)
get_int-put_int (negsuc n) h =
    Reads-last get_zigzag _ (put_zigzag (negsuc n)) (negsuc n) (negsuc n)
      (get_zigzag-put_zigzag (negsuc n) (omega arith)) (λ rest. ground arith)

pub get_index-put_index : (n : ℕ) → n < 2 ^ 63 → Reads get_index (put_index n) n
unfolding get_index put_index
get_index-put_index n h =
    Reads-last get_zigzag _ (put_zigzag (pos n)) (pos n) n (get_zigzag-put_zigzag (pos n) h)
      (λ r. refl)

pub take-append : (s rest : List ℕ) → take (length s) (s ++ rest) ≡ s
take-append [] rest = refl
take-append (x ∷ s) rest = ap (◌∷◌ x) (take-append s rest)

pub drop-append : (s rest : List ℕ) → drop (length s) (s ++ rest) ≡ rest
drop-append [] rest = refl
drop-append (x ∷ s) rest = drop-append s rest

not_short : (s rest : List ℕ) → ltb (length (s ++ rest)) (length s) ≡ false
not_short s rest = ground (arith, length-append s rest)

pub get_bytes-put_bytes : (s : List ℕ) → IsU64 (length s) → Reads get_bytes (put_bytes s) s
unfolding get_bytes put_bytes
get_bytes-put_bytes s h =
    Reads-bind get_varint _ (put_varint (length s)) s (length s) s
      (get_varint-put_varint (length s) h)
      (λ rest. rw (not_short s rest, take-append s rest, drop-append s rest))

-- A predicate on the items of a list.
abbrev pub All : {A : Type 0} → (A → Type 0) → List A → Type 0
All P [] = Unit {0}
All P (x ∷ xs) = P x × All P xs

pub get_items-put_items :
    {A : Type 0} (P : A → Type 0) (d : Decoder A) (e : A → List ℕ)
    → ((a : A) → P a → Reads d (e a) a)
    → (xs : List A) → All P xs
    → Reads (get_items (length xs) d) (put_items e xs) xs
unfolding get_items put_items
get_items-put_items P d e one [] h rest = refl
get_items-put_items P d e one (x ∷ xs) h rest = rw (
  append_assoc (e x) (put_items e xs) rest,
  one x h.0 (put_items e xs ++ rest),
  get_items-put_items P d e one xs h.1 rest,
)

-- A counted list of items is read back, where each item is.
pub get_list-put_list :
    {A : Type 0} (P : A → Type 0) (d : Decoder A) (e : A → List ℕ)
    → ((a : A) → P a → Reads d (e a) a)
    → (xs : List A) → All P xs
    → length xs < 2 ^ 31
    → Reads (get_list d) (put_list e xs) xs
unfolding get_list put_list
get_list-put_list P d e one xs h fits =
    Reads-bind get_int _ (put_int (pos (length xs))) (put_items e xs) (pos (length xs)) xs
      (get_int-put_int (pos (length xs)) fits) (get_items-put_items P d e one xs h)
