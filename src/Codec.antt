-- ===== src/Codec.antt =====
-- labrpc/codec.h: the byte format of every message and of the persisted state. A buffer is the
-- list of its bytes; what an encoder call writes is the list that it appends, and a decoder call
-- takes the bytes that are left and hands over a value with the rest (`none` where it fails).
pub mod Reads
pub mod RoundTrip
mod Tests
use mathlib.Core.WellFounded.{Acc, WellFounded}
use mathlib.Core.Logic.{dite}
use native.Mathlib.Decide.{dec_le}
use chon_kv.Base.{
  ℕ, zero, suc, ◌+◌, ◌-◌, ◌*◌, ◌/◌, ◌%◌, ◌^◌, ◌≤◌, ◌<◌, Bool, true, false, not, if◌then◌else◌, ltb,
  leb, ◌==◌, ℤ, pos, negsuc, Option, none, some, List, [], ◌∷◌, ◌++◌, arith, length, take, drop,
}

-- The order of the native numbers is well founded, which bounds the loop of `Varint`.
accessible : (k n : ℕ) → n < k → Acc ◌<◌ n
accessible zero n h = elim h [ ]
accessible (suc k) n h = Acc.intro n (λ m hm. accessible k m (omega arith))

unfoldable pub smaller_first : WellFounded ◌<◌
unfolding accessible
smaller_first = record { apply = λ n. accessible (suc n) n (omega arith) }

pub shift_shrinks : (v : ℕ) → 128 ≤ v → v / 128 < v
shift_shrinks v h = omega arith

-- `while (v >= 0x80) { push((v & 0x7f) | 0x80); v >>= 7; } push(v)`
pub varint_loop : (v : ℕ) → Acc ◌<◌ v → List ℕ
unfolding dec_le
varint_loop v (Acc.intro _ smaller) =
    dite (dec_le 128 v)
      (λ big. (v % 128 + 128) ∷ varint_loop (v / 128) (smaller (v / 128) (shift_shrinks v big)))
      (λ _. v ∷ [])

unfoldable pub put_varint : ℕ → List ℕ
unfolding varint_loop smaller_first
put_varint v = varint_loop v (smaller_first.apply v)

unfoldable pub put_bool : Bool → List ℕ
put_bool v = put_varint (if v then 1 else 0)

-- An int64_t as its 64-bit pattern, and back.
abbrev pub to_u64 : ℤ → ℕ
to_u64 (pos n) = n
to_u64 (negsuc n) = 2 ^ 64 - 1 - n

abbrev pub to_i64 : ℕ → ℤ
to_i64 w = if ltb w (2 ^ 63) then pos w else negsuc (2 ^ 64 - 1 - w)

-- `static_cast<int>` keeps the low 32 bits.
abbrev pub to_i32 : ℤ → ℤ
to_i32 v = let w = to_u64 v % 2 ^ 32 in if ltb w (2 ^ 31) then pos w else negsuc (2 ^ 32 - 1 - w)

-- `x ^ ~0` flips all 64 bits, and `x ^ 0` none.
abbrev pub xor_sign : ℕ → Bool → ℕ
xor_sign x negative = if negative then 2 ^ 64 - 1 - x else x

-- `(v << 1) ^ (v >> 63)`: the arithmetic shift is all ones for a negative number.
unfoldable pub put_zigzag : ℤ → List ℕ
put_zigzag v = put_varint (xor_sign (to_u64 v * 2 % 2 ^ 64) (leb (2 ^ 63) (to_u64 v)))

unfoldable pub put_bytes : List ℕ → List ℕ
put_bytes s = put_varint (length s) ++ s

unfoldable pub put_int : ℤ → List ℕ
put_int v = put_zigzag v

-- A chain of encoder calls on one buffer.
abbrev pub fields : List (List ℕ) → List ℕ
fields [] = []
fields (b ∷ bs) = b ++ fields bs

abbrev pub Decoder : Type 0 → Type 0
Decoder A = List ℕ → Option (A × List ℕ)

infixl 5 ◌>>=◌
abbrev pub ◌>>=◌ : {A B : Type 0} → Decoder A → (A → Decoder B) → Decoder B
◌>>=◌ d f s = elim (d s) [ none ↦ none | some (a, rest) ↦ f a rest ]

abbrev pub return : {A : Type 0} → A → Decoder A
return a s = some (a, s)

abbrev pub fail : {A : Type 0} → Decoder A
fail s = none

-- `result |= (uint64_t)(b & 0x7f) << shift`. The sum is the bitwise or, since `result` is below
-- 2 ^ shift when the byte is read.
abbrev pub add_group : ℕ → ℕ → ℕ → ℕ
add_group result b shift = result + b % 128 * 2 ^ shift % 2 ^ 64

pub get_varint_loop : ℕ → ℕ → Decoder ℕ
get_varint_loop result shift [] = none
get_varint_loop result shift (b ∷ rest) =
    let result' = add_group result b shift in
    let more = get_varint_loop result' (shift + 7) rest in
    if leb 64 shift then none else if ltb b 128 then some (result', rest) else more

unfoldable pub get_varint : Decoder ℕ
unfolding get_varint_loop
get_varint s = get_varint_loop 0 0 s

unfoldable pub get_bool : Decoder Bool
get_bool = do x ← get_varint; return (not (x == 0))

-- `(int64_t)(x >> 1) ^ -(int64_t)(x & 1)`
unfoldable pub get_zigzag : Decoder ℤ
get_zigzag = do x ← get_varint; return (to_i64 (xor_sign (x / 2) (x % 2 == 1)))

unfoldable pub get_bytes : Decoder (List ℕ)
get_bytes = do n ← get_varint; λ s. if ltb (length s) n then none else some (take n s, drop n s)

unfoldable pub get_int : Decoder ℤ
get_int = do x ← get_zigzag; return (to_i32 x)

-- `Ok()`: no call failed and no byte is left.
abbrev pub complete : {A : Type 0} → Option (A × List ℕ) → Option A
complete none = none
complete (some (a, [])) = some a
complete (some (a, b ∷ rest)) = none

unfoldable pub decode_all : {A : Type 0} → Decoder A → List ℕ → Option A
decode_all d s = complete (d s)

-- An int64_t that the program keeps nonnegative (terms, indices). A negative number in its place,
-- which no node writes, has no counterpart in the model.
unfoldable pub get_index : Decoder ℕ
get_index = do x ← get_zigzag; λ s. elim x [ pos n ↦ some (n, s) | negsuc n ↦ none ]

unfoldable pub put_index : ℕ → List ℕ
put_index n = put_zigzag (pos n)

-- `for (int i = 0; i < n; i++)` over one kind of item.
unfoldable pub get_items : {A : Type 0} → ℕ → Decoder A → Decoder (List A)
get_items zero item s = some ([], s)
get_items (suc n) item s = elim (item s) [
  | none ↦ none
  | some (a, rest) ↦ elim (get_items n item rest) [
    | none ↦ none
    | some (as', rest') ↦ some (a ∷ as', rest')
  ]
]

-- An item count, which the decoders refuse below 0, then the items.
unfoldable pub get_list : {A : Type 0} → Decoder A → Decoder (List A)
unfolding get_items
get_list item = do n ← get_int; λ s. elim n [ pos k ↦ get_items k item s | negsuc k ↦ none ]

unfoldable pub put_items : {A : Type 0} → (A → List ℕ) → List A → List ℕ
put_items item [] = []
put_items item (x ∷ xs) = item x ++ put_items item xs

unfoldable pub put_list : {A : Type 0} → (A → List ℕ) → List A → List ℕ
put_list item xs = put_int (pos (length xs)) ++ put_items item xs
