-- ===== src/Base/Int.antt =====
-- Signed machine integers: the C++ `int` and `int64_t` whose sign the program uses (node ids with
-- -1 for "none", frozen indices, numbers on the wire).
use Prim.Native.Nat.{ℕ}
use mathlib.Core.Path.{◌≡◌, refl}
use mathlib.Core.Logic.{◌↔◌}
use mathlib.Core.Bool.{Bool, true, false, ◌&&◌}
use mathlib.Core.Option.{Option, none}
use mathlib.Core.List.{List, [], ◌∷◌}
use native.Mathlib.Omega.{arith}
use chon_kv.Base.Tests.{◌==◌, ltb}
use chon_kv.Base.Lists.{get_elem?, set}

-- `negsuc n` is -(n + 1).
pub data ℤ : Type 0 where
  pos : ℕ → ℤ
  negsuc : ℕ → ℤ

abbrev pub eqz : ℤ → ℤ → Bool
eqz (pos a) (pos b) = a == b
eqz (pos a) (negsuc b) = false
eqz (negsuc a) (pos b) = false
eqz (negsuc a) (negsuc b) = a == b

pub eqz_iff : (a b : ℤ) → (eqz a b ≡ true) ↔ (a ≡ b)
eqz_iff (pos a) (pos b) = ground arith
eqz_iff (pos a) (negsuc b) = ground arith
eqz_iff (negsuc a) (pos b) = ground arith
eqz_iff (negsuc a) (negsuc b) = ground arith

-- An index that may be negative: nothing stands there, and a write there changes nothing.
abbrev pub at_ℤ {ℓ} : {A : Type ℓ} → List A → ℤ → Option A
at_ℤ xs (pos n) = get_elem? xs n
at_ℤ xs (negsuc n) = none

abbrev pub set_ℤ {ℓ} : {A : Type ℓ} → List A → ℤ → A → List A
set_ℤ xs (pos n) v = set xs n v
set_ℤ xs (negsuc n) v = xs

abbrev pub minus_one : ℤ
minus_one = negsuc 0

-- `v >= 0`
abbrev pub is_nonneg : ℤ → Bool
is_nonneg (pos n) = true
is_nonneg (negsuc n) = false

-- `a < b`
abbrev pub ltz : ℤ → ℤ → Bool
ltz (pos a) (pos b) = ltb a b
ltz (pos a) (negsuc b) = false
ltz (negsuc a) (pos b) = true
ltz (negsuc a) (negsuc b) = ltb b a

-- `a == b` of two strings
abbrev pub same_bytes : List ℕ → List ℕ → Bool
same_bytes [] [] = true
same_bytes [] (b ∷ bs) = false
same_bytes (a ∷ as') [] = false
same_bytes (a ∷ as') (b ∷ bs) = (a == b) && same_bytes as' bs

pub same_bytes_eq : (as' bs : List ℕ) → same_bytes as' bs ≡ true → as' ≡ bs
same_bytes_eq [] [] h = refl
same_bytes_eq [] (b ∷ bs) h = cc h
same_bytes_eq (a ∷ as') [] h = cc h
same_bytes_eq (a ∷ as') (b ∷ bs) h =
    let parts : (a ≡ b) × (same_bytes as' bs ≡ true) = ground arith in
    rw (parts.0, same_bytes_eq as' bs parts.1) refl
