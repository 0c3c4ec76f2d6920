-- ===== src/Codec/Tests.antt =====
-- Concrete runs of the codec.
use chon_kv.Base.{◌≡◌, refl, [], ◌∷◌, some, pos, negsuc, ◌++◌}
use chon_kv.Codec.{put_varint, put_zigzag, get_zigzag, get_varint, put_int, get_int}

varint_300 : put_varint 300 ≡ 172 ∷ 2 ∷ []
unfolding put_varint
varint_300 = refl

zigzag_signs : put_zigzag (negsuc 0) ++ put_zigzag (pos 1) ++ put_zigzag (negsuc 1) ≡ 1 ∷ 2 ∷ 3 ∷ []
unfolding put_zigzag put_varint
zigzag_signs = refl

int_back : get_int (put_int (negsuc 1_000_000)) ≡ some (negsuc 1_000_000, [])
unfolding get_int put_int get_zigzag put_zigzag get_varint put_varint
int_back = refl
