-- ===== src/Util.antt =====
-- dblib/ocdbutil.c: the text helpers of the run-time library.
-- A C string is the list of its bytes before the NUL, and `none` is a null pointer.
pub mod Names
pub mod Hostvalue
use cobol.Prelude.{
  ℕ, zero, suc, ◌+◌, ◌-◌, ℤ, pos, negsuc, neg, neg_part, is_neg, Bool, true, false, ◌&&◌, ◌||◌,
  Option, none, some, List, [], ◌∷◌, ◌++◌, length, take, drop, ltb, leb, ◌==◌, if◌then◌else◌, Bytes,
}

-- What a C function reads of a buffer as a string: the bytes before the first NUL.
unfoldable pub cstr : Bytes → Bytes
cstr [] = []
cstr (c ∷ s) = if c == 0 then [] else c ∷ cstr s

-- `oc_strndup`: a copy of the `n` bytes at `src`, which holds that many.
unfoldable pub oc_strndup : Option Bytes → ℤ → Option Bytes
oc_strndup src (negsuc n) = none
oc_strndup none (pos n) = none
oc_strndup (some s) (pos n) = some (take n s)

-- The string that is left when the first space before the NUL has become a NUL.
pub until_space : Bytes → Bytes
until_space [] = []
until_space (c ∷ s) = if c == 0 || c == b' ' then [] else c ∷ until_space s

unfoldable pub get_str_without_after_space : Option Bytes → Option Bytes
unfolding until_space
get_str_without_after_space none = none
get_str_without_after_space (some s) = some (until_space s)

-- `data` is the string in a buffer that has room for `data_size` bytes and the NUL.
unfoldable pub insert_decimal_point : Bytes → ℕ → ℤ → Bytes
insert_decimal_point s data_size power =
    let before_length = length s in
    let n_decimal_places = neg_part power in
    if ltb data_size (before_length + 1)
    then s
    else if n_decimal_places == 0 || leb before_length n_decimal_places
    then s
    else take (before_length - n_decimal_places) s
      ++ (b'.' ∷ drop (before_length - n_decimal_places) s)

-- `type_tc_negative_final_number`: the last byte of a negative number, by its last digit.
abbrev pub negative_final_number : Bytes
negative_final_number = b'p' ∷ b'q' ∷ b'r' ∷ b's' ∷ b't' ∷ b'u' ∷ b'v' ∷ b'w' ∷ b'x' ∷ b'y' ∷ []

-- The index of the first `c` in a table that is read from its entry `i` on.
index_of : ℕ → Bytes → ℕ → Option ℕ
index_of c [] i = none
index_of c (d ∷ table) i = if c == d then some i else index_of c table (i + 1)

-- `type_tc_is_positive`: the sign that the last byte carries, and the byte that replaces it.
unfoldable pub type_tc_is_positive : ℕ → Bool × ℕ
unfolding index_of
type_tc_is_positive c =
    if leb b'0' c && leb c b'9'
    then (true, c)
    else elim (index_of c negative_final_number 0) [ some i ↦ (false, b'0' + i) | none ↦ (true, 0) ]
