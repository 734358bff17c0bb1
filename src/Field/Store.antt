-- ===== src/Field/Store.antt =====
-- `create_coboldata` and `create_coboldata_lowvalue` of dblib/ocesql.c: a result value, as text,
-- into a field of the COBOL program. The bytes are those that are written from the field's address
-- on; a step out of a block that the code allocates is a fault (`none`).
use cobol.Prelude.{
  Bool, Bytes, Option, [], drop, false, get_elem?, if◌then◌else◌, leb, length, none, pos, replicate,
  some, suc, take, true, zero, ℕ, ℤ, ◌%◌, ◌*◌, ◌++◌, ◌+◌, ◌-◌, ◌/◌, ◌==◌, ◌>>=◌, ◌∷◌,
}
use cobol.Util.{cstr, negative_final_number}
use cobol.Field.Buffer.{zeroed, memcpy_at}
use cobol.Field.Place.{place}
use cobol.Field.Packed.{pack, packed_size, skip_first}

-- The types of `OCDB_TYPE_…` that the conversions distinguish; `other` is their `default` case.
pub data FieldType : Type 0 where
  unsigned_number signed_number_tc signed_number_ls : FieldType
  unsigned_number_pd signed_number_pd : FieldType
  alphanumeric japanese alphanumeric_varying japanese_varying : FieldType
  other : FieldType

-- The case that a type code selects.
unfoldable pub field_type : ℕ → FieldType
field_type t =
    if t == 1
    then unsigned_number
    else if t == 3
    then signed_number_tc
    else if t == 4
    then signed_number_ls
    else if t == 8
    then unsigned_number_pd
    else if t == 9
    then signed_number_pd
    else if t == 16
    then alphanumeric
    else if t == 24
    then japanese
    else if t == 30
    then alphanumeric_varying
    else if t == 31
    then japanese_varying
    else other

-- `if (retstr[0] == '-') { is_negative = true; value = retstr + 1; }`
unfoldable pub split_sign : Bytes → Bool × Bytes
split_sign [] = (false, [])
split_sign (c ∷ s) = if c == b'-' then (true, s) else (false, c ∷ s)

-- `final_length - 1`; the byte before the block is out of bounds.
abbrev pub last_index : ℕ → Option ℕ
last_index zero = none
last_index (suc n) = some n

-- `type_tc_negative_final_number[last - '0']`.
pub negative_code : ℕ → Option ℕ
negative_code last = if leb b'0' last then get_elem? negative_final_number (last - b'0') else none

-- The last digit of the string in `final` becomes the byte that also carries the minus.
unfoldable pub overpunch : Bytes → Option Bytes
unfolding negative_code
overpunch final = do
  i ← last_index (length (cstr final))
  last ← get_elem? final i
  code ← negative_code last
  memcpy_at (pos i) (code ∷ []) final

unfoldable pub apply_sign : Bool → Bytes → Option Bytes
apply_sign true final = overpunch final
apply_sign false final = some final

store_unsigned : ℕ → ℤ → Bytes → Option Bytes
store_unsigned width power retstr = do
  final ← place 0 width power retstr (zeroed (width + 1))
  some (take width final)

store_signed_tc : ℕ → ℤ → Bytes → Option Bytes
unfolding split_sign apply_sign
store_signed_tc width power retstr = do
  let (is_negative, value) = split_sign retstr
  final ← place 0 width power value (zeroed (width + 1))
  with_sign ← apply_sign is_negative final
  some (take (width + 1) with_sign)

store_signed_ls : ℕ → ℤ → Bytes → Option Bytes
unfolding split_sign
store_signed_ls width power retstr = do
  let (is_negative, value) = split_sign retstr
  let first : ℕ = if is_negative then b'-' else b'+'
  final ← place 1 width power value (first ∷ zeroed (width + 1))
  some (take (width + 1) final)

store_unsigned_pd : ℕ → ℤ → Bytes → Option Bytes
store_unsigned_pd width power retstr = do
  pre_final ← place 0 width power retstr (zeroed (width + 1))
  pack (packed_size width) (skip_first width) 0x0F pre_final

store_signed_pd : ℕ → ℤ → Bytes → Option Bytes
unfolding split_sign
store_signed_pd width power retstr = do
  let (is_negative, value) = split_sign retstr
  pre_final ← place 0 width power value (zeroed (packed_size width + 1))
  pack (packed_size width) (skip_first width) (if is_negative then 0x0D else 0x0C) pre_final

-- `memcpy` of `s` over the start of `buf`.
abbrev pub over : Bytes → Bytes → Bytes
over s buf = s ++ drop (length s) buf

-- `memset` with spaces.
abbrev pub blanks : ℕ → Bytes
blanks n = replicate n b' '

unfoldable pub store_alphanumeric : ℕ → Bytes → Bytes
store_alphanumeric width retstr =
    if leb width (length retstr) then take width retstr else over retstr (blanks width)

-- `n` full-width spaces of Shift_JIS.
unfoldable pub wide_spaces : ℕ → Bytes
wide_spaces zero = []
wide_spaces (suc n) = 0x81 ∷ 0x40 ∷ wide_spaces n

unfoldable pub store_japanese : ℕ → Bytes → Bytes
store_japanese width retstr =
    if leb (width * 2) (length retstr)
    then take (width * 2) retstr
    else over retstr (wide_spaces width)

-- The four bytes of an `int`, as a little-endian host stores it.
unfoldable pub varchar_header : ℕ → Bytes
varchar_header n = n % 256 ∷ n / 256 % 256 ∷ n / 65536 % 256 ∷ n / 16777216 % 256 ∷ []

unfoldable pub store_varying : ℕ → Bytes → Bytes
store_varying width retstr =
    if leb width (length retstr)
    then varchar_header width ++ take width retstr
    else varchar_header (length retstr) ++ over retstr (blanks width)

-- A value that fills the field is written over the header.
unfoldable pub store_japanese_varying : ℕ → Bytes → Bytes
store_japanese_varying width retstr =
    if leb (width * 2) (length retstr)
    then over (take (width * 2) retstr) (varchar_header width)
    else varchar_header (length retstr / 2)
      ++ over (take (length retstr / 2 * 2) retstr) (wide_spaces width)

-- The `switch` of `create_coboldata`.
unfoldable pub store : FieldType → ℕ → ℤ → Bytes → Option Bytes
unfolding store_unsigned store_signed_tc store_signed_ls store_unsigned_pd store_signed_pd
    store_alphanumeric store_japanese store_varying store_japanese_varying
store unsigned_number width power retstr = store_unsigned width power retstr
store signed_number_tc width power retstr = store_signed_tc width power retstr
store signed_number_ls width power retstr = store_signed_ls width power retstr
store unsigned_number_pd width power retstr = store_unsigned_pd width power retstr
store signed_number_pd width power retstr = store_signed_pd width power retstr
store alphanumeric width power retstr = some (store_alphanumeric width retstr)
store japanese width power retstr = some (store_japanese width retstr)
store alphanumeric_varying width power retstr = some (store_varying width retstr)
store japanese_varying width power retstr = some (store_japanese_varying width retstr)
store other width power retstr = some []
