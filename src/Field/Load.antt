-- ===== src/Field/Load.antt =====
-- `create_realdata` of dblib/ocesql.c: a field of the COBOL program as the text of a query
-- parameter. `field` is the memory from the field's address on. `none` is a fault.
use cobol.Prelude.{
  Bool, Bytes, Option, [], drop, get_or, if◌then◌else◌, is_neg, ltb, none, some, take, true, ℕ, ℤ,
  ◌*◌, ◌+◌, ◌==◌, ◌>>=◌, ◌^◌, ◌∷◌,
}
use cobol.Util.{cstr, insert_decimal_point, type_tc_is_positive}
use cobol.Field.Packed.{unpack, packed_size, skip_first}
use cobol.Field.Store.{
  FieldType, unsigned_number, signed_number_tc, signed_number_ls, unsigned_number_pd,
  signed_number_pd, alphanumeric, japanese, alphanumeric_varying, japanese_varying, other,
}

-- `if (power < 0) insert_decimal_point(realdata, realdata_length, power)`, where `realdata_length`
-- is one more than `size` in that case.
unfoldable pub point : ℕ → ℤ → Bytes → Bytes
point size power s = if is_neg power then insert_decimal_point s (size + 1) power else s

load_unsigned : ℕ → ℤ → Bytes → Bytes
unfolding point
load_unsigned width power field = point width power (cstr (take width field))

-- The last byte as `type_tc_is_positive` rewrites it, and the sign that it gives.
unfoldable pub split_last : Bytes → Bool × Bytes
split_last [] = (true, [])
split_last (c ∷ []) = let (positive, d) = type_tc_is_positive c in (positive, d ∷ [])
split_last (c ∷ d ∷ s) = let (positive, t) = split_last (d ∷ s) in (positive, c ∷ t)

load_signed_tc : ℕ → ℤ → Bytes → Bytes
unfolding point split_last
load_signed_tc width power field =
    let (positive, digits) = split_last (take width field) in
    let sign : ℕ = if positive then b'+' else b'-' in point (width + 1) power (sign ∷ cstr digits)

load_signed_ls : ℕ → ℤ → Bytes → Bytes
unfolding point
load_signed_ls width power field = point (width + 1) power (cstr (take (width + 1) field))

load_unsigned_pd : ℕ → ℤ → Bytes → Option Bytes
unfolding point
load_unsigned_pd width power field = do
  (digits, rest) ← unpack (packed_size width) (skip_first width) (take (packed_size width) field)
  some (point width power digits)

load_signed_pd : ℕ → ℤ → Bytes → Option Bytes
unfolding point
load_signed_pd width power field = do
  (digits, low) ← unpack (packed_size width) (skip_first width) (take (packed_size width) field)
  let sign : ℕ = if low == 0x0C then b'+' else b'-'
  some (point (width + 1) power (sign ∷ digits))

-- `memcpy(&lensize, addr, OCDB_VARCHAR_HEADER_BYTE)` on a little-endian host.
unfoldable pub varchar_length : Bytes → ℕ
varchar_length s =
    get_or s 0 0 + 256 * get_or s 1 0 + 65536 * get_or s 2 0 + 16777216 * get_or s 3 0

-- A length of 2 ^ 31 or more is negative as an `int`, and no block of that size is allocated.
unfoldable pub load_varying : ℕ → Bytes → Option Bytes
unfolding varchar_length
load_varying scale field =
    let lensize = varchar_length field * scale in
    if ltb lensize (2 ^ 31) then some (cstr (take lensize (drop 4 field))) else none

-- The `switch` of `create_realdata`.
unfoldable pub load : FieldType → ℕ → ℤ → Bytes → Option Bytes
unfolding load_unsigned load_signed_tc load_signed_ls load_unsigned_pd load_signed_pd load_varying
load unsigned_number width power field = some (load_unsigned width power field)
load signed_number_tc width power field = some (load_signed_tc width power field)
load signed_number_ls width power field = some (load_signed_ls width power field)
load unsigned_number_pd width power field = load_unsigned_pd width power field
load signed_number_pd width power field = load_signed_pd width power field
load alphanumeric width power field = some (cstr (take width field))
load japanese width power field = some (cstr (take (width * 2) field))
load alphanumeric_varying width power field = load_varying 1 field
load japanese_varying width power field = load_varying 2 field
load other width power field = some (cstr (take width field))
