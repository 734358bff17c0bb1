-- ===== src/Field/Bounds.antt =====
-- How many bytes `create_coboldata` of dblib/ocesql.c writes, and where it leaves its own blocks.
use cobol.Field.Text.{
  length-store_alphanumeric, length-store_japanese, length-store_varying,
  length-store_japanese_varying,
}
use cobol.Prelude.{
  >>=-eq-some, Bool, Bytes, Option, [], arith, false, get_elem?, if◌then◌else◌, length,
  length-replicate, length-take, negsuc, none, pos, some, suc, take, true, zero, ℕ, ℤ, ◌*◌, ◌+◌,
  ◌∙◌, ◌∷◌, ◌≡◌, ◌≤◌,
}
use cobol.Util.{cstr}
use cobol.Field.Buffer.{zeroed, memcpy_at, fill_zero, length-memcpy_at, length-fill_zero}
use cobol.Field.Packed.{upper, next, pack, packed_size, skip_first}
use cobol.Field.Place.{before_point, after_point, copy_fraction, place}
use cobol.Field.Store.{
  store_alphanumeric, store_japanese, store_varying, store_japanese_varying, apply_sign, last_index,
  negative_code, FieldType, unsigned_number, signed_number_tc, signed_number_ls, unsigned_number_pd,
  signed_number_pd, alphanumeric, japanese, alphanumeric_varying, japanese_varying, other, store,
  overpunch, split_sign,
}

-- The bytes that a store changes, from the field's address on.
abbrev pub stored_size : FieldType → ℕ → ℕ
stored_size unsigned_number width = width
stored_size signed_number_tc width = width + 1
stored_size signed_number_ls width = width + 1
stored_size unsigned_number_pd width = packed_size width
stored_size signed_number_pd width = packed_size width
stored_size alphanumeric width = width
stored_size japanese width = width * 2
stored_size alphanumeric_varying width = width + 4
stored_size japanese_varying width = width * 2 + 4
stored_size other width = 0

length-pack :
    (n : ℕ) (skip : Bool) (sign : ℕ) (s : Bytes) {b : Bytes}
    → pack n skip sign s ≡ some b
    → length b ≡ n
unfolding pack
length-pack zero skip sign s h = ground arith
length-pack (suc zero) skip sign s h = ground arith
length-pack (suc (suc n)) skip sign s {b} h =
    let ((hi, rest), _, h1) = >>=-eq-some (upper skip s) _ h in
    let ((c, rest'), _, h2) = >>=-eq-some (next rest) _ h1 in
    let (bytes, e, h3) = >>=-eq-some (pack (suc n) false sign rest') _ h2 in
    ground (arith, length-pack (suc n) false sign rest' e)

length-copy_fraction :
    (at : ℤ) (frac : Option Bytes) (buf : Bytes) {b : Bytes}
    → copy_fraction at frac buf ≡ some b
    → length b ≡ length buf
unfolding copy_fraction
length-copy_fraction at none buf h = ground arith
length-copy_fraction at (some frac) buf h = length-memcpy_at at frac buf h

length-place :
    (base width : ℕ) (power : ℤ) (value buf : Bytes) {b : Bytes}
    → place base width power value buf ≡ some b
    → length b ≡ length buf
unfolding place
length-place base width (pos n) value buf {b} h =
    let (padded, e1, h1) = >>=-eq-some (fill_zero _ buf) _ h in
    let (whole, e2, h2) = >>=-eq-some (memcpy_at _ (before_point value) padded) _ h1 in
    ground (arith, length-fill_zero _ buf e1, length-memcpy_at _ (before_point value) padded e2)
length-place base width (negsuc n) value buf {b} h =
    let (padded, e1, h1) = >>=-eq-some (fill_zero _ buf) _ h in
    let (whole, e2, h2) = >>=-eq-some (memcpy_at _ (before_point value) padded) _ h1 in
    let (full, e3, h3) = >>=-eq-some (copy_fraction _ (after_point value) whole) _ h2 in
    length-fill_zero _ full h3
    ∙ length-copy_fraction _ (after_point value) whole e3
    ∙ length-memcpy_at _ (before_point value) padded e2
    ∙ length-fill_zero _ buf e1

length-overpunch : (s : Bytes) {b : Bytes} → overpunch s ≡ some b → length b ≡ length s
unfolding overpunch
length-overpunch s {b} h =
    let (i, _, h1) = >>=-eq-some (last_index (length (cstr s))) _ h in
    let (last, _, h2) = >>=-eq-some (get_elem? s i) _ h1 in
    let (code, _, h3) = >>=-eq-some (negative_code last) _ h2 in
    length-memcpy_at (pos i) (code ∷ []) s h3

length-zeroed : (n : ℕ) → length (zeroed n) ≡ n
length-zeroed n = length-replicate n 0

length-apply_sign :
    (negative : Bool) (s : Bytes) {b : Bytes} → apply_sign negative s ≡ some b → length b ≡ length s
unfolding apply_sign
length-apply_sign true s h = length-overpunch s h
length-apply_sign false s h = ground arith

length-take_le :
    (n : ℕ) (s : Bytes) {b : Bytes} → n ≤ length s → some (take n s) ≡ some b → length b ≡ n
length-take_le n s h e = ground (arith, length-take n s)

store_tc-bound :
    (width : ℕ) (power : ℤ) (s : Bytes) {b : Bytes}
    → store signed_number_tc width power s ≡ some b
    → length b ≡ width + 1
unfolding store
store_tc-bound width power s {b} h =
    let (negative, value) = split_sign s in
    let (final, e1, h1) = >>=-eq-some (place 0 width power value (zeroed (width + 1))) _ h in
    let (result, e2, h2) = >>=-eq-some (apply_sign negative final) _ h1 in
    length-take_le (width + 1) result
      (omega (
        arith,
        length-place 0 width power value (zeroed (width + 1)) e1,
        length-apply_sign negative final e2,
        length-zeroed (width + 1),
      ))
      h2

store_ls-bound :
    (width : ℕ) (power : ℤ) (s : Bytes) {b : Bytes}
    → store signed_number_ls width power s ≡ some b
    → length b ≡ width + 1
unfolding store
store_ls-bound width power s {b} h =
    let (negative, value) = split_sign s in
    let first : ℕ = if negative then b'-' else b'+' in
    let (final, e, h1) = >>=-eq-some (place 1 width power value (first ∷ zeroed (width + 1))) _ h in
    length-take_le (width + 1) final
      (omega (
        arith,
        length-place 1 width power value (first ∷ zeroed (width + 1)) e,
        length-zeroed (width + 1),
      ))
      h1

store_unsigned-bound :
    (width : ℕ) (power : ℤ) (s : Bytes) {b : Bytes}
    → store unsigned_number width power s ≡ some b
    → length b ≡ width
unfolding store
store_unsigned-bound width power s {b} h =
    let (final, e, h1) = >>=-eq-some (place 0 width power s (zeroed (width + 1))) _ h in
    length-take_le width final
      (omega
        (arith, length-place 0 width power s (zeroed (width + 1)) e, length-zeroed (width + 1)))
      h1

store_unsigned_pd-bound :
    (width : ℕ) (power : ℤ) (s : Bytes) {b : Bytes}
    → store unsigned_number_pd width power s ≡ some b
    → length b ≡ packed_size width
unfolding store
store_unsigned_pd-bound width power s {b} h =
    let (pre_final, _, h1) = >>=-eq-some (place 0 width power s (zeroed (width + 1))) _ h in
    length-pack (packed_size width) (skip_first width) 0x0F pre_final h1

store_signed_pd-bound :
    (width : ℕ) (power : ℤ) (s : Bytes) {b : Bytes}
    → store signed_number_pd width power s ≡ some b
    → length b ≡ packed_size width
unfolding store
store_signed_pd-bound width power s {b} h =
    let (negative, value) = split_sign s in
    let (pre_final, _, h1) =
      >>=-eq-some (place 0 width power value (zeroed (packed_size width + 1))) _ h in
    length-pack (packed_size width) (skip_first width) (if negative then 0x0D else 0x0C) pre_final
      h1

some-length : (s : Bytes) {b : Bytes} → some s ≡ some b → length b ≡ length s
some-length s h = ground arith

-- Whatever the value, a store that stays within the code's own blocks changes at most
-- `stored_size` bytes of the program's storage.
pub store-bound :
    (t : FieldType) (width : ℕ) (power : ℤ) (s : Bytes) {b : Bytes}
    → store t width power s ≡ some b
    → length b ≤ stored_size t width
unfolding store
store-bound unsigned_number width power s h = omega (arith, store_unsigned-bound width power s h)
store-bound signed_number_tc width power s h = omega (arith, store_tc-bound width power s h)
store-bound signed_number_ls width power s h = omega (arith, store_ls-bound width power s h)
store-bound unsigned_number_pd width power s h =
    omega (arith, store_unsigned_pd-bound width power s h)
store-bound signed_number_pd width power s h = omega (arith, store_signed_pd-bound width power s h)
store-bound alphanumeric width power s h =
    ground (arith, length-store_alphanumeric width s, some-length (store_alphanumeric width s) h)
store-bound japanese width power s h =
    ground (arith, length-store_japanese width s, some-length (store_japanese width s) h)
store-bound alphanumeric_varying width power s h =
    ground (arith, length-store_varying width s, some-length (store_varying width s) h)
store-bound japanese_varying width power s h =
    ground
      (arith, length-store_japanese_varying width s, some-length (store_japanese_varying width s) h)
store-bound other width power s h = ground (arith, some-length [] h)
