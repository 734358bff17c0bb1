-- ===== src/Field/RoundTrip/PackedDecimal.antt =====
-- Round trips of the packed types.
use cobol.Prelude.{
  Bool, Bytes, ap, arith, if◌then◌else◌, length, neg, some, ℕ, ◌++◌, ◌+◌, ◌-◌, ◌<◌, ◌==◌, ◌∷◌, ◌≡◌,
  ◌≤◌,
}
use cobol.Field.Buffer.{zeroed}
use cobol.Field.Packed.{packed_size, pack-Packs}
use cobol.Field.Store.{unsigned_number_pd, signed_number_pd, store}
use cobol.Field.Load.{load}
use cobol.Field.Digits.{take_left}
use cobol.Field.RoundTrip.Numeral.{
  numeral, with_sign, sign_byte, Fits, padded, field_digits, length-padded, length-field_digits,
  field_digits-Digits, place-numeral, point-append, split_sign-signed,
}

module _ (width : ℕ) (whole frac : Bytes) (f : Fits width whole frac) (rest : Bytes) where
  -- A number that fits an unsigned packed field is stored in the field's bytes, and is read back
  -- with the field's leading zeros.
  pub load-store_unsigned_pd :
      (b : Bytes) × (store unsigned_number_pd width (neg (length frac)) (numeral whole frac)
        ≡ some b)
      × (length b ≡ packed_size width)
      × (load unsigned_number_pd width (neg (length frac)) (b ++ rest)
          ≡ some (numeral (padded width whole frac) frac))
  unfolding store load
  load-store_unsigned_pd =
      let d = field_digits width whole frac in
      let l = length-field_digits width whole frac f in
      let ds = field_digits-Digits width whole frac f in
      let (b, p, u, n) = pack-Packs width d (zeroed (width + 1 - width)) 0x0F l (omega arith) ds in
      (
        b,
        rw (place-numeral width whole frac (width + 1) f (omega arith)) p,
        n,
        rw (take_left b rest (packed_size width) n, u)
            (ap some (
              point-append (padded width whole frac) frac width
                (omega (arith, length-padded width whole frac f.room, f.before))
                (omega (arith, length-padded width whole frac f.room, f.before)))),
      )

  -- A number that fits a signed packed field of at most four digits is stored in the field's bytes,
  -- and is read back with its sign and the field's leading zeros.
  pub load-store_signed_pd :
      width ≤ 4
      → (negative : Bool)
      → (b : Bytes) × (store signed_number_pd width
            (neg (length frac))
            (with_sign negative (numeral whole frac))
          ≡ some b)
        × (length b ≡ packed_size width)
        × (load signed_number_pd width (neg (length frac)) (b ++ rest)
            ≡ some (numeral (sign_byte negative ∷ padded width whole frac) frac))
  unfolding store load
  load-store_signed_pd small negative =
      let d = field_digits width whole frac in
      let l = length-field_digits width whole frac f in
      let ds = field_digits-Digits width whole frac f in
      let size = packed_size width + 1 in
      let sign : ℕ = if negative then 0x0D else 0x0C in
      let low : sign < 16 = ground arith in
      let test : (if sign == 0x0C then b'+' else b'-') ≡ sign_byte negative = ground arith in
      let (b, p, u, n) = pack-Packs width d (zeroed (size - width)) sign l low ds in
      (
        b,
        rw
            (
              split_sign-signed negative whole frac f.whole_digits,
              place-numeral width whole frac size f (omega arith),
            )
            p,
        n,
        rw (take_left b rest (packed_size width) n, u, test)
            (ap some (
              point-append (sign_byte negative ∷ padded width whole frac) frac (width + 1)
                (omega arith) (omega (arith, length-padded width whole frac f.room, f.before)))),
      )
