-- ===== src/Field/RoundTrip/Display.antt =====
-- Round trips of the zoned types: a number of dblib/ocesql.c's result goes into a DISPLAY field by
-- `create_coboldata`, and comes back as a parameter by `create_realdata`.
use cobol.Prelude.{
  Bool, Bytes, [], ap, arith, false, length, length-append, neg, some, take, true, ℕ, ◌++◌, ◌+◌,
  ◌-◌, ◌∙◌, ◌∷◌, ◌≡◌,
}
use cobol.Field.Buffer.{zeroed}
use cobol.Field.Store.{unsigned_number, signed_number_tc, store}
use cobol.Field.Load.{load, point}
use cobol.Field.Digits.{cstr-Digits, take_left, take_all}
use cobol.Field.RoundTrip.Numeral.{
  numeral, with_sign, sign_byte, Fits, padded, field_digits, length-padded, length-field_digits,
  field_digits-Digits, place-numeral, point-append, split_sign-signed,
}
use cobol.Field.RoundTrip.Overpunch.{overpunch-split_last, split_last-Digits}

module _ (width : ℕ) (whole frac : Bytes) (f : Fits width whole frac) (rest : Bytes) where
  -- A number that fits an unsigned field is stored in exactly the field's bytes, and is read back
  -- with the field's leading zeros, its fraction unchanged.
  pub load-store_unsigned :
      (b : Bytes) × (store unsigned_number width (neg (length frac)) (numeral whole frac) ≡ some b)
      × (length b ≡ width)
      × (load unsigned_number width (neg (length frac)) (b ++ rest)
          ≡ some (numeral (padded width whole frac) frac))
  unfolding store load
  load-store_unsigned =
      let d = field_digits width whole frac in
      let l = length-field_digits width whole frac f in
      (
        d,
        rw (place-numeral width whole frac (width + 1) f (omega arith))
            (ap some (take_left d (zeroed (width + 1 - width)) width l)),
        l,
        rw (take_left d rest width l, cstr-Digits d (field_digits-Digits width whole frac f))
            (ap some (
              point-append (padded width whole frac) frac width
                (omega (arith, length-padded width whole frac f.room, f.before))
                (omega (arith, length-padded width whole frac f.room, f.before)))),
      )

  parameter :
      (c : ℕ)
      → point (width + 1) (neg (length frac)) (c ∷ field_digits width whole frac)
        ≡ numeral (c ∷ padded width whole frac) frac
  parameter c =
      point-append (c ∷ padded width whole frac) frac (width + 1) (omega arith)
        (omega (arith, length-padded width whole frac f.room, f.before))

  -- A number that fits a field with a trailing combined sign is stored in the field's bytes and one
  -- NUL behind them, and is read back with its sign and the field's leading zeros.
  pub load-store_signed_tc :
      (negative : Bool)
      → (b : Bytes) × (store signed_number_tc width
            (neg (length frac))
            (with_sign negative (numeral whole frac))
          ≡ some (b ++ 0 ∷ []))
        × (length b ≡ width)
        × (load signed_number_tc width (neg (length frac)) (b ++ rest)
            ≡ some (numeral (sign_byte negative ∷ padded width whole frac) frac))
  unfolding store load
  load-store_signed_tc false =
      let d = field_digits width whole frac in
      let l = length-field_digits width whole frac f in
      let ds = field_digits-Digits width whole frac f in
      let one : width + 1 - width ≡ 1 = omega arith in
      (
        d,
        rw
            (
              split_sign-signed false whole frac f.whole_digits,
              place-numeral width whole frac (width + 1) f (omega arith),
              one,
            )
            (ap some
              (take_all (d ++ 0 ∷ []) (width + 1) (omega (arith, length-append d (0 ∷ []), l)))),
        l,
        rw (take_left d rest width l, split_last-Digits d ds, cstr-Digits d ds)
            (ap some (parameter b'+')),
      )
  load-store_signed_tc true =
      let d = field_digits width whole frac in
      let l = length-field_digits width whole frac f in
      let ds = field_digits-Digits width whole frac f in
      let left = width + 1 - width in
      let one : left ≡ 1 = omega arith in
      let (t, e, lt, last) = overpunch-split_last d left ds (omega (arith, l, f.before)) in
      (
        t,
        rw (place-numeral width whole frac (width + 1) f (omega arith), e)
            (ap (λ (k : ℕ). some (take (width + 1) (t ++ zeroed k))) one
              ∙ ap some (
                  take_all (t ++ 0 ∷ []) (width + 1)
                    (omega (arith, length-append t (0 ∷ []), l, lt)))),
        lt ∙ l,
        rw (take_left t rest width (lt ∙ l), last, cstr-Digits d ds) (ap some (parameter b'-')),
      )
