-- ===== src/Field/RoundTrip/Numeral.antt =====
-- Numbers as a server prints them, and how they stand in a field that they fit.
use cobol.Prelude.{
  All, All-append, Bool, Bytes, [], ap, append-nil, append_assoc, arith, false, length,
  length-append, neg, pos, refl, some, sym, true, ℕ, ◌++◌, ◌+◌, ◌-◌, ◌<◌, ◌∷◌, ◌≡◌, ◌≤◌,
}
use cobol.Field.Buffer.{zeros, zeroed}
use cobol.Field.Place.{place}
use cobol.Field.Place.Laws.{place_integer, place_decimal, length-zeros, fill_zero-none}
use cobol.Field.Packed.{IsDigit}
use cobol.Field.Store.{split_sign}
use cobol.Field.Load.{point}
use cobol.Field.Digits.{Digits-Lacks, zeros-Digits, insert_decimal_point-append}

-- The text of a number: a point stands before the fraction, if there is one.
abbrev pub numeral : Bytes → Bytes → Bytes
numeral whole [] = whole
numeral whole (c ∷ frac) = whole ++ b'.' ∷ c ∷ frac

-- A minus before the text of a negative number.
abbrev pub with_sign : Bool → Bytes → Bytes
with_sign true s = b'-' ∷ s
with_sign false s = s

-- The sign that a query parameter begins with.
abbrev pub sign_byte : Bool → ℕ
sign_byte true = b'-'
sign_byte false = b'+'

-- The number fits a field of `width` digits that has as many decimals as the fraction, and at least
-- one digit before them.
pub record Fits (width : ℕ) (whole frac : Bytes) : Type 0 where
  pub whole_digits : All IsDigit whole
  pub frac_digits : All IsDigit frac
  pub room : length whole + length frac ≤ width
  pub before : length frac < width

-- The integer part with the leading zeros of the field.
abbrev pub padded : ℕ → Bytes → Bytes → Bytes
padded width whole frac = zeros (width - length whole - length frac) ++ whole

-- All digits of the field.
abbrev pub field_digits : ℕ → Bytes → Bytes → Bytes
field_digits width whole frac = padded width whole frac ++ frac

regroup :
    {m : ℕ} (z : ℕ) (whole frac rest : Bytes)
    → m ≡ z
    → zeros z ++ (whole ++ (frac ++ rest)) ≡ ((zeros m ++ whole) ++ frac) ++ rest
regroup z whole frac rest e =
    rw (e, append_assoc (zeros z ++ whole) frac rest)
      (sym (append_assoc (zeros z) whole (frac ++ rest)))

-- Text of a parameter, with the point put back.
pub point-append :
    (w f : Bytes) (size : ℕ)
    → 0 < length w
    → length w + length f ≤ size
    → point size (neg (length f)) (w ++ f) ≡ numeral w f
unfolding point
point-append w [] size h room = append-nil w
point-append w (c ∷ f) size h room =
    insert_decimal_point-append w (c ∷ f) (size + 1) (length (c ∷ f)) refl (omega arith) h
      (omega arith)

module _ (width : ℕ) where
  pub length-padded :
      (whole frac : Bytes)
      → length whole + length frac ≤ width
      → length (padded width whole frac) ≡ width - length frac
  length-padded whole frac h =
      let z = width - length whole - length frac in
      omega (arith, length-append (zeros z) whole, length-zeros z)

  pub length-field_digits :
      (whole frac : Bytes) → Fits width whole frac → length (field_digits width whole frac) ≡ width
  length-field_digits whole frac f = omega (
    arith,
    length-append (padded width whole frac) frac,
    length-padded whole frac f.room,
    f.before,
  )

  pub field_digits-Digits :
      (whole frac : Bytes) → Fits width whole frac → All IsDigit (field_digits width whole frac)
  field_digits-Digits whole frac f =
      let z = width - length whole - length frac in
      All-append IsDigit (padded width whole frac) frac
        (All-append IsDigit (zeros z) whole (zeros-Digits z) f.whole_digits) f.frac_digits

  -- `place` puts the digits of the field at the start of the block.
  pub place-numeral :
      (whole frac : Bytes) (size : ℕ)
      → Fits width whole frac
      → width ≤ size
      → place 0 width (neg (length frac)) (numeral whole frac) (zeroed size)
        ≡ some (field_digits width whole frac ++ zeroed (size - width))
  place-numeral whole [] size f h =
      let e : width - length whole - 0 ≡ width - length whole = omega arith in
      rw
        (place_integer width size whole (Digits-Lacks whole f.whole_digits) (omega (arith, f.room))
          h)
        (ap some (regroup (width - length whole) whole [] (zeroed (size - width)) e))
  place-numeral whole (c ∷ frac) size f h =
      let p = length (c ∷ frac) in
      let z = width - length whole - p in
      let none_left : pos (p - p) ≡ pos 0 = ap pos (omega arith) in
      let rest : size - z - length whole - p ≡ size - width = omega (arith, f.room) in
      rw
        (
          place_decimal width size p whole (c ∷ frac) (Digits-Lacks whole f.whole_digits)
              (omega arith) (omega arith) (omega (arith, f.room)) h,
          none_left,
          rest,
          fill_zero-none,
        )
        (ap some (regroup z whole (c ∷ frac) (zeroed (size - width)) refl))

-- The minus is split off again; digits begin with none.
pub split_sign-signed :
    (negative : Bool) (whole frac : Bytes)
    → All IsDigit whole
    → split_sign (with_sign negative (numeral whole frac)) ≡ (negative, numeral whole frac)
unfolding split_sign
split_sign-signed true whole frac h = refl
split_sign-signed false [] [] h = refl
split_sign-signed false [] (c ∷ frac) h = refl
split_sign-signed false (c ∷ whole) [] h = ground arith
split_sign-signed false (c ∷ whole) (d ∷ frac) h = ground arith
