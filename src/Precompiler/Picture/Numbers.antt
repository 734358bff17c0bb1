-- ===== src/Precompiler/Picture/Numbers.antt =====
-- The pictures of numbers: digits, with a sign and decimals.
use cobol.Prelude.{
  All, Bool-cases, Bytes, [], arith, false, inl, inr, length, length-append, ltb, refl, some, true,
  ℕ, ◌*◌, ◌++◌, ◌+◌, ◌-◌, ◌<◌, ◌==◌, ◌∷◌, ◌≡◌, ◌≤◌,
}
use cobol.Precompiler.Fields.{CbField}
use cobol.Precompiler.Picture.{
  Pic, no_pic, counting, zeros, number, count_byte, is_digit, number_byte, read_byte, read_end_of,
  read_picture, build_picture,
}

-- The value of digits behind those of `i`.
unfoldable pub value : ℕ → Bytes → ℕ
value i [] = i
value i (d ∷ ds) = value (i * 10 + (d - 48)) ds

abbrev pub AreDigits : Bytes → Type 0
AreDigits = All (λ d. is_digit d ≡ true)

digit_number_byte :
    (d c n i a : ℕ)
    → is_digit d ≡ true
    → a < 9
    → number_byte d c n i a ≡ some (number c n (i * 10 + (d - 48)) (a + 1))
unfolding number_byte
digit_number_byte d c n i a h l = ground arith

number_digits :
    (ds rest : Bytes) (c n i a : ℕ) (p : Pic)
    → AreDigits ds
    → a + length ds ≤ 9
    → 0 < value i ds
    → read_picture (ds ++ (b')' ∷ rest)) (number c n i a) p
      ≡ read_picture rest (counting c (n + value i ds - 1)) p
unfolding value read_picture
number_digits [] rest c n i a p h l v = let e : (i == 0) ≡ false = ground (arith, v) in rw e refl
number_digits (d ∷ ds) rest c n i a p (h, hs) l v =
    rw (digit_number_byte d c n i a h (omega (arith, l)))
      (number_digits ds rest c n (i * 10 + (d - 48)) (a + 1) p hs (omega (arith, l)) v)

zeros_digits :
    (ds rest : Bytes) (c n : ℕ) (p : Pic)
    → AreDigits ds
    → length ds ≤ 9
    → 0 < value 0 ds
    → read_picture (ds ++ (b')' ∷ rest)) (zeros c n) p
      ≡ read_picture rest (counting c (n + value 0 ds - 1)) p
unfolding value read_picture
zeros_digits [] rest c n p h l v = ground (arith, v)
zeros_digits (d ∷ ds) rest c n p (h, hs) l v = elim (Bool-cases (d == b'0')) [
  | inl e ↦
      let k : 0 * 10 + (d - 48) ≡ 0 = ground (arith, e) in
      rw (e, k) (zeros_digits ds rest c n p hs (omega (arith, l)) (rw (← k) v))
  | inr e ↦
      rw (e, digit_number_byte d c n 0 0 h (omega arith))
        (number_digits ds rest c n (0 * 10 + (d - 48)) (0 + 1) p hs (omega (arith, l)) v)
]

-- The picture S9(ds)V9(es).
abbrev pub decimal_picture : Bytes → Bytes → Bytes
decimal_picture ds es =
    b'S' ∷ b'9' ∷ b'(' ∷ (ds ++ (b')' ∷ b'V' ∷ b'9' ∷ b'(' ∷ (es ++ (b')' ∷ []))))

-- Behind the sign, and behind the point after `n` digits.
abbrev signed_pic : Pic
signed_pic = record no_pic { numeric = true; s_count = 1 }

abbrev pointed_pic : ℕ → Pic
pointed_pic n = record signed_pic { v_count = 1; idx = 8; digits = 0 + n }

-- A field with the picture S9(ds)V9(es), where the numbers ds and es have at most nine digits and are
-- not 0, is a signed number of ds + es digits, es of them decimals; its other properties stay.
pub build_picture-decimal :
    (ds es : Bytes) (f : CbField)
    → AreDigits ds
    → AreDigits es
    → length ds ≤ 9
    → length es ≤ 9
    → 0 < value 0 ds
    → 0 < value 0 es
    → build_picture (decimal_picture ds es) f
      ≡ some (record f {
        picnsize = value 0 ds + value 0 es;
        scale = value 0 es;
        have_sign = true;
        pictype = 2;
      })
unfolding build_picture read_picture read_byte count_byte read_end_of
build_picture-decimal ds es f hd he ld le vd ve =
    let after_point = b'V' ∷ b'9' ∷ b'(' ∷ (es ++ (b')' ∷ [])) in
    let fits : ltb 50 (length (decimal_picture ds es)) ≡ false =
      ground (arith, length-append ds (b')' ∷ after_point), length-append es (b')' ∷ []), ld, le) in
    let whole = zeros_digits ds after_point b'9' 1 (signed_pic) hd ld vd in
    let part = zeros_digits es [] b'9' 1 (pointed_pic (1 + value 0 ds - 1)) he le ve in
    let k : 0 + (1 + value 0 ds - 1) + (1 + value 0 es - 1) ≡ value 0 ds + value 0 es =
      omega arith in
    let l : 0 + (1 + value 0 es - 1) ≡ value 0 es = omega arith in rw (fits, whole, part, k, l) refl
