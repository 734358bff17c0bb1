-- ===== src/Field/Text.antt =====
-- Texts in fields: the alphanumeric, national and varying types of dblib/ocesql.c.
use cobol.Prelude.{
  All, All-append, Bool-cases, Bytes, [], ap, append_assoc, arith, drop, inl, inr, leb, leb→le,
  length, length-append, length-drop, length-replicate, length-take, ltb, refl, some, suc, sym,
  take, true, zero, ℕ, ℤ, ◌*◌, ◌++◌, ◌+◌, ◌/◌, ◌<◌, ◌^◌, ◌∙◌, ◌∷◌, ◌≡◌, ◌≢◌, ◌≤◌,
}
use cobol.Util.{cstr}
use cobol.Util.Names.{cstr_lem}
use cobol.Field.Store.{
  alphanumeric, alphanumeric_varying, store, over, blanks, wide_spaces, varchar_header,
  store_alphanumeric, store_japanese, store_varying, store_japanese_varying,
}
use cobol.Field.Load.{load_varying, load, varchar_length}
use cobol.Field.Digits.{take_left, take_all}

length-wide_spaces : (n : ℕ) → length (wide_spaces n) ≡ n * 2
unfolding wide_spaces
length-wide_spaces zero = refl
length-wide_spaces (suc n) = omega (arith, length-wide_spaces n)

length-over : (s buf : Bytes) → length s ≤ length buf → length (over s buf) ≡ length buf
length-over s buf h =
    omega (arith, length-append s (drop (length s) buf), length-drop (length s) buf)

length-blanks : (n : ℕ) → length (blanks n) ≡ n
length-blanks n = length-replicate n b' '

pub length-store_alphanumeric :
    (width : ℕ) (s : Bytes) → length (store_alphanumeric width s) ≡ width
unfolding store_alphanumeric
length-store_alphanumeric width s =
    ground (arith, length-take width s, length-over s (blanks width), length-blanks width)

pub length-store_japanese : (width : ℕ) (s : Bytes) → length (store_japanese width s) ≡ width * 2
unfolding store_japanese
length-store_japanese width s =
    ground (
      arith,
      length-take (width * 2) s,
      length-over s (wide_spaces width),
      length-wide_spaces width,
    )

pub length-store_varying : (width : ℕ) (s : Bytes) → length (store_varying width s) ≡ width + 4
unfolding store_varying varchar_header
length-store_varying width s =
    ground (arith, length-take width s, length-over s (blanks width), length-blanks width)

length-short_japanese :
    (width : ℕ) (s : Bytes)
    → length s < width * 2
    → length (over (take (length s / 2 * 2) s) (wide_spaces width)) ≡ width * 2
length-short_japanese width s h =
    let t = take (length s / 2 * 2) s in
    let l : length t ≤ length s = omega (arith, length-take (length s / 2 * 2) s) in
    omega (arith, length-over t (wide_spaces width), length-wide_spaces width)

four : (n : ℕ) → length (varchar_header n) ≡ 4
unfolding varchar_header
four n = refl

length-header : (n : ℕ) (s : Bytes) → length (varchar_header n ++ s) ≡ length s + 4
unfolding varchar_header
length-header n s = omega arith

pub length-store_japanese_varying :
    (width : ℕ) (s : Bytes) → length (store_japanese_varying width s) ≤ width * 2 + 4
unfolding store_japanese_varying
length-store_japanese_varying width s = elim (Bool-cases (leb (width * 2) (length s))) [
  | inl e ↦ rw e (
      let t = take (width * 2) s in
      omega (
        arith,
        length-append t (drop (length t) (varchar_header width)),
        length-drop (length t) (varchar_header width),
        four width,
        length-take (width * 2) s,
      ))
  | inr e ↦ rw e (
      omega (
        arith,
        length-header (length s / 2) (over (take (length s / 2 * 2) s) (wide_spaces width)),
        length-short_japanese width s (ground arith),
      ))
]

take-blanks : (n m k : ℕ) → n ≤ m → n ≤ k → take n (blanks m) ≡ take n (blanks k)
take-blanks zero m k h h' = refl
take-blanks (suc n) zero k h h' = absurd (omega arith)
take-blanks (suc n) (suc m) zero h h' = absurd (omega arith)
take-blanks (suc n) (suc m) (suc k) h h' =
    ap (◌∷◌ b' ') (take-blanks n m k (omega arith) (omega arith))

take-append-blanks :
    (s : Bytes) (n m k : ℕ)
    → n ≤ length s + m
    → n ≤ length s + k
    → take n (s ++ blanks m) ≡ take n (s ++ blanks k)
take-append-blanks [] n m k h h' = take-blanks n m k (omega arith) (omega arith)
take-append-blanks (c ∷ s) zero m k h h' = refl
take-append-blanks (c ∷ s) (suc n) m k h h' =
    ap (◌∷◌ c) (take-append-blanks s n m k (omega arith) (omega arith))

-- `over` a run of spaces is the padding of the text on the right.
over-blanks :
    (s : Bytes) (width : ℕ)
    → length s ≤ width
    → over s (blanks width) ≡ take width (s ++ blanks width)
over-blanks [] width h = sym (take_all (blanks width) width (length-blanks width))
over-blanks (c ∷ s) zero h = absurd (omega arith)
over-blanks (c ∷ s) (suc n) h =
    ap (◌∷◌ c)
      (over-blanks s n (omega arith) ∙ take-append-blanks s n n (suc n) (omega arith) (omega arith))

take-append_le : (s t : Bytes) (n : ℕ) → n ≤ length s → take n (s ++ t) ≡ take n s
take-append_le s t zero h = refl
take-append_le [] t (suc n) h = absurd (omega arith)
take-append_le (c ∷ s) t (suc n) h = ap (◌∷◌ c) (take-append_le s t n (omega arith))

take-ne-zero : (s : Bytes) (n : ℕ) → All (λ c. c ≢ 0) s → All (λ c. c ≢ 0) (take n s)
take-ne-zero s zero h = tt
take-ne-zero [] (suc n) h = tt
take-ne-zero (c ∷ s) (suc n) (hc, hs) = (hc, take-ne-zero s n hs)

blanks-ne-zero : (n : ℕ) → All (λ c. c ≢ 0) (blanks n)
blanks-ne-zero zero = tt
blanks-ne-zero (suc n) = (λ e. absurd (omega arith), blanks-ne-zero n)

take_long : (s : Bytes) (n : ℕ) → length s ≤ n → take n s ≡ s
take_long [] zero h = refl
take_long [] (suc n) h = refl
take_long (c ∷ s) zero h = absurd (omega arith)
take_long (c ∷ s) (suc n) h = ap (◌∷◌ c) (take_long s n (omega arith))

varchar_length-header :
    (n : ℕ) (s : Bytes) → n < 2 ^ 31 → varchar_length (varchar_header n ++ s) ≡ n
unfolding varchar_length varchar_header
varchar_length-header n s h = omega arith

load_varying-header :
    (n : ℕ) (t tail : Bytes)
    → n < 2 ^ 31
    → length t ≡ n
    → All (λ c. c ≢ 0) t
    → load_varying 1 (varchar_header n ++ (t ++ tail)) ≡ some t
unfolding load_varying varchar_header
load_varying-header n t tail h e clean =
    let one : n * 1 ≡ n = omega arith in
    let small : ltb n (2 ^ 31) ≡ true = ground arith in
    rw (varchar_length-header n (t ++ tail) h, one, small)
      (ap some (ap cstr (take_left t tail n e) ∙ cstr_lem t clean))

module _ (width : ℕ) (power : ℤ) (s : Bytes) (h : All (λ c. c ≢ 0) s) (rest : Bytes) where
  -- A text is stored cut or padded with spaces to the width of an alphanumeric field, and is read
  -- back so.
  pub load-store_alphanumeric :
      let field = take width (s ++ blanks width) in
      (store alphanumeric width power s ≡ some field)
      × (load alphanumeric width power (field ++ rest) ≡ some field)
  unfolding store load store_alphanumeric
  load-store_alphanumeric =
      let field = take width (s ++ blanks width) in
      let full : length field ≡ width = omega (
        arith,
        length-take width (s ++ blanks width),
        length-append s (blanks width),
        length-blanks width,
      ) in
      let clean =
        take-ne-zero (s ++ blanks width) width
          (All-append (λ c. c ≢ 0) s (blanks width) h (blanks-ne-zero width)) in
      (
        ground (arith, over-blanks s width, take-append_le s (blanks width) width),
        ap some (ap cstr (take_left field rest width full) ∙ cstr_lem field clean),
      )

  -- A text is read back from a varying field without padding, cut to the field's width. The width
  -- is below 2 ^ 31, as every `int` is.
  pub load-store_varying :
      width < 2 ^ 31
      → (b : Bytes) × (store alphanumeric_varying width power s ≡ some b)
        × (load alphanumeric_varying width power (b ++ rest) ≡ some (take width s))
  unfolding store load store_varying
  load-store_varying small = elim (Bool-cases (leb width (length s))) [
    | inl e ↦
        let t = take width s in
        let full : length t ≡ width =
          omega (arith, length-take width s, leb→le width (length s) e) in
        (
          varchar_header width ++ t,
          rw e,
          rw (append_assoc (varchar_header width) t rest)
              (load_varying-header width t rest small full (take-ne-zero s width h)),
        )
    | inr e ↦
        let pad = drop (length s) (blanks width) in
        (
          varchar_header (length s) ++ (s ++ pad),
          rw e,
          rw (append_assoc (varchar_header (length s)) (s ++ pad) rest, append_assoc s pad rest)
              (load_varying-header (length s) s (pad ++ rest) (ground arith) refl h
                ∙ ap some (sym (take_long s width (ground arith)))),
        )
  ]
