-- ===== src/Field/Misplaced.antt =====
-- Where the numeric cases of `create_coboldata` in dblib/ocesql.c go wrong: the zeros of a short
-- fraction, and the block of a signed packed number.
use cobol.Prelude.{
  All, Bool, Bool-cases, Bytes, Lacks, [], ap, append_assoc, arith, drop, inl, inr, leb, leb→le,
  length, length-append, length-drop, length-replicate, neg, none, pos, refl, some, suc, zero, ℕ,
  ◌++◌, ◌+◌, ◌-◌, ◌<◌, ◌∷◌, ◌≡◌, ◌≤◌,
}
use cobol.Field.Buffer.{zeros, zeroed, memcpy_at, fill_zero}
use cobol.Field.Packed.{IsDigit, packed_size}
use cobol.Field.Place.{place}
use cobol.Field.Place.Laws.{
  before_point_lem, fillzero_whole, fill_zero-zeroed, length-zeros, behind_zeros, place_decimal,
}
use cobol.Field.Store.{unsigned_number, signed_number_pd, store}
use cobol.Field.Digits.{Digits-Lacks, take_left}
use cobol.Field.RoundTrip.Numeral.{with_sign, split_sign-signed}

drop_le : (k : ℕ) (s t : Bytes) → k ≤ length s → drop k (s ++ t) ≡ drop k s ++ t
drop_le zero s t h = refl
drop_le (suc k) [] t h = absurd (omega arith)
drop_le (suc k) (c ∷ s) t h = drop_le k s t (omega arith)

fill_zero-over :
    (k : ℕ) (s t : Bytes)
    → k ≤ length s
    → fill_zero (pos k) (s ++ t) ≡ some (zeros k ++ (drop k s ++ t))
unfolding fill_zero memcpy_at
fill_zero-over k s t h = ground (arith, length-zeros k, length-append s t, drop_le k s t h)

zeroed-append_one : (k : ℕ) → zeroed (k + 1) ≡ zeroed k ++ 0 ∷ []
zeroed-append_one zero = refl
zeroed-append_one (suc k) =
    let e : suc k + 1 ≡ suc (k + 1) = omega arith in rw e (ap (◌∷◌ 0) (zeroed-append_one k))

-- A fraction with `k` digits fewer than the field has decimals: the `k` zeros that should follow it
-- are written over the first `k` digits of the number, and the field ends in `k` NULs.
pub store_short_fraction :
    (width p k : ℕ) (ds fs : Bytes)
    → All IsDigit ds
    → 0 < p
    → p ≡ length fs + k
    → length ds + p ≤ width
    → k + p ≤ width + length fs
    → let number = zeros (width - length ds - p) ++ (ds ++ fs) in
      store unsigned_number width (neg p) (ds ++ b'.' ∷ fs)
      ≡ some (zeros k ++ (drop k number ++ zeroed k))
unfolding store
store_short_fraction width p k ds fs h some_places e fits enough =
    let z = width - length ds - p in
    let number = zeros z ++ (ds ++ fs) in
    let missing : p - length fs ≡ k = omega arith in
    let left : width + 1 - z - length ds - length fs ≡ k + 1 = omega arith in
    let l : length number ≡ z + (length ds + length fs) =
      omega (arith, length-append (zeros z) (ds ++ fs), length-append ds fs, length-zeros z) in
    let k_fits : k ≤ length number = omega arith in
    let result = zeros k ++ (drop k number ++ zeroed k) in
    let full : length result ≡ width = omega (
      arith,
      length-append (zeros k) (drop k number ++ zeroed k),
      length-append (drop k number) (zeroed k),
      length-drop k number,
      length-zeros k,
      length-replicate {A = ℕ} k 0,
    ) in
    rw
      (
        place_decimal width (width + 1) p ds fs (Digits-Lacks ds h) some_places (omega arith) fits
            (omega arith),
        missing,
        left,
        ← append_assoc ds fs (zeroed (k + 1)),
        ← append_assoc (zeros z) (ds ++ fs) (zeroed (k + 1)),
        fill_zero-over k number (zeroed (k + 1)) k_fits,
        zeroed-append_one k,
        ← append_assoc (drop k number) (zeroed k) (0 ∷ []),
        ← append_assoc (zeros k) (drop k number ++ zeroed k) (0 ∷ []),
      )
      (ap some (take_left result (0 ∷ []) width full))

fill_zero_fails : (z n : ℕ) → n < z → fill_zero (pos z) (zeroed n) ≡ none
unfolding fill_zero memcpy_at
fill_zero_fails z n h = ground (arith, length-zeros z, length-replicate {A = ℕ} n 0)

memcpy_at_fails :
    (p s : Bytes) (n : ℕ) → n < length s → memcpy_at (pos (length p)) s (p ++ zeroed n) ≡ none
unfolding memcpy_at
memcpy_at_fails p s n h = ground (arith, length-append p (zeroed n), length-replicate {A = ℕ} n 0)

place_fails :
    (width size : ℕ) (ds : Bytes)
    → Lacks b'.' ds
    → length ds ≤ width
    → size < width
    → place 0 width (pos 0) ds (zeroed size) ≡ none
unfolding place
place_fails width size ds h fits small =
    let z = width - length ds in
    let e = fillzero_whole width (length ds) fits in
    elim (Bool-cases (leb z size)) [
      | inl t ↦ rw (
        before_point_lem ds h,
        e,
        fill_zero-zeroed z size (leb→le z size t),
        behind_zeros z,
        memcpy_at_fails (zeros z) ds (size - z) (omega (arith, leb→le z size t)),
      )
      | inr t ↦ rw (before_point_lem ds h, e, fill_zero_fails z size (ground arith))
    ]

-- Every integer for a signed packed field of five or more digits is written past the end of the
-- block `pre_final`, which has room for the packed bytes only.
pub store_signed_pd_overflow :
    (width : ℕ) (ds : Bytes) (negative : Bool)
    → 5 ≤ width
    → All IsDigit ds
    → length ds ≤ width
    → store signed_number_pd width (pos 0) (with_sign negative ds) ≡ none
unfolding store
store_signed_pd_overflow width ds negative large h fits = rw (
  split_sign-signed negative ds [] h,
  place_fails width (packed_size width + 1) ds (Digits-Lacks ds h) fits (omega arith),
)
