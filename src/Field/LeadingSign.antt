-- ===== src/Field/LeadingSign.antt =====
-- Numbers with a separate leading sign (`OCDB_TYPE_SIGNED_NUMBER_LS` of dblib/ocesql.c): right
-- when every digit of the field is there, lost when leading zeros are filled in.
use cobol.Prelude.{
  All, Bool, Bytes, [], ap, append_assoc, arith, drop, if◌then◌else◌, length, length-append,
  length-replicate, pos, pos_add, refl, some, suc, sym, take, zero, ℕ, ◌++◌, ◌+ℤ◌, ◌+◌, ◌-◌, ◌<◌,
  ◌∙◌, ◌∷◌, ◌≡◌, ◌≤◌,
}
use cobol.Util.{cstr}
use cobol.Field.Buffer.{zeros, zeroed, memcpy_at, fill_zero}
use cobol.Field.Packed.{IsDigit}
use cobol.Field.Place.{place}
use cobol.Field.Place.Laws.{
  before_point_lem, fillzero_whole, memcpy_at-zeroed, drop-replicate, length-zeros, fill_zero-none,
}
use cobol.Field.Store.{signed_number_ls, store}
use cobol.Field.Load.{load, point}
use cobol.Field.Digits.{Digits-Lacks, cstr-Digits, take_left}
use cobol.Field.RoundTrip.Numeral.{with_sign, sign_byte, split_sign-signed}

-- The zeros go over the sign.
fill_zero-first :
    (k n c : ℕ)
    → k ≤ n
    → fill_zero (pos (suc k)) (c ∷ zeroed n) ≡ some (zeros (suc k) ++ zeroed (n - k))
unfolding fill_zero memcpy_at
fill_zero-first k n c h =
    let e : n ≡ k + (n - k) = omega arith in
    ground (
      arith,
      length-zeros k,
      length-replicate {A = ℕ} n 0,
      ap (λ (m : ℕ). drop k (zeroed m)) e,
      drop-replicate k (n - k) 0,
    )

memcpy_at-gap :
    (z n : ℕ) (ds : Bytes)
    → length ds ≤ n
    → memcpy_at (pos 1 +ℤ pos z) ds (zeros z ++ zeroed (suc n))
      ≡ some (zeros z ++ 0 ∷ (ds ++ zeroed (n - length ds)))
memcpy_at-gap z n ds h =
    let p = zeros z ++ 0 ∷ [] in
    let at : pos 1 +ℤ pos z ≡ pos (length p) =
      pos_add 1 z ∙ ap pos (omega (arith, length-append (zeros z) (0 ∷ []), length-zeros z)) in
    rw (at, ← append_assoc (zeros z) (0 ∷ []) (zeroed n), memcpy_at-zeroed p ds n h)
      (ap some (append_assoc (zeros z) (0 ∷ []) (ds ++ zeroed (n - length ds))))

place_first-exact :
    (width c : ℕ) (ds : Bytes)
    → All IsDigit ds
    → length ds ≡ width
    → place 1 width (pos 0) ds (c ∷ zeroed (width + 1)) ≡ some (c ∷ (ds ++ 0 ∷ []))
unfolding place
place_first-exact width c ds h e =
    let none_left : pos (width - length ds) ≡ pos 0 = ap pos (omega arith) in
    let one : width + 1 - length ds ≡ 1 = omega arith in
    rw (
      before_point_lem ds (Digits-Lacks ds h),
      fillzero_whole width (length ds) (omega arith),
      none_left,
      fill_zero-none,
      pos_add 1 0,
      memcpy_at-zeroed (c ∷ []) ds (width + 1) (omega arith),
      one,
    )

place_first-short :
    (width c k : ℕ) (ds : Bytes)
    → All IsDigit ds
    → width ≡ length ds + suc k
    → place 1 width (pos 0) ds (c ∷ zeroed (width + 1)) ≡ some (zeros (suc k) ++ 0 ∷ (ds ++ 0 ∷ []))
unfolding place
place_first-short width c k ds h e =
    let left : pos (width - length ds) ≡ pos (suc k) = ap pos (omega arith) in
    let gap : width + 1 - k ≡ suc (length ds + 1) = omega arith in
    let one : length ds + 1 - length ds ≡ 1 = omega arith in
    rw (
      before_point_lem ds (Digits-Lacks ds h),
      fillzero_whole width (length ds) (omega arith),
      left,
      fill_zero-first k (width + 1) c (omega arith),
      gap,
      memcpy_at-gap (suc k) (length ds + 1) ds (omega arith),
      one,
    )

cstr-zeros : (n : ℕ) (s : Bytes) → cstr (zeros n ++ 0 ∷ s) ≡ zeros n
unfolding cstr
cstr-zeros zero s = refl
cstr-zeros (suc n) s = ap (◌∷◌ b'0') (cstr-zeros n s)

take_end : (s : Bytes) (n : ℕ) → length s ≡ n → take n (s ++ 0 ∷ []) ≡ s
take_end s n e = take_left s (0 ∷ []) n e

module _ (width : ℕ) (ds : Bytes) (h : All IsDigit ds) (negative : Bool) (rest : Bytes) where
  first_byte : (if negative then b'-' else b'+') ≡ sign_byte negative
  first_byte = ground arith

  cstr-signed : cstr (sign_byte negative ∷ ds) ≡ sign_byte negative ∷ ds
  unfolding cstr
  cstr-signed = ground (arith, cstr-Digits ds h)

  -- A number with as many digits as the field keeps its sign and is read back unchanged.
  pub load-store_signed_ls :
      length ds ≡ width
      → (store signed_number_ls width (pos 0) (with_sign negative ds)
          ≡ some (sign_byte negative ∷ ds))
        × (load signed_number_ls width (pos 0) (sign_byte negative ∷ (ds ++ rest))
            ≡ some (sign_byte negative ∷ ds))
  unfolding store load point
  load-store_signed_ls e =
      let l : length (sign_byte negative ∷ ds) ≡ width + 1 = omega arith in
      (
        rw
            (
              split_sign-signed negative ds [] h,
              first_byte,
              place_first-exact width (sign_byte negative) ds h e,
            )
            (ap some (take_end (sign_byte negative ∷ ds) (width + 1) l)),
        ap some (ap cstr (take_left (sign_byte negative ∷ ds) rest (width + 1) l) ∙ cstr-signed),
      )

  -- A number with fewer digits than the field loses its sign, and what is read back is the zeros
  -- that were filled in: the digits stand behind a NUL.
  pub load-store_signed_ls_short :
      length ds < width
      → (b : Bytes) × (store signed_number_ls width (pos 0) (with_sign negative ds) ≡ some b)
        × (load signed_number_ls width (pos 0) (b ++ rest) ≡ some (zeros (width - length ds)))
  unfolding store load point
  load-store_signed_ls_short lt =
      let k = width - length ds - 1 in
      let b = zeros (suc k) ++ 0 ∷ ds in
      let l : length b ≡ width + 1 =
        omega (arith, length-append (zeros (suc k)) (0 ∷ ds), length-zeros (suc k)) in
      let e : width - length ds ≡ suc k = omega arith in
      (
        b,
        rw
            (
              split_sign-signed negative ds [] h,
              first_byte,
              place_first-short width (sign_byte negative) k ds h (omega arith),
              ← append_assoc (zeros (suc k)) (0 ∷ ds) (0 ∷ []),
            )
            (ap some (take_end b (width + 1) l)),
        ap some
            (ap cstr (take_left b rest (width + 1) l) ∙ cstr-zeros (suc k) ds ∙ ap zeros (sym e)),
      )
