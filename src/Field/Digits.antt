-- ===== src/Field/Digits.antt =====
-- Texts of decimal digits, and what the helpers of dblib/ocdbutil.c do with them.
use cobol.Prelude.{
  All, Bytes, Lacks, [], ap, arith, drop, false, leb, length, length-append, ltb, neg, neg_part,
  refl, suc, take, zero, ℕ, ◌++◌, ◌+◌, ◌-◌, ◌<◌, ◌==◌, ◌||◌, ◌∙◌, ◌∷◌, ◌≡◌, ◌≢◌,
}
use cobol.Util.{cstr, insert_decimal_point}
use cobol.Util.Names.{cstr_lem}
use cobol.Field.Buffer.{zeros}
use cobol.Field.Packed.{IsDigit}

pub Digits-Lacks : (s : Bytes) → All IsDigit s → Lacks b'.' s
Digits-Lacks [] h = tt
Digits-Lacks (c ∷ s) (hc, hs) = (λ e. absurd (omega arith), Digits-Lacks s hs)

pub Digits-ne-zero : (s : Bytes) → All IsDigit s → All (λ c. c ≢ 0) s
Digits-ne-zero [] h = tt
Digits-ne-zero (c ∷ s) (hc, hs) = (λ e. absurd (omega arith), Digits-ne-zero s hs)

pub zeros-Digits : (n : ℕ) → All IsDigit (zeros n)
zeros-Digits zero = tt
zeros-Digits (suc n) = (omega arith, zeros-Digits n)

pub cstr-Digits : (s : Bytes) → All IsDigit s → cstr s ≡ s
cstr-Digits s h = cstr_lem s (Digits-ne-zero s h)

pub take_all : (s : Bytes) (n : ℕ) → length s ≡ n → take n s ≡ s
take_all [] zero e = refl
take_all [] (suc n) e = refl
take_all (c ∷ s) zero e = absurd (omega arith)
take_all (c ∷ s) (suc n) e = ap (◌∷◌ c) (take_all s n (omega arith))

pub take_left : (s t : Bytes) (n : ℕ) → length s ≡ n → take n (s ++ t) ≡ s
take_left [] t zero e = refl
take_left [] t (suc n) e = absurd (omega arith)
take_left (c ∷ s) t zero e = absurd (omega arith)
take_left (c ∷ s) t (suc n) e = ap (◌∷◌ c) (take_left s t n (omega arith))

pub drop_left : (s t : Bytes) (n : ℕ) → length s ≡ n → drop n (s ++ t) ≡ t
drop_left [] t zero e = refl
drop_left [] t (suc n) e = absurd (omega arith)
drop_left (c ∷ s) t zero e = absurd (omega arith)
drop_left (c ∷ s) t (suc n) e = drop_left s t n (omega arith)

-- The point goes before the last `p` characters, if there are more than `p`.
pub insert_decimal_point-append :
    (w f : Bytes) (size p : ℕ)
    → length f ≡ p
    → 0 < p
    → 0 < length w
    → length w + p < size
    → insert_decimal_point (w ++ f) size (neg p) ≡ w ++ b'.' ∷ f
unfolding insert_decimal_point
insert_decimal_point-append w f size p e some_places some_whole room =
    let l : length (w ++ f) ≡ length w + p = length-append w f ∙ ap (λ (k : ℕ). length w + k) e in
    let i : length (w ++ f) - p ≡ length w = omega arith in
    let n : neg_part (neg p) ≡ p = ground arith in
    let a : ltb size (length (w ++ f) + 1) ≡ false = ground arith in
    let b : (neg_part (neg p) == 0 || leb (length (w ++ f)) (neg_part (neg p))) ≡ false =
      ground arith in
    let t : length (w ++ f) - neg_part (neg p) ≡ length w = ground arith in
    rw (a, b, t, take_left w f (length w) refl, drop_left w f (length w) refl)
