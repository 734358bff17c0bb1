-- ===== src/Field/Place/Laws.antt =====
-- What `place` leaves in a zeroed buffer.
use cobol.Prelude.{
  pos_add, Bytes, Lacks, [], ap, append_assoc, arith, drop, is_neg, length, length-append,
  length-replicate, neg, neg_part, none, pos, refl, replicate, some, sub_ℕ, suc, take-length-append,
  true, zero, ℕ, ◌++◌, ◌+ℤ◌, ◌+◌, ◌-◌, ◌<◌, ◌∷◌, ◌≡◌, ◌≤◌,
}
use cobol.Field.Buffer.{zeroed, zeros, memcpy_at, fill_zero}
use cobol.Field.Place.{before_point, after_point, place}

pub before_point-append : (ds s : Bytes) → Lacks b'.' ds → before_point (ds ++ b'.' ∷ s) ≡ ds
unfolding before_point
before_point-append [] s h = refl
before_point-append (c ∷ ds) s (hc, hs) = ground (arith, before_point-append ds s hs)

pub after_point-append : (ds s : Bytes) → Lacks b'.' ds → after_point (ds ++ b'.' ∷ s) ≡ some s
unfolding after_point
after_point-append [] s h = refl
after_point-append (c ∷ ds) s (hc, hs) = ground (arith, after_point-append ds s hs)

pub before_point_lem : (ds : Bytes) → Lacks b'.' ds → before_point ds ≡ ds
unfolding before_point
before_point_lem [] h = refl
before_point_lem (c ∷ ds) (hc, hs) = ground (arith, before_point_lem ds hs)

pub after_point_lem : (ds : Bytes) → Lacks b'.' ds → after_point ds ≡ none
unfolding after_point
after_point_lem [] h = refl
after_point_lem (c ∷ ds) (hc, hs) = ground (arith, after_point_lem ds hs)

drop-append : (p q : Bytes) (n : ℕ) → drop (length p + n) (p ++ q) ≡ drop n q
drop-append [] q n = ap (λ (k : ℕ). drop k q) (omega arith)
drop-append (c ∷ p) q n =
    let e : length (c ∷ p) + n ≡ suc (length p + n) = omega arith in rw e (drop-append p q n)

pub drop-replicate : (n m c : ℕ) → drop n (replicate (n + m) c) ≡ replicate m c
drop-replicate zero m c = ap (λ (k : ℕ). replicate k c) (omega arith)
drop-replicate (suc n) m c =
    let e : suc n + m ≡ suc (n + m) = omega arith in rw e (drop-replicate n m c)

-- A copy behind a prefix `p`, into zeros.
pub memcpy_at-zeroed :
    (p s : Bytes) (n : ℕ)
    → length s ≤ n
    → memcpy_at (pos (length p)) s (p ++ zeroed n) ≡ some (p ++ (s ++ zeroed (n - length s)))
unfolding memcpy_at
memcpy_at-zeroed p s n h =
    let e : n ≡ length s + (n - length s) = omega arith in
    ground (
      arith,
      length-append p (zeroed n),
      length-replicate {A = ℕ} n 0,
      take-length-append p (zeroed n),
      drop-append p (zeroed n) (length s),
      ap (λ (k : ℕ). drop (length s) (zeroed k)) e,
      drop-replicate (length s) (n - length s) 0,
    )

pub length-zeros : (n : ℕ) → length (zeros n) ≡ n
length-zeros n = length-replicate n b'0'

pub fill_zero-zeroed :
    (z n : ℕ) → z ≤ n → fill_zero (pos z) (zeroed n) ≡ some (zeros z ++ zeroed (n - z))
unfolding fill_zero
fill_zero-zeroed z n h = ground (arith, memcpy_at-zeroed [] (zeros z) n, length-zeros z)

fillzero_lem : (width d p : ℕ) → d + p ≤ width → pos width +ℤ neg d +ℤ neg p ≡ pos (width - d - p)
unfolding ◌+ℤ◌
fillzero_lem width d p h = ground arith

pub fillzero_whole : (width d : ℕ) → d ≤ width → pos width +ℤ neg d +ℤ pos 0 ≡ pos (width - d)
unfolding ◌+ℤ◌
fillzero_whole width d h = ground arith

is_neg-neg : (p : ℕ) → 0 < p → is_neg (neg p) ≡ true
is_neg-neg p h = ground arith

pub behind_zeros : (z : ℕ) → pos 0 +ℤ pos z ≡ pos (length (zeros z))
behind_zeros z = rw (pos_add 0 z, length-zeros z) (ap pos (omega arith))

memcpy_at-zeroed₂ :
    (p q s : Bytes) (n : ℕ)
    → length s ≤ n
    → memcpy_at (pos (length p) +ℤ pos (length q)) s (p ++ (q ++ zeroed n))
      ≡ some (p ++ (q ++ (s ++ zeroed (n - length s))))
memcpy_at-zeroed₂ p q s n h =
    rw
      (pos_add, ← length-append p q, ← append_assoc p q (zeroed n), memcpy_at-zeroed (p ++ q) s n h)
      (ap some (append_assoc p q _))

-- An integer is right-aligned between leading zeros.
pub place_integer :
    (width size : ℕ) (ds : Bytes)
    → Lacks b'.' ds
    → length ds ≤ width
    → width ≤ size
    → place 0 width (pos 0) ds (zeroed size)
      ≡ some (zeros (width - length ds) ++ (ds ++ zeroed (size - width)))
unfolding place
place_integer width size ds h fits room =
    let z = width - length ds in
    let e : size - z - length ds ≡ size - width = omega arith in
    rw (
      before_point_lem ds h,
      fillzero_whole width (length ds) fits,
      fill_zero-zeroed z size (omega arith),
      behind_zeros z,
      memcpy_at-zeroed (zeros z) ds (size - z) (omega arith),
      e,
    )

-- A number with a fraction of at most `p` digits. The zeros that should complete the fraction are
-- written over the start of the buffer.
pub place_decimal :
    (width size p : ℕ) (ds fs : Bytes)
    → Lacks b'.' ds
    → 0 < p
    → length fs ≤ p
    → length ds + p ≤ width
    → width ≤ size
    → let z = width - length ds - p in
      place 0 width (neg p) (ds ++ b'.' ∷ fs) (zeroed size)
      ≡ fill_zero
          (pos (p - length fs))
          (zeros z ++ (ds ++ (fs ++ zeroed (size - z - length ds - length fs))))
unfolding place
place_decimal width size p ds fs h some_places short fits room =
    let z = width - length ds - p in
    let e : sub_ℕ (neg_part (neg p)) (length fs) ≡ pos (p - length fs) = ground arith in
    rw
      (
        before_point-append ds fs h,
        after_point-append ds fs h,
        fillzero_lem width (length ds) p fits,
        fill_zero-zeroed z size (omega arith),
        is_neg-neg p some_places,
        behind_zeros z,
        memcpy_at-zeroed (zeros z) ds (size - z) (omega arith),
        memcpy_at-zeroed₂ (zeros z) ds fs (size - z - length ds) (omega arith),
      )
      (ap (λ k. fill_zero k (zeros z ++ (ds ++ (fs ++ zeroed (size - z - length ds - length fs)))))
        e)

pub fill_zero-none : (s : Bytes) → fill_zero (pos 0) s ≡ some s
unfolding fill_zero memcpy_at
fill_zero-none s = ground arith
