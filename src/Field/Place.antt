-- ===== src/Field/Place.antt =====
-- The alignment of a number at the decimal point of its COBOL field, which every numeric case of
-- `create_coboldata` in dblib/ocesql.c repeats.
pub mod Laws
use cobol.Prelude.{
  ==_iff, All, All-append, Bool, Bool-cases, Bytes, IsNeg, Lacks, List, Option, Option-cases, [],
  ap, append-nil, append_assoc, arith, codes, drop, drop-length-append, eq→str_eq, false, get_elem?,
  get_or, if◌then◌else◌, inl, inr, is_neg, leb, leb→le, length, length-append, length-drop,
  length-replicate, length-take, ltb, ltb_ℤ, ltb→lt, lt→ltb, map, neg, neg_part, negsuc, none, not,
  pos, pos_part, refl, replicate, some, str_eq, str_eq_iff, str_eq_refl, str_eq→eq, sub_ℕ, suc, sym,
  take, take-append-drop, take-length-append, tests, true, zero, ℕ, ℤ, ◌%◌, ◌&&◌, ◌*◌, ◌++◌, ◌+ℤ◌,
  ◌+◌, ◌-◌, ◌/◌, ◌<◌, ◌==◌, ◌>>=◌, ◌^◌, ◌||◌, ◌↔◌, ◌∙◌, ◌∷◌, ◌≡◌, ◌≢◌, ◌≤◌, ◌⊎◌,
}
use cobol.Field.Buffer.{memcpy_at, fill_zero}

-- The bytes that `for (ptr = value; *ptr != '\0'; ptr++) if (*ptr == '.') break; …` passes.
pub before_point : Bytes → Bytes
before_point [] = []
before_point (c ∷ s) = if c == b'.' then [] else c ∷ before_point s

-- The bytes behind the first point; `none` if the text has no point.
pub after_point : Bytes → Option Bytes
after_point [] = none
after_point (c ∷ s) = if c == b'.' then some s else after_point s

-- `memcpy(final + base + fillzero + beforedp, value + beforedp + 1, afterdp)`, if there is a point.
unfoldable pub copy_fraction : ℤ → Option Bytes → Bytes → Option Bytes
copy_fraction at none buf = some buf
copy_fraction at (some frac) buf = memcpy_at at frac buf

abbrev pub frac_length : Option Bytes → ℕ
frac_length none = 0
frac_length (some frac) = length frac

-- `final` after the alignment of `value`, whose integer part begins `base` bytes behind the
-- leading zeros (which are always written at the start of `final`).
unfoldable pub place : ℕ → ℕ → ℤ → Bytes → Bytes → Option Bytes
unfolding copy_fraction
place base width power value buf = do
  let before = before_point value
  let after = after_point value
  let fillzero = pos width +ℤ neg (length before) +ℤ power
  padded ← fill_zero fillzero buf
  whole ← memcpy_at (pos base +ℤ fillzero) before padded
  if is_neg power
      then (do
        full ← copy_fraction (pos base +ℤ fillzero +ℤ pos (length before)) after whole
        fill_zero (sub_ℕ (neg_part power) (frac_length after)) full)
      else some whole
