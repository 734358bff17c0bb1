-- ===== src/Precompiler/Picture.antt =====
-- `build_picture` of ocesql/parser.y (in parser.c): what a PICTURE text says of its field. The loops
-- over the text are steps from byte to byte, with what the loops are in the midst of.
pub mod Numbers
use cobol.Prelude.{
  ==_iff, >>=-eq-some, All, All-append, All-map, Bool, Bool-cases, Bytes, IsNeg, Lacks, List,
  Option, Option-cases, [], ap, append-nil, append_assoc, arith, codes, drop, drop-length-append,
  eq→str_eq, false, get_elem?, get_or, if◌then◌else◌, inl, inr, is_neg, leb, leb→le, length,
  length-append, length-drop, length-replicate, length-take, ltb, ltb_ℤ, ltb→lt, lt→ltb, map, neg,
  neg_part, negsuc, none, not, pos, pos_add, pos_part, refl, replicate, some, str_eq, str_eq_iff,
  str_eq_refl, str_eq→eq, sub_ℕ, suc, sym, take, take-append-drop, take-length-append, tests, true,
  zero, ℕ, ℤ, ◌%◌, ◌&&◌, ◌*◌, ◌++◌, ◌+ℤ◌, ◌+◌, ◌-◌, ◌/◌, ◌<◌, ◌==◌, ◌>>=◌, ◌^◌, ◌||◌, ◌↔◌, ◌∙◌, ◌∷◌,
  ◌≡◌, ◌≢◌, ◌≤◌, ◌⊎◌,
}
use cobol.Precompiler.Fields.{CbField}

-- The counters; the bits of `category` apart.
pub record Pic : Type 0 where
  pub alphabetic : Bool
  pub numeric : Bool
  pub national : Bool
  pub s_count : ℕ
  pub v_count : ℕ
  pub idx : ℕ
  pub digits : ℕ
  pub scale : ℕ

abbrev pub no_pic : Pic
no_pic = record {
  alphabetic = false;
  numeric = false;
  national = false;
  s_count = 0;
  v_count = 0;
  idx = 0;
  digits = 0;
  scale = 0;
}

-- A byte of which `n` were counted, the zeros that begin a number in parentheses, or this number
-- so far with its digits.
pub data Reading : Type 0 where
  counting : ℕ → ℕ → Reading
  zeros : ℕ → ℕ → Reading
  number : ℕ → ℕ → ℕ → ℕ → Reading

abbrev pub next : Pic → Pic
next p = record p { idx = p.idx + 4 }

-- The `switch` on a byte that stands `n` times; `none` is `return 0`.
unfoldable pub count_byte : ℕ → ℕ → Pic → Option Pic
count_byte c n p =
    let signed = record p { numeric = true; s_count = p.s_count + n } in
    let pointed = record p { numeric = true; v_count = p.v_count + n } in
    let marked = not (p.s_count == 0 && p.v_count == 0) in
    if c == b'X'
    then if marked
      then none
      else some (next (record p { alphabetic = true; numeric = true; digits = p.digits + n }))
    else if c == b'9'
    then some (
        next (record p {
          numeric = true;
          digits = p.digits + n;
          scale = if p.v_count == 0 then p.scale else p.scale + n;
        }))
    else if c == b'N'
    then if marked then none else some (next (record p { national = true; digits = p.digits + n }))
    else if c == b'S'
    then if p.alphabetic || ltb 1 signed.s_count || not (p.idx == 0) then none else some signed
    else if c == b'V'
    then if p.alphabetic || ltb 1 pointed.v_count then none else some (next pointed)
    else some (next p)

abbrev pub is_digit : ℕ → Bool
is_digit d = leb b'0' d && leb d b'9'

-- A byte of a number in parentheses.
unfoldable pub number_byte : ℕ → ℕ → ℕ → ℕ → ℕ → Option Reading
number_byte d c n i allocated =
    if d == b')'
    then if i == 0 then none else some (counting c (n + i - 1))
    else if is_digit d
    then if ltb 9 (allocated + 1)
      then none
      else some (number c n (i * 10 + (d - 48)) (allocated + 1))
    else none

-- The next byte.
unfoldable pub read_byte : ℕ → Reading → Pic → Option (Reading × Pic)
unfolding count_byte number_byte
read_byte d (counting c n) p =
    if d == c
    then some (counting c (n + 1), p)
    else if d == b'('
    then some (zeros c n, p)
    else (count_byte c n p >>= λ q. some (counting d 1, q))
read_byte d (zeros c n) p =
    if d == b'0' then some (zeros c n, p) else (number_byte d c n 0 0 >>= λ r. some (r, p))
read_byte d (number c n i allocated) p = number_byte d c n i allocated >>= λ r. some (r, p)

-- The end of the text; in parentheses its NUL is no digit.
unfoldable pub read_end_of : Reading → Pic → Option Pic
unfolding count_byte
read_end_of (counting c n) p = count_byte c n p
read_end_of (zeros c n) p = none
read_end_of (number c n i allocated) p = none

unfoldable pub read_picture : Bytes → Reading → Pic → Option Pic
unfolding read_byte read_end_of
read_picture [] r p = read_end_of r p
read_picture (d ∷ s) r p = read_byte d r p >>= λ (next, q). read_picture s next q

abbrev pub category : Pic → ℕ
category p =
    (if p.alphabetic then 1 else 0) + (if p.numeric then 2 else 0) + (if p.national then 4 else 0)

abbrev pub set_picture : CbField → Pic → CbField
set_picture f p = record f {
  picnsize = p.digits;
  scale = p.scale;
  have_sign = not (p.s_count == 0);
  pictype = category p;
}

-- `build_picture`, with the field that it sets where it returns 1.
unfoldable pub build_picture : Bytes → CbField → Option CbField
unfolding read_picture
build_picture [] f = some (set_picture f no_pic)
build_picture (c ∷ s) f =
    if ltb 50 (length (c ∷ s))
    then none
    else (read_picture s (counting c 1) no_pic >>= λ p. some (set_picture f p))
