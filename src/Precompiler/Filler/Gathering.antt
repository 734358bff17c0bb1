-- ===== src/Precompiler/Filler/Gathering.antt =====
-- ocesql/ppout.c: the five lines of an item that `sql_string` writes, together.
use cobol.Prelude.{
  All, All-append, Bool, Bytes, Lacks, List, [], ap, arith, false, if◌then◌else◌, length,
  length-append, refl, true, ℕ, ◌++◌, ◌+◌, ◌<◌, ◌∙◌, ◌∷◌, ◌≡◌, ◌≤◌,
}
use cobol.Precompiler.Filler.{quote, opening, dot, marked, gathered, shown, Line}
use cobol.Precompiler.Filler.Lines.{
  after_quote, until_quote, literals, literals-append, Short, TakesOrMore, NextReads,
}
use cobol.Precompiler.Filler.Closing.{Closes, LastReads}
use cobol.Precompiler.Filler.Sizes.{
  digits_value, declared_size, said-Lacks, first_text, opening-literals, two_taken, length-taken,
  IsSize, said,
}

-- What the lines of an item take from a text, with `short` for the mark of one byte less.
abbrev pub Gathers : Bytes → Bytes → Bool → List Bytes × (Bytes × Bool) → Type 0
Gathers size s short (lines, (rest, eof)) =
    (literals lines ++ rest ≡ s)
    × All Short lines
    × (eof ≡ true → rest ≡ [])
    × (declared_size lines ≡ (if short then 255 else digits_value size))
    × (eof ≡ true → (length (literals lines) ≤ 256) × (short ≡ false))
    × (eof ≡ false → (length (literals lines) + (if short then 1 else 0) ≡ 256) × (256 < length s))

literals-gathered :
    (l : Bytes) (k1 k2 k3 k4 : List Bytes)
    → literals (l ∷ (k1 ++ (k2 ++ (k3 ++ k4))))
      ≡ until_quote (after_quote l)
        ++ (literals k1 ++ (literals k2 ++ (literals k3 ++ literals k4)))
unfolding literals
literals-gathered l k1 k2 k3 k4 =
    let e3 = literals-append k3 k4 in
    let e2 = literals-append k2 (k3 ++ k4) in
    let e1 = literals-append k1 (k2 ++ (k3 ++ k4)) in
    ap (λ (x : Bytes). until_quote (after_quote l) ++ x) (rw (e1, e2, e3) refl)

gathered-sizes :
    (s p0 r0 r1 r2 r3 r4 t1 t2 t3 t4 : Bytes) (e0 e1 e2 e3 e4 short : Bool) (c0 c1 c2 c3 : ℕ)
    → TakesOrMore 30 s p0 r0 e0 c0
    → TakesOrMore 58 r0 t1 r1 e1 c1
    → TakesOrMore 58 r1 t2 r2 e2 c2
    → TakesOrMore 58 r2 t3 r3 e3 c3
    → Closes (c0 + c1 + c2 + c3) r3 t4 r4 e4 short
    → (e1 ≡ false → e0 ≡ false)
    → (e2 ≡ false → e1 ≡ false)
    → (e3 ≡ false → e2 ≡ false)
    → (e4 ≡ false → e3 ≡ false)
    → let n = length p0 + (length t1 + (length t2 + (length t3 + length t4))) in
      (e4 ≡ true → (n ≤ 256) × (short ≡ false))
      × (e4 ≡ false → (n + (if short then 1 else 0) ≡ 256) × (256 < length s))
gathered-sizes s p0 r0 r1 r2 r3 r4 t1 t2 t3 t4 e0 e1 e2 e3 e4 short c0 c1 c2 c3 (j0, a0, _, _, b0)
      (j1, a1, _, _, b1) (j2, a2, _, _, b2) (j3, a3, _, _, b3) (j4, a4, z4, b4) f1 f2 f3 f4 =
    let l0 = length-taken p0 r0 s j0 in
    let l1 = length-taken t1 r1 r0 j1 in
    let l2 = length-taken t2 r2 r1 j2 in
    let l3 = length-taken t3 r3 r2 j3 in
    (
      (λ e. (omega (arith, a0, a1, a2, a3, a4), (z4 e).1)),
      λ e.
          let n3 = f4 e in
          let n2 = f3 n3 in
          let n1 = f2 n2 in
          let n0 = f1 n1 in
          let (lt, sum) = b4 e in
          (
            omega (arith, b0 n0, b1 n1, b2 n2, b3 n3, sum),
            omega (arith, b0 n0, b1 n1, b2 n2, b3 n3, lt, l0, l1, l2, l3),
          ),
    )

length-five :
    (a b c d e : Bytes)
    → length (a ++ (b ++ (c ++ (d ++ e))))
      ≡ length a + (length b + (length c + (length d + length e)))
length-five a b c d e = omega (
  arith,
  length-append a (b ++ (c ++ (d ++ e))),
  length-append b (c ++ (d ++ e)),
  length-append c (d ++ e),
  length-append d e,
)

pub gathered-Gathers :
    (size s p0 r0 : Bytes) (e0 : Bool) (c0 : ℕ) (q1 q2 q3 : Line × ℕ) (q4 : Line × Bool)
    → IsSize size
    → Lacks quote p0
    → Short (opening size ++ (p0 ++ (quote ∷ dot e0)))
    → TakesOrMore 30 s p0 r0 e0 c0
    → NextReads r0 e0 q1
    → NextReads q1.0.1.0 q1.0.1.1 q2
    → NextReads q2.0.1.0 q2.0.1.1 q3
    → LastReads (c0 + q1.1 + q2.1 + q3.1) q3.0.1.0 q3.0.1.1 q4
    → Gathers size s q4.1
        (gathered ((opening size ++ (p0 ++ (quote ∷ dot e0)), (r0, e0)), c0) q1 q2 q3 q4)
unfolding declared_size
gathered-Gathers size s p0 r0 e0 c0 ((l1, (r1, e1)), c1) ((l2, (r2, e2)), c2) ((l3, (r3, e3)), c3)
      ((l4, (r4, e4)), short) (k, lack) lp fits t0 (t1, s1, f1) (t2, s2, f2) (t3, s3, f3)
      (t4, s4, f4) =
    let body : Bytes = p0 ++ (quote ∷ dot e0) in
    let (text, len, size_said) = first_text short size body k in
    let first : Bytes = marked short (opening size ++ body) in
    let lit : until_quote (after_quote first) ≡ p0 =
      ap (λ (x : Bytes). until_quote (after_quote x)) text
      ∙ opening-literals (said short size) p0 (dot e0) (said-Lacks short size lack) lp in
    let all : literals (first ∷ (shown l1 ++ (shown l2 ++ (shown l3 ++ shown l4))))
        ≡ p0
          ++ (literals (shown l1)
              ++ (literals (shown l2) ++ (literals (shown l3) ++ literals (shown l4)))) =
      literals-gathered first (shown l1) (shown l2) (shown l3) (shown l4)
      ∙ ap
          (λ (x : Bytes).
            x
            ++ (literals (shown l1)
                ++ (literals (shown l2) ++ (literals (shown l3) ++ literals (shown l4)))))
          lit in
    let (whole, cut) =
      gathered-sizes s p0 r0 r1 r2 r3 r4 _ _ _ _ e0 e1 e2 e3 e4 short c0 c1 c2 c3 t0 t1 t2 t3 t4 f1
        f2 f3 f4 in
    let sum =
      length-five p0 (literals (shown l1)) (literals (shown l2)) (literals (shown l3))
        (literals (shown l4)) in
    rw all (
      two_taken p0 _ r4 t0.0
          (two_taken _ _ r4 t1.0 (two_taken _ _ r4 t2.0 (two_taken _ _ r4 t3.0 t4.0))),
      (
        omega (arith, len, fits),
        All-append Short (shown l1) (shown l2 ++ (shown l3 ++ shown l4)) s1 (
            All-append Short (shown l2) (shown l3 ++ shown l4) s2
              (All-append Short (shown l3) (shown l4) s3 s4)),
      ),
      (λ e. (t4.2 e).0),
      size_said,
      (λ e. rw sum (whole e)),
      (λ e. rw sum (cut e)),
    )
