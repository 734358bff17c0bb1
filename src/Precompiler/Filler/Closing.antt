-- ===== src/Precompiler/Filler/Closing.antt =====
-- ocesql/ppout.c: the fifth line of an item that `sql_string` writes.
use cobol.Prelude.{
  All, Bool, Bytes, Lacks, [], ap, arith, false, if◌then◌else◌, length, length-append, length-take,
  not, refl, str_eq, take, true, ℕ, ◌&&◌, ◌++◌, ◌+◌, ◌-◌, ◌<◌, ◌==◌, ◌∙◌, ◌∷◌, ◌≡◌, ◌≤◌,
}
use cobol.Precompiler.Filler.{quote, substring, continuing, dot, last_line, closing, shown, Line}
use cobol.Precompiler.Filler.Lines.{
  literals, Short, line_fits, shown-literals, shown-Short, Lacks-split, Cuts, substring-Cuts,
}

cut_short :
    (p n : ℕ)
    → n ≤ 4
    → p ≤ 52 - n
    → 52 - n ≤ p + 1
    → p + n + (if not (13 + p == 65 - n) && true then 1 else 0) ≡ 52
cut_short p n h k l = ground arith

-- How the fifth line ends: it is one byte short of what the first line says exactly if it is marked.
abbrev pub Closes : ℕ → Bytes → Bytes → Bytes → Bool → Bool → Type 0
Closes n s taken rest eof short =
    (taken ++ rest ≡ s)
    × (length taken + n ≤ 52)
    × (eof ≡ true → (rest ≡ []) × (short ≡ false))
    × (eof ≡ false → (52 - n < length s) × (length taken + n + (if short then 1 else 0) ≡ 52))

closing-Closes :
    (n : ℕ) (s piece rest : Bytes) (eof : Bool)
    → n ≤ 4
    → Cuts (52 - n) true s piece rest eof
    → let (q, short) = closing n (piece, (rest, eof)) in
      (q ≡ (continuing ++ (piece ++ (quote ∷ dot true)), (rest, eof)))
      × Closes n s piece rest eof short
unfolding closing
closing-Closes n s piece rest true h (j, a, t, b, c) =
    let f = line_fits continuing piece (dot true) (omega (arith, t refl)) in
    (
      ap (λ (x : Bytes). (x, (rest, true))) f,
      (j, omega (arith, t refl, h), (λ _. ((b refl).0, ground arith)), λ e. absurd (cc e)),
    )
closing-Closes n s piece rest false h (j, a, t, b, c) =
    let f = line_fits continuing piece (dot true) (omega (arith, t refl)) in
    let (lt, m, _) = c refl in
    let l : length (take 72 (continuing ++ (piece ++ (quote ∷ [])))) ≡ 13 + length piece = omega (
      arith,
      length-take 72 (continuing ++ (piece ++ (quote ∷ []))),
      length-append piece (quote ∷ []),
      t refl,
    ) in
    (
      ap (λ (x : Bytes). (x, (rest, false))) f,
      (
        j,
        omega (arith, t refl, h),
        (λ e. absurd (cc e)),
        λ _. (
          lt,
          ap (λ (x : ℕ). length piece + n + (if not (x == 65 - n) && true then 1 else 0)) l
              ∙ cut_short (length piece) n h (t refl) m,
        ),
      ),
    )

abbrev pub LastReads : ℕ → Bytes → Bool → Line × Bool → Type 0
LastReads n s e ((line, (rest, eof)), short) =
    Closes n s (literals (shown line)) rest eof short
    × All Short (shown line)
    × (eof ≡ false → e ≡ false)

last_line-ended : (n : ℕ) (s : Bytes) → last_line n (s, true) ≡ ((continuing, (s, true)), false)
unfolding last_line
last_line-ended n s = refl

last_line-closing :
    (n : ℕ) (s : Bytes) → last_line n (s, false) ≡ closing n (substring (52 - n) s true)
unfolding last_line
last_line-closing n s = refl

last_ended-Reads :
    (n : ℕ) (s : Bytes) → n ≤ 4 → s ≡ [] → LastReads n s true ((continuing, (s, true)), false)
unfolding literals shown str_eq
last_ended-Reads n s h z =
    ((refl, omega (arith, h), (λ _. (z, refl)), λ e. absurd (cc e)), tt, λ e. absurd (cc e))

closing-Reads :
    (n : ℕ) (s piece rest : Bytes) (eof : Bool)
    → n ≤ 4
    → Lacks quote s
    → Cuts (52 - n) true s piece rest eof
    → LastReads n s false (closing n (piece, (rest, eof)))
closing-Reads n s piece rest eof k h cuts =
    let (lp, _) = Lacks-split quote piece rest (rw cuts.0 h) in
    let (q, closes) = closing-Closes n s piece rest eof k cuts in
    let line : Bytes = continuing ++ (piece ++ (quote ∷ dot true)) in
    let short : Short line = omega (arith, length-append piece (quote ∷ dot true), closes.1) in
    rw (q, shown-literals piece true lp) (closes, shown-Short line short, λ _. refl)

pub last_line-Reads :
    (n : ℕ) (s : Bytes) (e : Bool)
    → n ≤ 4
    → Lacks quote s
    → (e ≡ true → s ≡ [])
    → LastReads n s e (last_line n (s, e))
last_line-Reads n s true k h z = rw (last_line-ended n s) (last_ended-Reads n s k (z refl))
last_line-Reads n s false k h z =
    let (piece, (rest, eof)) = substring (52 - n) s true in
    rw (last_line-closing n s)
      (closing-Reads n s piece rest eof k h (substring-Cuts (52 - n) s true (omega (arith, k))))
