-- ===== src/Precompiler/Filler/Lines.antt =====
-- ocesql/ppout.c: what a COBOL compiler reads in the lines that `sql_string` writes.
use cobol.Prelude.{
  All, Bool, Bool-cases, Bytes, Lacks, List, [], ap, append-nil, append_assoc, arith, false,
  if◌then◌else◌, inl, inr, leb, leb→le, length, length-append, length-take, refl, str_eq, suc, sym,
  take, take-append-drop, true, zero, ℕ, ◌++◌, ◌+◌, ◌<◌, ◌==◌, ◌∙◌, ◌∷◌, ◌≡◌, ◌≤◌,
}
use cobol.Precompiler.Filler.{
  quote, cut_at, substring, continuing, dot, next_line, written, shown, Line,
}

-- A literal is what stands between the first quotation mark of a line and the next.
unfoldable pub after_quote : Bytes → Bytes
after_quote [] = []
after_quote (c ∷ s) = if c == quote then s else after_quote s

unfoldable pub until_quote : Bytes → Bytes
until_quote [] = []
until_quote (c ∷ s) = if c == quote then [] else c ∷ until_quote s

unfoldable pub literals : List Bytes → Bytes
unfolding after_quote until_quote
literals [] = []
literals (l ∷ ls) = until_quote (after_quote l) ++ literals ls

abbrev pub Short : Bytes → Type 0
Short l = length l ≤ 72

pub take-all : (n : ℕ) (s : Bytes) → length s ≤ n → take n s ≡ s
take-all zero [] h = refl
take-all zero (c ∷ s) h = absurd (omega arith)
take-all (suc n) [] h = refl
take-all (suc n) (c ∷ s) h = ap (◌∷◌ c) (take-all n s (omega arith))

pub after_quote-append : (p s : Bytes) → Lacks quote p → after_quote (p ++ s) ≡ after_quote s
unfolding after_quote
after_quote-append [] s h = refl
after_quote-append (c ∷ p) s (n, h) = ground (arith, after_quote-append p s h)

pub until_quote-append : (p s : Bytes) → Lacks quote p → until_quote (p ++ (quote ∷ s)) ≡ p
unfolding until_quote
until_quote-append [] s h = refl
until_quote-append (c ∷ p) s (n, h) = ground (arith, until_quote-append p s h)

pub literals-append : (ls ms : List Bytes) → literals (ls ++ ms) ≡ literals ls ++ literals ms
unfolding literals
literals-append [] ms = refl
literals-append (l ∷ ls) ms =
    ap (λ (b : Bytes). until_quote (after_quote l) ++ b) (literals-append ls ms)
    ∙ sym (append_assoc (until_quote (after_quote l)) (literals ls) (literals ms))

pub Lacks-split : (c : ℕ) (p r : Bytes) → Lacks c (p ++ r) → Lacks c p × Lacks c r
Lacks-split c [] r h = (tt, h)
Lacks-split c (d ∷ p) r (n, h) = let (a, b) = Lacks-split c p r h in ((n, a), b)

cut_at-bound :
    (len : ℕ) (s : Bytes) (flag : Bool)
    → 1 ≤ len
    → (len ≤ cut_at len s flag + 1)
      × (cut_at len s flag ≤ len + 1)
      × (flag ≡ true → cut_at len s flag ≤ len)
      × (flag ≡ false → len ≤ cut_at len s flag)
unfolding cut_at
cut_at-bound len s flag h = ground arith

-- What `substring` cuts off is put back in front of what is left.
abbrev pub Cuts : ℕ → Bool → Bytes → Bytes → Bytes → Bool → Type 0
Cuts len flag s piece rest eof =
    (piece ++ rest ≡ s)
    × (length piece ≤ len + 1)
    × (flag ≡ true → length piece ≤ len)
    × (eof ≡ true → (rest ≡ []) × (length piece ≤ len))
    × (eof ≡ false
        → (len < length s) × (len ≤ length piece + 1) × (flag ≡ false → len ≤ length piece))

pub substring-Cuts :
    (len : ℕ) (s : Bytes) (flag : Bool)
    → 1 ≤ len
    → let (piece, (rest, eof)) = substring len s flag in Cuts len flag s piece rest eof
unfolding substring
substring-Cuts len s flag h = elim (Bool-cases (leb (length s) len)) [
  | inl y ↦
      let le : length s ≤ len = leb→le (length s) len y in
      rw (y, substring)
        (append-nil s, omega (arith, le), λ _. le, λ _. (refl, le), λ e. absurd (cc e))
  | inr y ↦
      let (a, b, c, d) = cut_at-bound len s flag h in
      let lt : len < length s = ground arith in
      let l : length (take (cut_at len s flag) s) ≡ cut_at len s flag =
        omega (arith, length-take (cut_at len s flag) s) in
      rw (y, substring)
        (
          take-append-drop (cut_at len s flag) s,
          omega (arith, l, b),
          (λ e. omega (arith, l, c e)),
          (λ e. absurd (cc e)),
          (λ _. (lt, omega (arith, l, a), λ e. omega (arith, l, d e))),
        )
]

-- A line that fits its columns is not cut.
pub line_fits :
    (p piece d : Bytes)
    → length p + length piece ≤ 71
    → take 72 (p ++ (piece ++ (quote ∷ []))) ++ d ≡ p ++ (piece ++ (quote ∷ d))
line_fits p piece d h =
    let l : length (p ++ (piece ++ (quote ∷ []))) ≤ 72 =
      omega (arith, length-append p (piece ++ (quote ∷ [])), length-append piece (quote ∷ [])) in
    rw (take-all 72 (p ++ (piece ++ (quote ∷ []))) l) (
      append_assoc p (piece ++ (quote ∷ [])) d
      ∙ ap (λ (b : Bytes). p ++ b) (append_assoc piece (quote ∷ []) d))

pub shown-literals :
    (piece : Bytes) (eof : Bool)
    → Lacks quote piece
    → literals (shown (continuing ++ (piece ++ (quote ∷ dot eof)))) ≡ piece
unfolding shown literals str_eq
shown-literals [] true h = refl
shown-literals [] false h = refl
shown-literals (c ∷ piece) eof (n, h) =
    ground (arith, until_quote-append (c ∷ piece) (dot eof) (n, h), append-nil (c ∷ piece))

pub shown-Short : (line : Bytes) → Short line → All Short (shown line)
unfolding shown
shown-Short line h = ground arith

-- Lines with what they take from a text, and what they leave.
abbrev Reads : Bytes → List Bytes → Bytes → Bool → Type 0
Reads s lines rest eof = (literals lines ++ rest ≡ s) × All Short lines × (eof ≡ true → rest ≡ [])

-- A line that takes `len` bytes, or one more so as not to divide a character.
abbrev pub TakesOrMore : ℕ → Bytes → Bytes → Bytes → Bool → ℕ → Type 0
TakesOrMore len s taken rest eof c =
    (taken ++ rest ≡ s)
    × (length taken ≤ len + c)
    × (c ≤ 1)
    × (eof ≡ true → rest ≡ [])
    × (eof ≡ false → length taken ≡ len + c)

pub written-start :
    (start : Bytes) (len : ℕ) (s piece rest : Bytes) (eof : Bool)
    → length start + len ≡ 70
    → Cuts len false s piece rest eof
    → let (q, c) = written start (piece, (rest, eof)) in
      (q ≡ (start ++ (piece ++ (quote ∷ dot eof)), (rest, eof)))
      × Short (start ++ (piece ++ (quote ∷ dot eof)))
      × TakesOrMore len s piece rest eof c
unfolding written
written-start start len s piece rest eof h (j, a, _, b, c) =
    let l : length (start ++ (piece ++ (quote ∷ []))) ≡ length start + length piece + 1 =
      omega
        (arith, length-append start (piece ++ (quote ∷ [])), length-append piece (quote ∷ [])) in
    let m : length (start ++ (piece ++ (quote ∷ dot eof)))
        ≡ length start + length piece + 1 + length (dot eof) =
      omega (
        arith,
        length-append start (piece ++ (quote ∷ dot eof)),
        length-append piece (quote ∷ dot eof),
      ) in
    let f = line_fits start piece (dot eof) (omega (arith, a, h)) in
    (
      ap (λ (x : Bytes). (x, (rest, eof))) f,
      ground (arith, m, a, h, b),
      (
        j,
        ground (arith, l, h, a),
        ground arith,
        (λ e. (b e).0),
        (λ e. let (_, _, k) = c e in ground (arith, l, h, a, k refl)),
      ),
    )

-- What a compiler reads in a line and what is left of the text behind it.
abbrev pub NextReads : Bytes → Bool → Line × ℕ → Type 0
NextReads s e ((line, (rest, eof)), c) =
    TakesOrMore 58 s (literals (shown line)) rest eof c
    × All Short (shown line)
    × (eof ≡ false → e ≡ false)

next_line-ended : (s : Bytes) → next_line (s, true) ≡ ((continuing, (s, true)), 0)
unfolding next_line
next_line-ended s = refl

next_line-written : (s : Bytes) → next_line (s, false) ≡ written continuing (substring 58 s false)
unfolding next_line
next_line-written s = refl

ended-Reads : (s : Bytes) → s ≡ [] → NextReads s true ((continuing, (s, true)), 0)
unfolding literals shown str_eq
ended-Reads s z =
    ((refl, omega arith, omega arith, (λ _. z), λ e. absurd (cc e)), tt, λ e. absurd (cc e))

written-Reads :
    (s piece rest : Bytes) (eof : Bool)
    → Lacks quote s
    → Cuts 58 false s piece rest eof
    → NextReads s false (written continuing (piece, (rest, eof)))
written-Reads s piece rest eof h cuts =
    let (lp, _) = Lacks-split quote piece rest (rw cuts.0 h) in
    let (q, short, takes) = written-start continuing 58 s piece rest eof refl cuts in
    rw (q, shown-literals piece eof lp)
      (takes, shown-Short (continuing ++ (piece ++ (quote ∷ dot eof))) short, λ _. refl)

pub next_line-Reads :
    (s : Bytes) (e : Bool) → Lacks quote s → (e ≡ true → s ≡ []) → NextReads s e (next_line (s, e))
next_line-Reads s true h z = rw (next_line-ended s) (ended-Reads s (z refl))
next_line-Reads s false h z =
    let (piece, (rest, eof)) = substring 58 s false in
    rw (next_line-written s)
      (written-Reads s piece rest eof h (substring-Cuts 58 s false (omega arith)))
