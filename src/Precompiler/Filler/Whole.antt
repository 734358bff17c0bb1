-- ===== src/Precompiler/Filler/Whole.antt =====
-- ocesql/ppout.c: the whole of what `sql_string` writes.
use cobol.Prelude.{
  All, All-append, Bool, Bytes, Lacks, List, Option, [], ap, append-nil, append_assoc, arith, false,
  if◌then◌else◌, length, refl, some, suc, sym, true, zero, ℕ, ◌++◌, ◌+◌, ◌<◌, ◌>>=◌, ◌∙◌, ◌∷◌, ◌≡◌,
}
use cobol.Precompiler.Filler.{quote, final, item, items, sql_text, sql_string}
use cobol.Precompiler.Filler.Lines.{literals, literals-append, Short, Lacks-split}
use cobol.Precompiler.Filler.Sizes.{length-taken}
use cobol.Precompiler.Filler.Items.{IsItem, item-IsItem}

-- The lines, behind which only the one with the final NUL stands.
abbrev Writes : Bytes → Option (List Bytes) → Type 0
Writes s out =
    (lines : List Bytes) × (out ≡ some (lines ++ (final ∷ [])))
    × (literals lines ≡ s)
    × All Short lines

continued : List Bytes → Option (List Bytes) → Bool → Option (List Bytes)
continued lines more eof =
    if eof then some (lines ++ (final ∷ [])) else (more >>= λ ls. some (lines ++ ls))

items-continued :
    (fuel : ℕ) (s : Bytes)
    → items (suc fuel) s ≡ continued (item s).0 (items fuel (item s).1.0) (item s).1.1
unfolding items continued
items-continued fuel s = refl

continued-Writes :
    (s : Bytes) (lines : List Bytes) (rest : Bytes) (eof : Bool) (more : Option (List Bytes))
    → IsItem s (lines, (rest, eof))
    → (eof ≡ false → Writes rest more)
    → Writes s (continued lines more eof)
unfolding continued
continued-Writes s lines rest true more (j, l, z, _, _) w = (
  lines,
  refl,
  sym (append-nil (literals lines)) ∙ ap (λ (r : Bytes). literals lines ++ r) (sym (z refl)) ∙ j,
  l,
)
continued-Writes s lines rest false more (j, l, _, _, _) w =
    let (ls, e, r, m) = w refl in
    (
      lines ++ ls,
      rw e (ap some (sym (append_assoc lines ls (final ∷ [])))),
      literals-append lines ls ∙ ap (λ (x : Bytes). literals lines ++ x) r ∙ j,
      All-append Short lines ls l m,
    )

items-Writes : (fuel : ℕ) (s : Bytes) → length s < fuel → Lacks quote s → Writes s (items fuel s)
items-Writes zero s h k = absurd (omega (arith, h))
items-Writes (suc fuel) s h k =
    let i = item-IsItem s k in
    let (lines, (rest, eof)) = item s in
    let (_, lr) = Lacks-split quote (literals lines) rest (rw i.0 k) in
    let shrinks : eof ≡ false → length rest < fuel =
      λ e. omega (arith, h, length-taken (literals lines) rest s i.0, i.4 e) in
    rw (items-continued fuel s) (
      continued-Writes s lines rest eof (items fuel rest) i
        (λ e. items-Writes fuel rest (shrinks e) lr))

-- The endless loop over a statement without quotation marks ends: what is written is a line of at
-- most 72 columns after the other, whose literals are the text of the statement, and the final NUL.
pub sql_string-lines :
    (words : List Bytes)
    → Lacks quote (sql_text words)
    → (lines : List Bytes) × (sql_string words ≡ some (lines ++ (final ∷ [])))
      × (literals lines ≡ sql_text words)
      × All Short lines
unfolding sql_string
sql_string-lines words h =
    items-Writes (length (sql_text words) + 1) (sql_text words) (omega arith) h
