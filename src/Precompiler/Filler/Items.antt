-- ===== src/Precompiler/Filler/Items.antt =====
-- ocesql/ppout.c: `sql_string` gives a COBOL compiler the text of the statement, in items of the size
-- that they say.
use cobol.Prelude.{
  All, Bool, Bytes, Lacks, List, [], ap, arith, codes, false, length, length-append, refl, true,
  ◌++◌, ◌+◌, ◌<◌, ◌∙◌, ◌∷◌, ◌≡◌,
}
use cobol.Precompiler.Filler.{
  quote, substring, opening, written, next_line, last_line, gathered, item_size, shown, item, Line,
}
use cobol.Precompiler.Filler.Lines.{
  literals, Short, Lacks-split, substring-Cuts, written-start, next_line-Reads,
}
use cobol.Precompiler.Filler.Closing.{last_line-Reads}
use cobol.Precompiler.Filler.Sizes.{declared_size, item_size-IsSize, item_size-digits, length-taken}
use cobol.Precompiler.Filler.Gathering.{Gathers, gathered-Gathers}

-- The lines of an item: they are short, the size that the first line says is that of the literals,
-- and what the literals leave of the text is left to the next item.
abbrev pub IsItem : Bytes → List Bytes × (Bytes × Bool) → Type 0
IsItem s (lines, (rest, eof)) =
    (literals lines ++ rest ≡ s)
    × All Short lines
    × (eof ≡ true → rest ≡ [])
    × (declared_size lines ≡ length (literals lines))
    × (eof ≡ false → 0 < length (literals lines))

Gathers-IsItem :
    (s : Bytes) (short : Bool) (lines : List Bytes) (rest : Bytes) (eof : Bool)
    → Gathers (item_size s) s short (lines, (rest, eof))
    → IsItem s (lines, (rest, eof))
Gathers-IsItem s short lines rest true (j, l, z, d, w, c) =
    let (le, unmarked) = w refl in
    let said = item_size-digits s in
    let whole : length (literals lines) ≡ length s =
      omega
        (arith, length-taken (literals lines) rest s j, ap (λ (x : Bytes). length x) (z refl)) in
    (j, l, z, ground (arith, d, unmarked, said, le, whole), λ e. absurd (cc e))
Gathers-IsItem s short lines rest false (j, l, z, d, w, c) =
    let (le, lt) = c refl in
    let said = item_size-digits s in
    (j, l, z, ground (arith, d, said, le, lt), λ e. ground (arith, le))

item_eq :
    (s : Bytes)
    → item s ≡ (
        let q0 = written (opening (item_size s)) (substring 30 s false) in
        let q1 = next_line q0.0.1 in
        let q2 = next_line q1.0.1 in
        let q3 = next_line q2.0.1 in
        gathered q0 q1 q2 q3 (last_line (q0.1 + q1.1 + q2.1 + q3.1) q3.0.1))
unfolding item
item_eq s = refl

-- The lines of an item, of a text without quotation marks.
pub item-IsItem : (s : Bytes) → Lacks quote s → IsItem s (item s)
item-IsItem s h =
    let size = item_size s in
    let (k, lack) = item_size-IsSize s in
    let (p0, (r0, e0)) = substring 30 s false in
    let cuts = substring-Cuts 30 s false (omega arith) in
    let (lp, lr) = Lacks-split quote p0 r0 (rw cuts.0 h) in
    let (q, fits, takes) =
      written-start (opening size) 30 s p0 r0 e0
        (omega (arith, k, length-append size (codes ") VALUE " ++ (quote ∷ [])))) cuts in
    let c0 = (written (opening size) (p0, (r0, e0))).1 in
    let q1 = next_line (r0, e0) in
    let n1 = next_line-Reads r0 e0 lr (λ e. (cuts.3 e).0) in
    let q2 = next_line q1.0.1 in
    let (_, lr1) = Lacks-split quote (literals (shown q1.0.0)) q1.0.1.0 (rw n1.0.0 lr) in
    let n2 = next_line-Reads q1.0.1.0 q1.0.1.1 lr1 n1.0.3 in
    let q3 = next_line q2.0.1 in
    let (_, lr2) = Lacks-split quote (literals (shown q2.0.0)) q2.0.1.0 (rw n2.0.0 lr1) in
    let n3 = next_line-Reads q2.0.1.0 q2.0.1.1 lr2 n2.0.3 in
    let (_, lr3) = Lacks-split quote (literals (shown q3.0.0)) q3.0.1.0 (rw n3.0.0 lr2) in
    let n = c0 + q1.1 + q2.1 + q3.1 in
    let n4 =
      last_line-Reads n q3.0.1.0 q3.0.1.1 (omega (arith, takes.2, n1.0.2, n2.0.2, n3.0.2)) lr3
        n3.0.3 in
    let q4 = last_line n q3.0.1 in
    let g = gathered-Gathers size s p0 r0 e0 c0 q1 q2 q3 q4 (k, lack) lp fits takes n1 n2 n3 n4 in
    let done = Gathers-IsItem s q4.1 _ _ _ g in
    let behind : Line → List Bytes × (Bytes × Bool) = λ l.
      let k1 = next_line l.1 in
      let k2 = next_line k1.0.1 in
      let k3 = next_line k2.0.1 in
      gathered (l, c0) k1 k2 k3 (last_line (c0 + k1.1 + k2.1 + k3.1) k3.0.1) in
    rw (item_eq s ∙ ap behind q) done
