-- ===== src/Precompiler/Calls/Varying.antt =====
-- The lines of `ppbuff` of ocesql/ppout.c for a field with a VARYING clause: the field becomes a group
-- of its length and its text, after `parameter_split`. A level has at most two digits.
use cobol.Prelude.{
  Bytes, List, [], codes, drop, if◌then◌else◌, replicate, suc, ℕ, ◌%◌, ◌++◌, ◌+◌, ◌-◌, ◌/◌, ◌==◌,
  ◌∷◌,
}
use cobol.Precompiler.Fields.{CbField, vp_len, vp_arr, parameter_split}
use cobol.Precompiler.Statement.{decimal, decimal_on}

-- The index from `i` on of the first byte that is no space, in the text from there.
unfoldable skip_spaces : ℕ → Bytes → ℕ
skip_spaces i [] = i
skip_spaces i (c ∷ s) = let more = skip_spaces (suc i) s in if c == b' ' then more else i

-- `%02d`
abbrev two_digits : ℕ → Bytes
two_digits n = (n / 10 + 48) ∷ (n % 10 + 48) ∷ []

-- The part of the columns that a line begins with, up to the field in the source.
unfoldable margin : Bytes → Bytes
unfolding skip_spaces
margin inbuff = codes "OCESQL " ++ replicate (skip_spaces 6 (drop 6 inbuff) - 7) b' '

-- The field, its length, and its text, of which only the number of digits is taken.
unfoldable pub varying_lines : Bytes → CbField → List Bytes
unfolding parameter_split margin decimal_on
varying_lines inbuff f =
    let parent = (parameter_split f).0 in
    (margin inbuff ++ (two_digits parent.level ++ (codes " " ++ (parent.sname ++ codes "."))))
    ∷ (margin inbuff
        ++ (codes "  "
            ++ (two_digits (vp_len f).level
                ++ (codes " " ++ ((vp_len f).sname ++ codes " PIC S9(8) COMP-5.")))))
    ∷ (margin inbuff
        ++ (codes "  "
            ++ (two_digits (vp_arr f).level
                ++ (codes " "
                    ++ ((vp_arr f).sname
                        ++ (codes " PIC X(" ++ (decimal (vp_arr f).picnsize ++ codes ").")))))))
    ∷ []
