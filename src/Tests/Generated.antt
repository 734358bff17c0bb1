-- ===== src/Tests/Generated.antt =====
-- Lines that the precompiler writes for a statement.
use cobol.Prelude.{
  All, Bytes, List, [], arith, codes, false, refl, replicate, some, str_eq, ◌++◌, ◌∷◌, ◌≡◌,
}
use cobol.Precompiler.Filler.{sql_text, sql_string, item, final, substring}
use cobol.Precompiler.Filler.Lines.{literals, Short}
use cobol.Precompiler.Filler.Items.{IsItem, item-IsItem}
use cobol.Precompiler.Filler.Whole.{sql_string-lines}

abbrev select_words : List Bytes
select_words = codes "SELECT" ∷ codes "NAME" ∷ codes "," ∷ codes "AGE" ∷ codes "FROM EMPLOYEES" ∷ []

select_text : sql_text select_words ≡ codes "SELECT NAME, AGE FROM EMPLOYEES"
unfolding sql_text str_eq
select_text = refl

sql_string-lines_example :
    (lines : List Bytes) × (sql_string select_words ≡ some (lines ++ (final ∷ [])))
    × (literals lines ≡ sql_text select_words)
    × All Short lines
unfolding sql_text str_eq
sql_string-lines_example = sql_string-lines select_words (ground arith)

item-IsItem_example : IsItem (codes "COMMIT") (item (codes "COMMIT"))
item-IsItem_example = item-IsItem (codes "COMMIT") (ground arith)

-- A character of two bytes behind 29 of one is not divided,
kept_whole :
    substring 30 (replicate 29 b' ' ++ (130 ∷ 130 ∷ 130 ∷ 130 ∷ [])) false
    ≡ (replicate 29 b' ' ++ (130 ∷ 130 ∷ []), (130 ∷ 130 ∷ [], false))
unfolding substring
kept_whole = refl

-- but one of a text that has no others is.
divided : substring 30 (replicate 34 130) false ≡ (replicate 31 130, (replicate 3 130, false))
unfolding substring
divided = refl
