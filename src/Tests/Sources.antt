-- ===== src/Tests/Sources.antt =====
-- Pictures, and a source that is copied, by the precompiler.
use cobol.Prelude.{
  Lacks, All, Bytes, List, [], arith, codes, false, refl, some, str_eq, true, ℕ, ◌++◌, ◌∷◌, ◌≡◌,
  ◌≤◌,
}
use cobol.Util.{cstr}
use cobol.Connect.Info.{last_cut}
use cobol.Precompiler.Names.{filename_id-Lacks, filename_id, identified}
use cobol.Precompiler.Picture.{build_picture}
use cobol.Precompiler.Picture.Numbers.{value, build_picture-decimal}
use cobol.Precompiler.Copying.{Placed, com_readline, has_mark, ppoutput}
use cobol.Precompiler.Copying.Every.{
  generated_of, IsReady, AreFollowing, IsUnmarked, ppoutput-every,
}
use cobol.Precompiler.Fields.{CbField, Usage}
use cobol.Precompiler.Calls.Varying.{varying_lines}
use cobol.Tests.Calls.{group_field, execute_employee}

five : value 0 (codes "05") ≡ 5
unfolding value
five = refl

two : value 0 (codes "2") ≡ 2
unfolding value
two = refl

-- PIC S9(05)V9(2)
build_picture-decimal_example :
    build_picture (codes "S9(05)V9(2)") group_field
    ≡ some (record group_field { picnsize = 7; scale = 2; have_sign = true; pictype = 2 })
unfolding value
build_picture-decimal_example =
    build_picture-decimal (codes "05") (codes "2") group_field (refl, (refl, tt)) (refl, tt)
      (ground arith) (ground arith) (omega (arith, five)) (omega (arith, two))

-- A source of five lines, with statements in the second and the third.
abbrev five_lines : List Bytes
five_lines =
    (codes "A." ++ (10 ∷ []))
    ∷ (codes "EXEC" ++ (10 ∷ []))
    ∷ (codes "EXEC" ++ (10 ∷ []))
    ∷ (codes "B." ++ (10 ∷ []))
    ∷ (codes "C." ++ (10 ∷ []))
    ∷ []

abbrev placed : ℕ → Placed
placed n = record { start_line = n; end_line = n; statement = execute_employee }

five_lines-IsUnmarked : All IsUnmarked five_lines
unfolding com_readline has_mark cstr
five_lines-IsUnmarked =
    ((λ b. refl), ((λ b. refl), ((λ b. refl), ((λ b. refl), ((λ b. refl), tt)))))

placed-IsReady : (m n : ℕ) → m ≤ n → IsReady m (placed n)
unfolding str_eq
placed-IsReady m n h = record {
  in_order = omega arith;
  unfinished = omega (arith, h);
  mark_ahead = λ e. cc e;
}

placed-following : AreFollowing 5 (placed 2) (placed 3 ∷ [])
unfolding AreFollowing
placed-following = (placed-IsReady 3 3 (omega arith), omega arith)

ppoutput-every_example :
    generated_of (ppoutput five_lines 0 [] (placed 2, placed 3 ∷ [])) ≡ placed 2 ∷ placed 3 ∷ []
ppoutput-every_example =
    ppoutput-every five_lines [] (placed 2) (placed 3 ∷ []) five_lines-IsUnmarked
      (placed-IsReady 0 2 (omega arith)) placed-following

abbrev title : CbField
title = record {
  sname = codes "TITLE";
  level = 3;
  usage = Usage.none_given;
  occurs = 0;
  pictype = 4;
  picnsize = 10;
  scale = 0;
  have_sign = false;
  sign_leading = false;
  separate = false;
}

-- Ten characters of two bytes get the room of ten bytes.
title_lines :
    varying_lines (codes "         03 TITLE PIC N(10) VARYING.") title
    ≡ codes "OCESQL   03 TITLE."
      ∷ codes "OCESQL     04 TITLE-LEN PIC S9(8) COMP-5."
      ∷ codes "OCESQL     04 TITLE-ARR PIC X(10)."
      ∷ []
unfolding varying_lines
title_lines = refl

filename_id-Lacks_example :
    Lacks b'-' (filename_id (codes "src/my-prog.cbl"))
    × Lacks b'.' (filename_id (codes "src/my-prog.cbl"))
    × Lacks b'/' (filename_id (codes "src/my-prog.cbl"))
filename_id-Lacks_example = filename_id-Lacks (codes "src/my-prog.cbl")

names_a_cursor : filename_id (codes "src/my-prog.cbl") ≡ codes "my_prog"
unfolding filename_id identified last_cut
names_a_cursor = refl
