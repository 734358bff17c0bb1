-- ===== src/Precompiler/Copying.antt =====
-- ocesql/ppout.c: `ppoutput` copies the source line by line, makes comments of the lines of each
-- statement, and writes the statement's calls behind them. `inbuff` is all its bytes, since what
-- an earlier line left there is seen again behind a shorter one.
pub mod Every
use cobol.Prelude.{
  ==_iff, >>=-eq-some, All, All-append, All-map, Bool, Bool-cases, Bytes, IsNeg, Lacks, List,
  Option, Option-cases, [], ap, append-nil, append_assoc, arith, codes, drop, drop-length-append,
  eq→str_eq, false, get_elem?, get_or, if◌then◌else◌, inl, inr, is_neg, leb, leb→le, length,
  length-append, length-drop, length-replicate, length-take, ltb, ltb_ℤ, ltb→lt, lt→ltb, map, neg,
  neg_part, negsuc, none, not, pos, pos_add, pos_part, refl, replicate, some, str_eq, str_eq_iff,
  str_eq_refl, str_eq→eq, sub_ℕ, suc, sym, take, take-append-drop, take-length-append, tests, true,
  zero, ℕ, ℤ, ◌%◌, ◌&&◌, ◌*◌, ◌++◌, ◌+ℤ◌, ◌+◌, ◌-◌, ◌/◌, ◌<◌, ◌==◌, ◌>>=◌, ◌^◌, ◌||◌, ◌↔◌, ◌∙◌, ◌∷◌,
  ◌≡◌, ◌≢◌, ◌≤◌, ◌⊎◌,
}
use cobol.Util.{cstr}
use cobol.Precompiler.Calls.{ExecList}

-- A statement with its `startLine` and `endLine`.
pub record Placed : Type 0 where
  pub start_line : ℕ
  pub end_line : ℕ
  pub statement : ExecList

-- What is written: a text, what `ppbuff` writes of a statement, or a line feed.
pub data Written : Type 0 where
  copied : Bytes → Written
  generated : Placed → Written
  line_feed : Written

-- Where the list `l` of statements stands, and what follows in it.
abbrev pub Position : Type 0
Position = Placed × List Placed

-- A line that ends in CR and LF ends in LF.
unfoldable pub unix_end : Bytes → Bytes
unix_end [] = []
unix_end (c ∷ []) = c ∷ []
unix_end (c ∷ d ∷ []) = if c == 13 && d == 10 then 10 ∷ [] else c ∷ d ∷ []
unix_end (c ∷ d ∷ e ∷ s) = c ∷ unix_end (d ∷ e ∷ s)

-- `com_readline` of a line of at most 255 bytes.
unfoldable pub com_readline : Bytes → Bytes → Bytes
unfolding unix_end
com_readline text inbuff =
    let t = unix_end text in
    t ++ (replicate (suc (length text - length t)) 0 ++ drop (suc (length text)) inbuff)

abbrev pub starts_with : Bytes → Bytes → Bool
starts_with [] s = true
starts_with (c ∷ p) [] = false
starts_with (c ∷ p) (d ∷ s) = c == d && starts_with p s

-- `strstr(s, p) != NULL`
unfoldable pub contains : Bytes → Bytes → Bool
contains p [] = starts_with p []
contains p (c ∷ s) = starts_with p (c ∷ s) || contains p s

-- `INC_START_MARK` or `INC__END__MARK`
unfoldable pub has_mark : Bytes → Bool
unfolding contains
has_mark s = contains (replicate 72 b'>') s || contains (replicate 72 b'<') s

-- `inbuff[0] = 'O'` to `inbuff[6] = '*'`
abbrev pub commented : Bytes → Bytes
commented inbuff = codes "OCESQL*" ++ drop 7 inbuff

abbrev pub is_begin : Placed → Bool
is_begin l = str_eq l.statement.command_name (codes "WORKING_BEGIN")

abbrev pub is_end : Placed → Bool
is_end l = str_eq l.statement.command_name (codes "WORKING_END")

abbrev pub within : Placed → ℕ → Bool
within l n = leb l.start_line n && leb n l.end_line

-- `if (l->next != NULL) l = l->next;`
abbrev pub advance : Position → Position
advance (l, []) = (l, [])
advance (l, k ∷ ks) = (k, ks)

-- A line of a statement.
unfoldable pub inside_step : Bool → Bytes → Position → List Written × (Bytes × Position)
inside_step eof inbuff (l, ls) =
    let b = if is_begin l || is_end l then inbuff else commented inbuff in
    (
      (if is_end l then generated l ∷ [] else [])
          ++ (copied (cstr b) ∷ (if eof then line_feed ∷ [] else [])),
      (b, (l, ls)),
    )

-- The line behind a statement.
unfoldable pub behind_step : ℕ → Bytes → Position → List Written × (Bytes × Position)
behind_step n inbuff (l, ls) =
    let p = advance (l, ls) in
    let b =
      if within p.0 n && not (is_begin p.0) && not (is_end p.0) then commented inbuff else inbuff in
    ((if is_end l then [] else generated l ∷ []) ++ (copied (cstr b) ∷ []), (b, p))

-- What the loop does with the line `n`, which is in `inbuff`.
unfoldable pub copy_step : Bool → ℕ → Bytes → Position → List Written × (Bytes × Position)
unfolding has_mark inside_step behind_step
copy_step eof n inbuff (l, ls) =
    if has_mark (cstr inbuff)
    then ([], (inbuff, (l, ls)))
    else if within l n
    then inside_step eof inbuff (l, ls)
    else if n == l.end_line + 1
    then behind_step n inbuff (l, ls)
    else (copied (cstr inbuff) ∷ [], (inbuff, (l, ls)))

-- The loop of `ppoutput`, behind `n` lines; at the end of the file `inbuff` holds the last one still.
unfoldable pub ppoutput : List Bytes → ℕ → Bytes → Position → List Written
unfolding copy_step com_readline
ppoutput [] n inbuff p = (copy_step true (suc n) inbuff p).0
ppoutput (t ∷ ts) n inbuff p =
    let (w, (b, q)) = copy_step false (suc n) (com_readline t inbuff) p in
    w ++ ppoutput ts (suc n) b q
