-- ===== src/Precompiler/Filler.antt =====
-- ocesql/ppout.c: the text of a statement becomes the value of a group of COBOL items, in lines of
-- at most 72 columns (`sql_string`). A text is its bytes before the NUL; `EOFFLG` is passed on.
pub mod Lines
pub mod Closing
pub mod Sizes
pub mod Gathering
pub mod Items
pub mod Whole
use cobol.Prelude.{
  ==_iff, >>=-eq-some, All, All-append, All-map, Bool, Bool-cases, Bytes, IsNeg, Lacks, List,
  Option, Option-cases, [], ap, append-nil, append_assoc, arith, codes, drop, drop-length-append,
  eq→str_eq, false, get_elem?, get_or, if◌then◌else◌, inl, inr, is_neg, leb, leb→le, length,
  length-append, length-drop, length-replicate, length-take, ltb, ltb_ℤ, ltb→lt, lt→ltb, map, neg,
  neg_part, negsuc, none, not, pos, pos_add, pos_part, refl, replicate, some, str_eq, str_eq_iff,
  str_eq_refl, str_eq→eq, sub_ℕ, suc, sym, take, take-append-drop, take-length-append, tests, true,
  zero, ℕ, ℤ, ◌%◌, ◌&&◌, ◌*◌, ◌++◌, ◌+ℤ◌, ◌+◌, ◌-◌, ◌/◌, ◌<◌, ◌==◌, ◌>>=◌, ◌^◌, ◌||◌, ◌↔◌, ◌∙◌, ◌∷◌,
  ◌≡◌, ◌≢◌, ◌≤◌, ◌⊎◌,
}

abbrev pub quote : ℕ
quote = 34

-- The first byte of a character of two, in Shift JIS.
abbrev pub check_Dchar : ℕ → Bool
check_Dchar c = (leb 129 c && leb c 159) || (leb 224 c && leb c 239)

-- The number of such bytes at the index and before it, without a gap; index 0 is not looked at.
unfoldable pub dchars_before : ℕ → Bytes → ℕ
dchars_before zero s = 0
dchars_before (suc i) s =
    let more = dchars_before i s in if check_Dchar (get_or s (suc i) 0) then suc more else 0

-- Where `substring` cuts a text that is longer than `len`.
unfoldable pub cut_at : ℕ → Bytes → Bool → ℕ
unfolding dchars_before
cut_at len s flag_end =
    let h = dchars_before (len - 1) s + 1 in
    if leb 2 h && (h % 2 == 0) then if flag_end then len - 1 else len + 1 else len

-- `substring`: the piece, what is left, and whether that is the end.
unfoldable pub substring : ℕ → Bytes → Bool → Bytes × (Bytes × Bool)
unfolding cut_at
substring len s flag_end =
    if leb (length s) len
    then (s, ([], true))
    else (take (cut_at len s flag_end) s, (drop (cut_at len s flag_end) s, false))

-- `SQcount`
unfoldable pub sq_count : ℕ → Bytes
sq_count i =
    if ltb i 10
    then b'0' ∷ b'0' ∷ (i + 48) ∷ []
    else if leb i 99
    then b'0' ∷ (i / 10 + 48) ∷ (i % 10 + 48) ∷ []
    else if leb i 999
    then (i / 100 + 48) ∷ (i % 100 / 10 + 48) ∷ (i % 100 % 10 + 48) ∷ []
    else b'0' ∷ b'0' ∷ b'0' ∷ []

abbrev pub opening : Bytes → Bytes
opening size = codes "OCESQL     02  FILLER PIC X(" ++ (size ++ (codes ") VALUE " ++ (quote ∷ [])))

abbrev pub continuing : Bytes
continuing = codes "OCESQL  &  " ++ (quote ∷ [])

abbrev pub compsql : Bytes
compsql = codes "OCESQL  &  " ++ (quote ∷ quote ∷ b'.' ∷ [])

abbrev pub terminal : Bytes
terminal = codes "OCESQL     ."

abbrev pub final : Bytes
final = codes "OCESQL     02  FILLER PIC X(1) VALUE X" ++ (quote ∷ b'0' ∷ b'0' ∷ quote ∷ b'.' ∷ [])

abbrev pub dot : Bool → Bytes
dot eof = if eof then b'.' ∷ [] else []

-- What a line counts for in `charcount`.
abbrev pub over_full : Bytes → ℕ
over_full text = if length text == 72 then 1 else 0

-- What is known behind a line: the line, the text that is left, and `EOFFLG`.
abbrev pub Line : Type 0
Line = Bytes × (Bytes × Bool)

-- A piece between its quotation marks behind the start of a line, cut at the last column.
unfoldable pub written : Bytes → Line → Line × ℕ
written start (piece, (rest, eof)) =
    let text = start ++ (piece ++ (quote ∷ [])) in
    ((take 72 text ++ dot eof, (rest, eof)), over_full text)

unfoldable pub first_line : Bytes → Bytes → Line × ℕ
unfolding written substring
first_line size s = written (opening size) (substring 30 s false)

-- The second to the fourth line, which stay empty behind the end.
unfoldable pub next_line : Bytes × Bool → Line × ℕ
unfolding written substring
next_line (s, true) = ((continuing, (s, true)), 0)
next_line (s, false) = written continuing (substring 58 s false)

unfoldable pub closing : ℕ → Line → Line × Bool
closing charcount (piece, (rest, eof)) =
    let text = take 72 (continuing ++ (piece ++ (quote ∷ []))) in
    ((text ++ (b'.' ∷ []), (rest, eof)), not (length text == 65 - charcount) && not eof)

-- The fifth line, and whether it is cut short by one byte.
unfoldable pub last_line : ℕ → Bytes × Bool → Line × Bool
unfolding closing substring
last_line charcount (s, true) = ((continuing, (s, true)), false)
last_line charcount (s, false) = closing charcount (substring (52 - charcount) s true)

-- A line behind the first is written if it is not empty, and one that only ends the item as such.
unfoldable pub shown : Bytes → List Bytes
shown line =
    if str_eq compsql (take 14 line)
    then terminal ∷ []
    else if ltb 12 (length line)
    then line ∷ []
    else []

-- The size 255 over the one that a first line gives.
unfoldable pub marked : Bool → Bytes → Bytes
marked short line = if short then take 28 line ++ (codes "255" ++ drop 31 line) else line

abbrev pub gathered :
    Line × ℕ → Line × ℕ → Line × ℕ → Line × ℕ → Line × Bool → List Bytes × (Bytes × Bool)
gathered q0 q1 q2 q3 q4 = (
  marked q4.1 q0.0.0 ∷ (shown q1.0.0 ++ (shown q2.0.0 ++ (shown q3.0.0 ++ shown q4.0.0))),
  q4.0.1,
)

unfoldable pub item_size : Bytes → Bytes
unfolding sq_count
item_size s = if ltb (length s) 256 then sq_count (length s) else codes "256"

-- One round of the endless loop: the lines of an item of at most 256 bytes.
unfoldable pub item : Bytes → List Bytes × (Bytes × Bool)
unfolding item_size first_line next_line last_line shown marked
item s =
    let q0 = first_line (item_size s) s in
    let q1 = next_line q0.0.1 in
    let q2 = next_line q1.0.1 in
    let q3 = next_line q2.0.1 in
    let q4 = last_line (q0.1 + q1.1 + q2.1 + q3.1) q3.0.1 in gathered q0 q1 q2 q3 q4

-- The rounds, with fuel: `none` without.
unfoldable pub items : ℕ → Bytes → Option (List Bytes)
unfolding item
items zero s = none
items (suc fuel) s =
    let (lines, (rest, eof)) = item s in
    let more = items fuel rest in
    if eof then some (lines ++ (final ∷ [])) else (more >>= λ ls. some (lines ++ ls))

-- `sqlloop`: the words of the statement, with a space between two unless the second is a comma.
unfoldable pub sql_text : List Bytes → Bytes
sql_text [] = []
sql_text (w ∷ []) = w
sql_text (w ∷ v ∷ ws) = w ++ ((if str_eq v (codes ",") then [] else b' ' ∷ []) ++ sql_text (v ∷ ws))

-- `sql_string`
unfoldable pub sql_string : List Bytes → Option (List Bytes)
unfolding items sql_text
sql_string words = items (length (sql_text words) + 1) (sql_text words)

-- `outsqlfiller`, over the statements with their words and the names of their items.
unfoldable pub outsqlfiller : List (List Bytes × Bytes) → Option (List Bytes)
unfolding sql_string
outsqlfiller [] = some (codes "OCESQL*" ∷ [])
outsqlfiller (([], name) ∷ list) = outsqlfiller list
outsqlfiller (((w ∷ words), name) ∷ list) =
    let rest = outsqlfiller list in
    sql_string (w ∷ words) >>= λ lines. rest >>= λ more.
    some (codes "OCESQL*" ∷ ((codes "OCESQL 01  " ++ (name ++ codes ".")) ∷ (lines ++ more)))
