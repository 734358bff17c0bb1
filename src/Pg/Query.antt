-- ===== src/Pg/Query.antt =====
-- The SQL texts that dblib/ocpgsql.c builds, and the decimal numbers in them.
use cobol.Prelude.{
  Bool, Bytes, [], codes, false, if◌then◌else◌, leb, ltb, neg, pos, suc, true, zero, ℕ, ℤ, ◌%◌,
  ◌&&◌, ◌*◌, ◌++◌, ◌+◌, ◌-◌, ◌/◌, ◌==◌, ◌||◌, ◌∷◌,
}

-- `OCDB_READ_…`
pub data FetchMode : Type 0 where
  next previous current : FetchMode

-- `%d` of a number that is not negative, with fuel for its digits.
unfoldable pub show_digits : ℕ → ℕ → Bytes → Bytes
show_digits zero n out = out
show_digits (suc fuel) n out =
    let d = b'0' + n % 10 in
    let rest = show_digits fuel (n / 10) (d ∷ out) in if ltb n 10 then d ∷ out else rest

-- A number has at most as many digits as its value and one.
unfoldable pub show : ℕ → Bytes
unfolding show_digits
show n = show_digits (n + 1) n []

-- C's `atoi`: spaces, a sign, digits.
unfoldable pub atoi_digits : ℕ → Bytes → ℕ
atoi_digits n [] = n
atoi_digits n (c ∷ s) =
    let rest = atoi_digits (n * 10 + (c - b'0')) s in if leb b'0' c && leb c b'9' then rest else n

unfoldable pub atoi : Bytes → ℤ
unfolding atoi_digits
atoi [] = pos 0
atoi (c ∷ s) =
    let skipped = atoi s in
    if c == b' ' || (leb 9 c && leb c 13)
    then skipped
    else if c == b'-'
    then neg (atoi_digits 0 s)
    else if c == b'+'
    then pos (atoi_digits 0 s)
    else pos (atoi_digits 0 (c ∷ s))

unfoldable pub declare_query : Bytes → Bytes → Bool → Bytes
declare_query cname query true =
    codes "DECLARE " ++ (cname ++ (codes " CURSOR WITH HOLD FOR " ++ query))
declare_query cname query false = codes "DECLARE " ++ (cname ++ (codes " CURSOR FOR " ++ query))

unfoldable pub fetch_one_query : Bytes → FetchMode → Bytes
fetch_one_query cname current =
    codes "FETCH " ++ (codes " RELATIVE " ++ (codes "0" ++ (codes " FROM " ++ cname)))
fetch_one_query cname previous =
    codes "FETCH " ++ (codes " RELATIVE " ++ (codes "-1" ++ (codes " FROM " ++ cname)))
fetch_one_query cname next =
    codes "FETCH " ++ (codes " RELATIVE " ++ (codes "1" ++ (codes " FROM " ++ cname)))

abbrev direction : FetchMode → Bytes
direction previous = codes " BACKWARD "
direction next = codes " FORWARD "
direction current = codes " FORWARD "

unfoldable pub fetch_occurs_query : Bytes → FetchMode → ℕ → Bytes
unfolding show
fetch_occurs_query cname mode count =
    codes "FETCH " ++ (direction mode ++ (show count ++ (codes " FROM " ++ cname)))

unfoldable pub close_query : Bytes → Bytes
close_query cname = codes "CLOSE " ++ cname
