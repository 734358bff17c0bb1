-- ===== src/Connect/Info.antt =====
-- dblib/ocesql.c: the name of a database, `name@host:port`, and the text for libpq
-- (`_ocesqlConnectMain`).
use cobol.Prelude.{
  Bytes, Lacks, Option, [], arith, codes, if◌then◌else◌, length, length-append, ltb, lt→ltb, none,
  refl, some, ℕ, ◌++◌, ◌+◌, ◌<◌, ◌==◌, ◌∷◌, ◌≡◌, ◌≢◌, ◌≤◌,
}
use cobol.Cursor.Session.{is_empty}

-- `strchr` and a NUL in its place: the text before the first `c`, and the one behind it.
unfoldable pub first_cut : ℕ → Bytes → Bytes × Option Bytes
first_cut c [] = ([], none)
first_cut c (d ∷ s) =
    let (before, behind) = first_cut c s in if d == c then ([], some s) else (d ∷ before, behind)

-- `strrchr` and a NUL in its place.
unfoldable pub last_cut : ℕ → Bytes → Bytes × Option Bytes
last_cut c [] = ([], none)
last_cut c (d ∷ s) =
    let (before, behind) = last_cut c s in
    elim behind [
      | some t ↦ (d ∷ before, some t)
      | none ↦ if d == c then ([], some s) else (d ∷ s, none)
    ]

-- `real_dbname`, `dbhost` and `dbport`.
pub record Target : Type 0 where
  pub dbname : Option Bytes
  pub host : Option Bytes
  pub port : Option Bytes

unfoldable pub parse_name : Option Bytes → Target
unfolding last_cut
parse_name none = record { dbname = none; host = none; port = none }
parse_name (some name) =
    let (rest, port) = last_cut b':' name in
    let (dbname, host) = last_cut b'@' rest in
    record { dbname = if is_empty dbname then none else some dbname; host = host; port = port }

abbrev pub strlen_or_null : Option Bytes → ℕ
strlen_or_null none = 0
strlen_or_null (some s) = length s

-- A keyword with its value: the first where a null pointer leaves both out, the second where an empty
-- text does.
unfoldable pub keyed : Bytes → Option Bytes → Bytes
keyed key none = []
keyed key (some s) = key ++ s

unfoldable pub keyed_nonempty : Bytes → Option Bytes → Bytes
keyed_nonempty key none = []
keyed_nonempty key (some []) = []
keyed_nonempty key (some (c ∷ s)) = key ++ (c ∷ s)

-- The block for the text; `sizeof` counts the NUL of its literal.
unfoldable pub connlen : Target → Option Bytes → Option Bytes → ℕ
connlen t user passwd =
    strlen_or_null t.dbname
    + strlen_or_null t.host
    + strlen_or_null t.port
    + strlen_or_null user
    + strlen_or_null passwd
    + (length (codes " host = port = dbname = user = password =") + 1)

unfoldable pub conninfo : Target → Option Bytes → Option Bytes → Bytes
unfolding keyed keyed_nonempty
conninfo t user passwd =
    keyed (codes "dbname=") t.dbname
    ++ (b' '
        ∷ (keyed (codes "host=") t.host
            ++ (b' '
                ∷ (keyed (codes "port=") t.port
                    ++ (b' '
                        ∷ (keyed_nonempty (codes "user=") user
                            ++ (b' ' ∷ keyed_nonempty (codes "password=") passwd)))))))

-- `connstr`: `none` if the text and its NUL do not fit the block, whose size `com_sprintf` does not
-- look at.
unfoldable pub connstr : Target → Option Bytes → Option Bytes → Option Bytes
unfolding connlen conninfo
connstr t user passwd =
    if ltb (length (conninfo t user passwd)) (connlen t user passwd)
    then some (conninfo t user passwd)
    else none

length-keyed :
    (key : Bytes) (v : Option Bytes) → length (keyed key v) ≤ length key + strlen_or_null v
unfolding keyed
length-keyed key none = omega arith
length-keyed key (some s) = omega (arith, length-append key s)

length-keyed_nonempty :
    (key : Bytes) (v : Option Bytes) → length (keyed_nonempty key v) ≤ length key + strlen_or_null v
unfolding keyed_nonempty
length-keyed_nonempty key none = omega arith
length-keyed_nonempty key (some []) = omega arith
length-keyed_nonempty key (some (c ∷ s)) = omega (arith, length-append key (c ∷ s))

length-spaced :
    (s t : Bytes) (n k : ℕ) → length s ≤ n → length t ≤ k → length (s ++ (b' ' ∷ t)) ≤ n + k + 1
length-spaced s t n k h l = omega (arith, length-append s (b' ' ∷ t))

-- The text for libpq fits its block, whatever the name, the user and the password.
pub connstr-conninfo :
    (t : Target) (user passwd : Option Bytes)
    → connstr t user passwd ≡ some (conninfo t user passwd)
unfolding connstr conninfo connlen
connstr-conninfo t user passwd =
    let name = length-keyed (codes "dbname=") t.dbname in
    let host = length-keyed (codes "host=") t.host in
    let port = length-keyed (codes "port=") t.port in
    let login = length-keyed_nonempty (codes "user=") user in
    let secret = length-keyed_nonempty (codes "password=") passwd in
    let bound = length-spaced (keyed (codes "dbname=") t.dbname) _ _ _ name (
      length-spaced (keyed (codes "host=") t.host) _ _ _ host (
        length-spaced (keyed (codes "port=") t.port) _ _ _ port
          (length-spaced (keyed_nonempty (codes "user=") user) _ _ _ login secret))) in
    let fits : length (conninfo t user passwd) < connlen t user passwd = omega (arith, bound) in
    rw (lt→ltb _ _ fits) refl

pub last_cut-absent : (c : ℕ) (s : Bytes) → Lacks c s → last_cut c s ≡ (s, none)
unfolding last_cut
last_cut-absent c [] h = refl
last_cut-absent c (d ∷ s) (n, h) = ground (arith, last_cut-absent c s h)

pub last_cut-append : (c : ℕ) (s t : Bytes) → Lacks c t → last_cut c (s ++ (c ∷ t)) ≡ (s, some t)
unfolding last_cut
last_cut-append c [] t h = rw (last_cut-absent c t h) (ground arith)
last_cut-append c (d ∷ s) t h = ground (arith, last_cut-append c s t h)

-- A name that is put together from a database, a host without `@` and a port without `:` is taken
-- apart into these, if the database is not empty.
pub parse_name_lem :
    (dbname host port : Bytes)
    → dbname ≢ []
    → Lacks b'@' host
    → Lacks b':' port
    → parse_name (some ((dbname ++ (b'@' ∷ host)) ++ (b':' ∷ port)))
      ≡ record { dbname = some dbname; host = some host; port = some port }
unfolding parse_name
parse_name_lem [] host port n h p = absurd (n refl)
parse_name_lem (c ∷ dbname) host port n h p =
    rw
      (
        last_cut-append b':' ((c ∷ dbname) ++ (b'@' ∷ host)) port p,
        last_cut-append b'@' (c ∷ dbname) host h,
      )
      refl
