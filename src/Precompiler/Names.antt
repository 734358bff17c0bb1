-- ===== src/Precompiler/Names.antt =====
-- ocesql/ocesql.c: the names of the files that the precompiler reads and writes (`file_basename`,
-- `gettranslatename`, `gettmpname`, `cb_get_env`), and the prefix of cursor names that `main` makes.
-- `none` is a write behind a buffer of `BUFFSIZE` bytes.
use cobol.Prelude.{
  Bool-cases, inl, inr, ◌⊎◌, Bytes, Option, [], ap, append_assoc, arith, codes, drop, if◌then◌else◌,
  length, length-append, lt→ltb, ltb, none, refl, some, suc, take, take-length-append, ℕ, ◌++◌, ◌+◌,
  ◌-◌, ◌<◌, ◌==◌, ◌>>=◌, ◌∷◌, ◌≡◌, ◌∙◌, true, Lacks,
}
use cobol.Connect.Info.{last_cut, last_cut-append}
use cobol.Pg.Query.{show}

abbrev buffsize : ℕ
buffsize = 256

-- Where the text starts behind the last `/`.
abbrev start_at : Bytes × Option Bytes → ℕ
start_at (before, none) = 0
start_at (before, some t) = suc (length before)

-- Where the last `.` stands; a null pointer is before every start.
abbrev end_at : Bytes × Option Bytes → ℕ
end_at (before, none) = 0
end_at (before, some t) = length before

unfoldable pub file_basename : Bytes → Option Bytes
unfolding last_cut
file_basename filename =
    let startp = start_at (last_cut b'/' filename) in
    let endp = end_at (last_cut b'.' filename) in
    let rest = drop startp filename in
    let len = if ltb startp endp then endp - startp else length rest in
    if ltb len buffsize then some (take len rest) else none

unfoldable pub gettranslatename : Bytes → Option Bytes
unfolding file_basename
gettranslatename name = file_basename name >>= λ base.
    let buff = codes "preeql" ++ (base ++ codes ".cob") in
    if ltb (length buff) buffsize then some buff else none

unfoldable gettmpname : ℕ → Bytes → Option Bytes
unfolding show
gettmpname processid name =
    let buff = codes "cob" ++ (show processid ++ name) in
    if ltb (length buff) buffsize then some buff else none

-- The environment is an argument.
unfoldable cb_get_env : (Bytes → Option Bytes) → Bytes → ℕ → Option Bytes
cb_get_env getenv filename num =
    let path =
      if num == 1
      then getenv (codes "OPNCBL_COBDIR")
      else if num == 2
      then getenv (codes "OPNCBL_SRCDIR")
      else if num == 3
      then getenv (codes "OPNCBL_EROUT")
      else none in
    elim path [
      | none ↦ some filename
      | some p ↦ if ltb (length (p ++ filename)) buffsize then some (p ++ filename) else none
    ]

-- The loop over `tempid`, which a NUL ends.
unfoldable pub identified : Bytes → Bytes
identified [] = []
identified (d ∷ s) =
    let rest = identified s in if d == b'-' then b'_' ∷ rest else if d == b'.' then [] else d ∷ rest

-- `filenameID`
abbrev last_part : Bytes × Option Bytes → Bytes
last_part (before, none) = before
last_part (before, some t) = t

unfoldable pub filename_id : Bytes → Bytes
unfolding last_cut identified
filename_id fileandpath = identified (last_part (last_cut b'/' fileandpath))

-- A file in a directory, with an extension.
abbrev pub path_of : Bytes → Bytes → Bytes → Bytes
path_of dir name ext = dir ++ (b'/' ∷ (name ++ (b'.' ∷ ext)))

Lacks-path :
    (name ext : Bytes) → Lacks b'/' name → Lacks b'/' ext → Lacks b'/' (name ++ (b'.' ∷ ext))
Lacks-path [] ext h e = ((λ q. absurd (ground (arith, q))), e)
Lacks-path (d ∷ name) ext (n, h) e = (n, Lacks-path name ext h e)

start_at-path_of :
    (dir name ext : Bytes)
    → Lacks b'/' name
    → Lacks b'/' ext
    → start_at (last_cut b'/' (path_of dir name ext)) ≡ suc (length dir)
start_at-path_of dir name ext h e =
    ap start_at (last_cut-append b'/' dir (name ++ (b'.' ∷ ext)) (Lacks-path name ext h e))

end_at-path_of :
    (dir name ext : Bytes)
    → Lacks b'.' ext
    → end_at (last_cut b'.' (path_of dir name ext)) ≡ suc (length dir) + length name
end_at-path_of dir name ext e = rw (← append_assoc dir (b'/' ∷ name) (b'.' ∷ ext)) (
    ap end_at (last_cut-append b'.' (dir ++ (b'/' ∷ name)) ext e)
    ∙ omega (arith, length-append dir (b'/' ∷ name)))

drop-behind : (c : ℕ) (s t : Bytes) → drop (suc (length s)) (s ++ (c ∷ t)) ≡ t
drop-behind c [] t = refl
drop-behind c (d ∷ s) t = drop-behind c s t

-- The base name of a file in any directory, with an extension behind its last `.`, is the name
-- without both, if it is not empty and fits the buffer.
pub file_basename_lem :
    (dir name ext : Bytes)
    → Lacks b'/' name
    → Lacks b'/' ext
    → Lacks b'.' ext
    → 0 < length name
    → length name < 256
    → file_basename (path_of dir name ext) ≡ some name
unfolding file_basename
file_basename_lem dir name ext h e x p q =
    let longer : ltb (suc (length dir)) (suc (length dir) + length name) ≡ true =
      lt→ltb _ _ (omega arith) in
    let rest : suc (length dir) + length name - suc (length dir) ≡ length name = omega arith in
    rw (start_at-path_of dir name ext h e) (
      rw (end_at-path_of dir name ext x) (
        rw (drop-behind b'/' dir (name ++ (b'.' ∷ ext))) (
          rw longer (
            rw rest (
              rw (lt→ltb (length name) buffsize q)
                (ap some (take-length-append name (b'.' ∷ ext))))))))

identified-Lacks :
    (s : Bytes)
    → Lacks b'/' s
    → Lacks b'-' (identified s) × Lacks b'.' (identified s) × Lacks b'/' (identified s)
unfolding identified
identified-Lacks [] h = (h, h, h)
identified-Lacks (d ∷ s) (n, h) =
    let (a, b, c) = identified-Lacks s h in
    elim (Bool-cases (d == b'-')) [
      | inl e ↦ rw e (
        ((λ q. absurd (ground (arith, q))), a),
        ((λ q. absurd (ground (arith, q))), b),
        ((λ q. absurd (ground (arith, q))), c),
      )
      | inr e ↦ elim (Bool-cases (d == b'.')) [
        | inl f ↦ rw (e, f) (tt, tt, tt)
        | inr f ↦
            rw (e, f)
              (
                ((λ q. absurd (ground (arith, e, q))), a),
                ((λ q. absurd (ground (arith, f, q))), b),
                (n, c),
              )
      ]
    ]

last_cut-cases :
    (c : ℕ) (s : Bytes)
    → ((last_cut c s ≡ (s, none)) × Lacks c s)
      ⊎ ((b : Bytes) × (t : Bytes) × (last_cut c s ≡ (b, some t)) × Lacks c t)
unfolding last_cut
last_cut-cases c [] = inl (refl, tt)
last_cut-cases c (d ∷ s) = elim (last_cut-cases c s) [
  | inr (b, t, e, h) ↦ inr (d ∷ b, t, ground (arith, e), h)
  | inl (e, h) ↦ elim (Bool-cases (d == c)) [
    | inl f ↦ inr ([], s, rw e (rw f refl), h)
    | inr f ↦ inl (rw e (rw f refl), ((λ q. absurd (ground (arith, f, q))), h))
  ]
]

-- A prefix of cursor names has no `-`, no `.` and no `/`, whatever file it is made of.
pub filename_id-Lacks :
    (f : Bytes)
    → Lacks b'-' (filename_id f) × Lacks b'.' (filename_id f) × Lacks b'/' (filename_id f)
unfolding filename_id
filename_id-Lacks f = elim (last_cut-cases b'/' f) [
  | inl (e, h) ↦ rw e (identified-Lacks f h)
  | inr (b, t, e, h) ↦ rw e (identified-Lacks t h)
]
