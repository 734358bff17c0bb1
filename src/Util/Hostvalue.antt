-- ===== src/Util/Hostvalue.antt =====
-- dblib/ocdbutil.c: `get_str_replace_hostvalue`, which puts `$1`, `$2`, … for the host variables
-- `:name` in the text of a prepared statement.
use cobol.Prelude.{
  All, Bool, Bytes, Lacks, List, Option, [], ap, append-nil, append_assoc, arith, false,
  if◌then◌else◌, length, none, refl, some, sym, true, ℕ, ◌++◌, ◌+◌, ◌==◌, ◌||◌, ◌∙◌, ◌∷◌, ◌≡◌,
}
use cobol.Pg.Query.{show}

-- What ends a host variable's name.
abbrev ends_name : ℕ → Bool
ends_name c = c == b',' || c == b')' || c == b' '

-- `"$%d"`
abbrev pub placeholder : ℕ → Bytes
placeholder n = b'$' ∷ show n

-- The `while` loop and what stands behind it. `pending` is the text from `start` to `now`, `host`
-- is `hoststat`; the result is the text that the list of parts adds up to, and `nParams`.
unfoldable pub replace_from : Bool → Bytes → ℕ → Bytes → Bytes × ℕ
replace_from host [] n [] = ([], n)
replace_from true (p ∷ pending) n [] = (placeholder (n + 1), n + 1)
replace_from false (p ∷ pending) n [] = (p ∷ pending, n)
replace_from true pending n (c ∷ s) =
    let (named, k) = replace_from false (c ∷ []) (n + 1) s in
    let (more, l) = replace_from true (pending ++ (c ∷ [])) n s in
    if ends_name c then (placeholder (n + 1) ++ named, k) else (more, l)
replace_from false pending n (c ∷ s) =
    let (named, k) = replace_from true (c ∷ []) n s in
    let (more, l) = replace_from false (pending ++ (c ∷ [])) n s in
    if c == b':' then (pending ++ named, k) else (more, l)

unfoldable pub get_str_replace_hostvalue : Bytes → Bytes × ℕ
unfolding replace_from
get_str_replace_hostvalue target = replace_from false [] 0 target

-- A statement's text in parts: text without a colon, then names of host variables, each behind its
-- colon, with the text that follows. The text behind a name begins with a byte that ends it.
abbrev pub NamesAndTexts : Type 0
NamesAndTexts = List (Bytes × (ℕ × Bytes))

abbrev IsName : Bytes → Type 0
IsName = All (λ c. ends_name c ≡ false)

abbrev IsPart : Bytes × (ℕ × Bytes) → Type 0
IsPart (name, (c, s)) = IsName name × (ends_name c ≡ true) × Lacks b':' s

-- The name of a host variable that stands last has nothing behind it.
abbrev IsLast : Option Bytes → Type 0
IsLast none = Unit
IsLast (some name) = IsName name

abbrev pub IsStatement : Bytes → NamesAndTexts → Option Bytes → Type 0
IsStatement s parts last = Lacks b':' s × All IsPart parts × IsLast last

-- The text with the names,
unfoldable pub with_names : NamesAndTexts → Option Bytes → Bytes
with_names [] none = []
with_names [] (some name) = b':' ∷ name
with_names ((name, (c, s)) ∷ parts) last = b':' ∷ (name ++ (c ∷ (s ++ with_names parts last)))

-- and with the placeholders from `n` on.
unfoldable pub with_placeholders : ℕ → NamesAndTexts → Option Bytes → Bytes
with_placeholders n [] none = []
with_placeholders n [] (some name) = placeholder n
with_placeholders n ((name, (c, s)) ∷ parts) last =
    placeholder n ++ (c ∷ (s ++ with_placeholders (n + 1) parts last))

abbrev pub hosts : NamesAndTexts → Option Bytes → ℕ
hosts parts none = length parts
hosts parts (some name) = length parts + 1

hosts-cons :
    (name s : Bytes) (c : ℕ) (parts : NamesAndTexts) (last : Option Bytes)
    → hosts ((name, (c, s)) ∷ parts) last ≡ hosts parts last + 1
hosts-cons name s c parts none = omega arith
hosts-cons name s c parts (some l) = omega arith

replace_from-text :
    (pending s rest : Bytes) (n : ℕ)
    → Lacks b':' s
    → replace_from false pending n (s ++ rest) ≡ replace_from false (pending ++ s) n rest
unfolding replace_from
replace_from-text pending [] rest n h = rw (append-nil pending) refl
replace_from-text pending (c ∷ s) rest n (h, hs) =
    ground
      (arith, replace_from-text (pending ++ (c ∷ [])) s rest n hs, append_assoc pending (c ∷ []) s)

replace_from-name :
    (pending name rest : Bytes) (n : ℕ)
    → IsName name
    → replace_from true pending n (name ++ rest) ≡ replace_from true (pending ++ name) n rest
unfolding replace_from
replace_from-name pending [] rest n h = rw (append-nil pending) refl
replace_from-name pending (c ∷ s) rest n (h, hs) =
    ground
      (arith, replace_from-name (pending ++ (c ∷ [])) s rest n hs, append_assoc pending (c ∷ []) s)

replace_from-last :
    (name : Bytes) (n : ℕ)
    → IsName name
    → replace_from true (b':' ∷ []) n name ≡ (placeholder (n + 1), n + 1)
unfolding replace_from
replace_from-last name n h =
    ap (replace_from true (b':' ∷ []) n) (sym (append-nil name))
    ∙ replace_from-name (b':' ∷ []) name [] n h

replace_from-part :
    (name s rest : Bytes) (c n : ℕ)
    → IsPart (name, (c, s))
    → replace_from true (b':' ∷ []) n (name ++ (c ∷ (s ++ rest))) ≡ (
      placeholder (n + 1) ++ (replace_from false (c ∷ s) (n + 1) rest).0,
      (replace_from false (c ∷ s) (n + 1) rest).1,
    )
unfolding replace_from
replace_from-part name s rest c n (hn, hc, hs) =
    replace_from-name (b':' ∷ []) name (c ∷ (s ++ rest)) n hn
    ∙ rw (hc, replace_from) (rw (replace_from-text (c ∷ []) s rest (n + 1) hs) refl)

replace_from-parts :
    (pending : Bytes) (parts : NamesAndTexts) (last : Option Bytes) (n : ℕ)
    → All IsPart parts
    → IsLast last
    → replace_from false pending n (with_names parts last)
      ≡ (pending ++ with_placeholders (n + 1) parts last, n + hosts parts last)
unfolding replace_from with_names with_placeholders
replace_from-parts [] [] none n h l = ground arith
replace_from-parts (p ∷ pending) [] none n h l = rw (append-nil pending) (ground arith)
replace_from-parts pending [] (some name) n h l = rw (replace_from-last name n l) (ground arith)
replace_from-parts pending ((name, (c, s)) ∷ parts) last n (hp, h) l =
    rw (replace_from-part name s (with_names parts last) c n hp) (
      rw (replace_from-parts (c ∷ s) parts last (n + 1) h l)
        (ground (arith, hosts-cons name s c parts last)))

-- The text of a statement keeps everything but the host variables: in the order in which they stand
-- they become `$1`, `$2`, …, and their number is the number of parameters.
pub get_str_replace_hostvalue_lem :
    (s : Bytes) (parts : NamesAndTexts) (last : Option Bytes)
    → IsStatement s parts last
    → get_str_replace_hostvalue (s ++ with_names parts last)
      ≡ (s ++ with_placeholders 1 parts last, hosts parts last)
unfolding get_str_replace_hostvalue
get_str_replace_hostvalue_lem s parts last (h, hs, hl) =
    replace_from-text [] s (with_names parts last) 0 h
    ∙ replace_from-parts s parts last 0 hs hl
    ∙ ground arith
