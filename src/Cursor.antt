-- ===== src/Cursor.antt =====
-- dblib/ocesql.c: the lists of prepared statements and of cursors. A cursor's pointer into the list
-- of prepared statements, which only grows, is the index of the element. `Var` is an element of a
-- parameter list, `SQLVAR`.
pub mod Names
pub mod Session
pub mod Transaction
pub mod Life
pub mod Opened
pub mod Prepared
pub mod Fetch
use cobol.Prelude.{
  ==_iff, >>=-eq-some, All, All-append, All-map, Bool, Bool-cases, Bytes, IsNeg, Lacks, List,
  Option, Option-cases, [], ap, append-nil, append_assoc, arith, codes, drop, drop-length-append,
  eq→str_eq, false, get_elem?, get_or, if◌then◌else◌, inl, inr, is_neg, leb, leb→le, length,
  length-append, length-drop, length-replicate, length-take, ltb, ltb_ℤ, ltb→lt, lt→ltb, map, neg,
  neg_part, negsuc, none, not, pos, pos_add, pos_part, refl, replicate, some, str_eq, str_eq_iff,
  str_eq_refl, str_eq→eq, sub_ℕ, suc, sym, take, take-append-drop, take-length-append, tests, true,
  zero, ℕ, ℤ, ◌%◌, ◌&&◌, ◌*◌, ◌++◌, ◌+ℤ◌, ◌+◌, ◌-◌, ◌/◌, ◌<◌, ◌==◌, ◌>>=◌, ◌^◌, ◌||◌, ◌↔◌, ◌∙◌, ◌∷◌,
  ◌≡◌, ◌≢◌, ◌≤◌, ◌⊎◌,
}

-- `struct query_info`
pub record Prepare : Type 0 where
  pub pname : Bytes
  pub query : Bytes
  pub n_params : ℕ

pub record Cursor (Var : Type 0) : Type 0 where
  pub connid : ℕ
  pub cname : Bytes
  pub sp : Option ℕ
  pub query : Option Bytes
  pub n_params : ℕ
  pub is_opened : Bool
  pub tuples : ℤ
  pub plist : List Var

-- `add_prepare_list`: the list, and the index of the element.
unfoldable pub add_prepare_list : Bytes → Bytes → ℕ → List Prepare → List Prepare × ℕ
add_prepare_list sname query n [] = (record { pname = sname; query = query; n_params = n } ∷ [], 0)
add_prepare_list sname query n (p ∷ ps) =
    let (qs, i) = add_prepare_list sname query n ps in
    if str_eq p.pname sname
    then (record p { query = query; n_params = n } ∷ ps, 0)
    else (p ∷ qs, suc i)

unfoldable pub get_prepare_from_list : Bytes → List Prepare → Option ℕ
get_prepare_from_list sname [] = none
get_prepare_from_list sname (p ∷ ps) =
    if str_eq p.pname sname then some 0 else (get_prepare_from_list sname ps >>= λ i. some (suc i))

module _ {Var : Type 0} where
  -- The assignments of `add_cursor_list` to an element, old or new; `sp` stays as it is.
  abbrev pub declared : ℕ → Bytes → ℕ → List Var → Cursor Var → Cursor Var
  declared id query n vars c = record c {
    connid = id;
    query = some query;
    n_params = n;
    plist = if ltb 0 n then vars else [];
    is_opened = false;
    tuples = pos 0;
  }

  abbrev pub prepared : ℕ → ℕ → Cursor Var → Cursor Var
  prepared id sp c = record c { connid = id; sp = some sp; is_opened = false; tuples = pos 0 }

  -- `new_cursor_list`, with the name.
  abbrev pub new_cursor : Bytes → Cursor Var
  new_cursor cname = record {
    connid = 0;
    cname = cname;
    sp = none;
    query = none;
    n_params = 0;
    is_opened = false;
    tuples = pos 0;
    plist = [];
  }

  -- The walk of both functions that add a cursor: `set` is assigned to the element of the name, or
  -- to a new one at the end. An open cursor is refused, with `none` for `RESULT_FAILED`.
  pub add_with : Bytes → (Cursor Var → Cursor Var) → List (Cursor Var) → Option (List (Cursor Var))
  add_with cname set [] = some (set (new_cursor cname) ∷ [])
  add_with cname set (c ∷ cs) =
      let rest = add_with cname set cs in
      if str_eq cname c.cname
      then if c.is_opened then none else some (set c ∷ cs)
      else (rest >>= λ ds. some (c ∷ ds))

  abbrev pub complete : ℕ → Option (List Var) → Bool
  complete n vars = if ltb 0 n then elim vars [ none ↦ false | some vs ↦ true ] else true

  -- `vars` is the list that `_sql_var_lists` holds, or NULL. `none` is `RESULT_FAILED`, and `false`
  -- behind the list is `RESULT_ERROR`: the element has been assigned, without parameters.
  unfoldable pub add_cursor_list :
      ℕ
      → Bytes
      → Bytes
      → ℕ
      → Option (List Var)
      → List (Cursor Var)
      → Option (List (Cursor Var) × Bool)
  add_cursor_list id cname query n vars cs =
      add_with cname (declared id query n (elim vars [ none ↦ [] | some vs ↦ vs ])) cs >>= λ ds.
      some (ds, complete n vars)

  unfoldable pub add_cursor_list_with_prepare :
      ℕ → Bytes → ℕ → List (Cursor Var) → Option (List (Cursor Var))
  add_cursor_list_with_prepare id cname sp cs = add_with cname (prepared id sp) cs

  unfoldable remove_cursor_list : Bytes → List (Cursor Var) → List (Cursor Var)
  remove_cursor_list cname [] = []
  remove_cursor_list cname (c ∷ cs) =
      if str_eq cname c.cname then cs else c ∷ remove_cursor_list cname cs

  -- What `_clear_cursor_list` does to one element.
  abbrev pub closed : ℕ → Cursor Var → Cursor Var
  closed id c = if c.connid == id then record c { is_opened = false } else c

  pub clear_cursor_list : ℕ → List (Cursor Var) → List (Cursor Var)
  clear_cursor_list id [] = []
  clear_cursor_list id (c ∷ cs) = closed id c ∷ clear_cursor_list id cs

  unfoldable pub get_cursor_from_list : Bytes → List (Cursor Var) → Option (Cursor Var)
  get_cursor_from_list cname [] = none
  get_cursor_from_list cname (c ∷ cs) =
      if str_eq cname c.cname then some c else get_cursor_from_list cname cs
