-- ===== src/Hostvar.antt =====
-- dblib/ocesql.c: the host variables of one statement, which the entry points between
-- `OCESQLStartSQL` and `OCESQLEndSQL` collect in global lists. Behind the elements of a list stands
-- an empty one, which is left out here; a list that is not there is `none`.
pub mod Counts
use cobol.Prelude.{
  ==_iff, >>=-eq-some, All, All-append, All-map, Bool, Bool-cases, Bytes, IsNeg, Lacks, List,
  Option, Option-cases, [], ap, append-nil, append_assoc, arith, codes, drop, drop-length-append,
  eq→str_eq, false, get_elem?, get_or, if◌then◌else◌, inl, inr, is_neg, leb, leb→le, length,
  length-append, length-drop, length-replicate, length-take, ltb, ltb_ℤ, ltb→lt, lt→ltb, map, neg,
  neg_part, negsuc, none, not, pos, pos_add, pos_part, refl, replicate, some, str_eq, str_eq_iff,
  str_eq_refl, str_eq→eq, sub_ℕ, suc, sym, take, take-append-drop, take-length-append, tests, true,
  zero, ℕ, ℤ, ◌%◌, ◌&&◌, ◌*◌, ◌++◌, ◌+ℤ◌, ◌+◌, ◌-◌, ◌/◌, ◌<◌, ◌==◌, ◌>>=◌, ◌^◌, ◌||◌, ◌↔◌, ◌∙◌, ◌∷◌,
  ◌≡◌, ◌≢◌, ◌≤◌, ◌⊎◌,
}
use cobol.Field.Buffer.{Memory}
use cobol.Field.Store.{field_type}
use cobol.Field.Occurs.{SqlVar, HostTable, set_host_table, create_realdata}

-- A parameter of a statement, with the `realdata` that was made of it.
abbrev pub Param : Type 0
Param = SqlVar × Bytes

-- `_sql_var_lists`, `_sql_res_var_lists`, their lengths, and the table.
pub record HostVars : Type 0 where
  pub sql_vars : Option (List Param)
  pub sql_res_vars : Option (List SqlVar)
  pub var_lists_length : ℕ
  pub res_var_lists_length : ℕ
  pub table : HostTable

abbrev pub no_table : HostTable
no_table = record { iter = 0; occurs_length = 0; is_parent = false }

-- `reset_sql_var_list`
unfoldable pub reset_sql_var_list : HostVars
reset_sql_var_list = record {
  sql_vars = none;
  sql_res_vars = none;
  var_lists_length = 0;
  res_var_lists_length = 0;
  table = no_table;
}

-- `init_sql_var_list`, which is `OCESQLStartSQL`.
unfoldable pub start_sql : HostVars
unfolding reset_sql_var_list
start_sql = record reset_sql_var_list { sql_vars = some []; sql_res_vars = some [] }

-- `OCESQLEndSQL`
unfoldable pub end_sql : HostVars
unfolding reset_sql_var_list
end_sql = reset_sql_var_list

-- The checks of `OCESQLSetSQLParams` and `OCESQLSetResultParams`; the types are from 0 to 32.
unfoldable pub checked_var : ℤ → ℤ → ℤ → ℕ → Option SqlVar
unfolding field_type
checked_var (negsuc t) length power addr = none
checked_var (pos t) (negsuc n) power addr = none
checked_var (pos t) (pos n) power addr =
    if ltb 32 t || addr == 0
    then none
    else some (record { type = field_type t; length = n; power = power; addr = addr })

-- `add_sql_var_list`; the outer `none` is a block of `create_realdata` that is too small.
unfoldable pub add_sql_var_list : SqlVar → Memory → HostVars → Option (HostVars × ℕ)
add_sql_var_list sv m h = elim h.sql_vars [
  | none ↦ some (h, 1)
  | some vs ↦ create_realdata h.table sv 0 m >>= λ realdata. some (
    record h {
      sql_vars = some (vs ++ ((sv, realdata) ∷ []));
      var_lists_length = h.var_lists_length + 1;
    },
    0,
  )
]

unfoldable pub add_sql_res_var_list : SqlVar → HostVars → HostVars × ℕ
add_sql_res_var_list sv h = elim h.sql_res_vars [
  | none ↦ (h, 1)
  | some vs ↦ (
    record h {
      sql_res_vars = some (vs ++ (sv ∷ []));
      res_var_lists_length = h.res_var_lists_length + 1;
    },
    0,
  )
]

unfoldable pub set_sql_params : ℤ → ℤ → ℤ → ℕ → Memory → HostVars → Option (HostVars × ℕ)
unfolding checked_var add_sql_var_list
set_sql_params type length power addr m h = elim (checked_var type length power addr) [
  | none ↦ some (h, 1)
  | some sv ↦ add_sql_var_list sv m h
]

unfoldable pub set_result_params : ℤ → ℤ → ℤ → ℕ → HostVars → HostVars × ℕ
unfolding checked_var add_sql_res_var_list
set_result_params type length power addr h = elim (checked_var type length power addr) [
  | none ↦ (h, 1)
  | some sv ↦ add_sql_res_var_list sv h
]

-- `OCESQLSetHostTable`
unfoldable pub set_table : ℤ → ℤ → Bool → HostVars → HostVars × ℕ
set_table iter length is_parent h = elim (set_host_table iter length is_parent) [
  | none ↦ (h, 1)
  | some t ↦ (record h { table = t }, 0)
]
