-- ===== src/Cursor/Fetch.antt =====
-- dblib/ocesql.c: rows of a result into the program's storage. `none` is a write outside the
-- code's own blocks, a value that is not there, or a walk behind the end of a list.
pub mod Select
pub mod Entries
pub mod Defaults
pub mod Handed
pub mod Selected
pub mod Rows
pub mod Fetched
pub mod Blocks
use cobol.Prelude.{
  ==_iff, >>=-eq-some, All, All-append, All-map, Bool, Bool-cases, Bytes, IsNeg, Lacks, List,
  Option, Option-cases, [], ap, append-nil, append_assoc, arith, codes, drop, drop-length-append,
  eq→str_eq, false, get_elem?, get_or, if◌then◌else◌, inl, inr, is_neg, leb, leb→le, length,
  length-append, length-drop, length-replicate, length-take, ltb, ltb_ℤ, ltb→lt, lt→ltb, map, neg,
  neg_part, negsuc, none, not, pos, pos_add, pos_part, refl, replicate, some, str_eq, str_eq_iff,
  str_eq_refl, str_eq→eq, sub_ℕ, suc, sym, take, take-append-drop, take-length-append, tests, true,
  zero, ℕ, ℤ, ◌%◌, ◌&&◌, ◌*◌, ◌++◌, ◌+ℤ◌, ◌+◌, ◌-◌, ◌/◌, ◌<◌, ◌==◌, ◌>>=◌, ◌^◌, ◌||◌, ◌↔◌, ◌∙◌, ◌∷◌,
  ◌≡◌, ◌≢◌, ◌≤◌, ◌⊎◌,
}
use cobol.Sqlca.{Sqlca, sqlca_init, lib_error}
use cobol.Sqlca.LibError
use cobol.Pg.Interface.{Libpq}
use cobol.Pg.Query.{FetchMode, next}
use cobol.Conn.{
  Driver, cursor_fetch_one, cursor_fetch_occurs, set_result_status, ntuples, nfields, getvalue,
}
use cobol.Field.Buffer.{Memory}
use cobol.Field.Occurs.{SqlVar, HostTable, create_coboldata, create_coboldata_lowvalue}
use cobol.Hostvar.{HostVars}
use cobol.Cursor.{Cursor, get_cursor_from_list}
use cobol.Cursor.Session.{Session, is_success, is_empty}
use cobol.Cursor.Prepared.{set_text}

-- A session, the host variables of its statement, and the program's storage.
pub record Program (Db Res : Type 0) : Type 0 where
  pub session : Session Db Res SqlVar
  pub host : HostVars
  pub memory : Memory

abbrev pub vars_of : HostVars → List SqlVar
vars_of h = elim h.sql_res_vars [ none ↦ [] | some vs ↦ vs ]

-- The loop over the columns of a row, with its counter, from column `col` on.
unfoldable pub write_row :
    HostTable → (ℕ → Option Bytes) → ℕ → ℕ → ℕ → List SqlVar → Memory → Option Memory
write_row t value index zero col vs m = some m
write_row t value index (suc n) col [] m = none
write_row t value index (suc n) col (sv ∷ vs) m = value col >>= λ retstr.
    create_coboldata t sv index retstr m >>= λ m'. write_row t value index n (col + 1) vs m'

-- The loop over `k` rows from row `j` on.
unfoldable pub write_rows :
    HostTable → (ℕ → ℕ → Option Bytes) → ℕ → List SqlVar → ℕ → ℕ → Memory → Option Memory
unfolding write_row
write_rows t value n vs zero j m = some m
write_rows t value n vs (suc k) j m =
    write_row t (value j) j n 0 vs m >>= λ m'. write_rows t value n vs k (j + 1) m'

unfoldable pub low_row : HostTable → ℕ → ℕ → List SqlVar → Memory → Option Memory
low_row t index zero vs m = some m
low_row t index (suc n) [] m = none
low_row t index (suc n) (sv ∷ vs) m = low_row t index n vs (create_coboldata_lowvalue t sv index m)

unfoldable pub low_rows : HostTable → ℕ → List SqlVar → ℕ → ℕ → Memory → Option Memory
unfolding low_row
low_rows t n vs zero j m = some m
low_rows t n vs (suc k) j m = low_row t j n vs m >>= λ m'. low_rows t n vs k (j + 1) m'

abbrev pub results_unmatch : Bytes
results_unmatch = codes "A number of parameters and results is unmatch."

-- An assignment to `tuples` through the pointer that `get_cursor_from_list` returns.
unfoldable pub set_tuples : {Var : Type 0} → Bytes → ℤ → List (Cursor Var) → List (Cursor Var)
set_tuples cname n [] = []
set_tuples cname n (c ∷ cs) =
    if str_eq cname c.cname then record c { tuples = n } ∷ cs else c ∷ set_tuples cname n cs

-- How many rows there are, `none` for fewer than one.
unfoldable pub some_rows : ℤ → Option ℕ
some_rows (pos zero) = none
some_rows (pos (suc k)) = some (suc k)
some_rows (negsuc k) = none

abbrev pub equals_pos : ℤ → ℕ → Bool
equals_pos a n = not (ltb_ℤ a (pos n) || ltb_ℤ (pos n) a)

abbrev pub at_most : ℕ → ℕ → ℕ
at_most n k = if ltb k n then k else n

module _ {Db Res : Type 0} (pq : Libpq Db Res) where
  -- `OCESQLCursorFetchOne` behind the status of the result.
  unfoldable pub take_row :
      Bytes → Cursor SqlVar → Sqlca → Program Db Res → Option (Program Db Res × ℕ)
  unfolding write_row set_tuples some_rows
  take_row cname c st p =
      let s = p.session in
      let h = p.host in
      if not (equals_pos (nfields pq c.connid s.driver) h.res_var_lists_length)
      then some (
        record p {
          session = record s { sqlca = set_text results_unmatch (lib_error LibError.empty st) };
        },
        1,
      )
      else elim (some_rows (ntuples pq c.connid s.driver)) [
        | none ↦
            let st' = lib_error LibError.not_found st in
            some (record p { session = record s { sqlca = record st' { sqlerrd2 = c.tuples } } }, 1)
        | some k ↦
            let n = c.tuples +ℤ st.sqlerrd2 in
            write_row h.table (λ col. getvalue pq c.connid 0 col s.driver) 0 h.res_var_lists_length
              0 (vars_of h) p.memory
            >>= λ m. some (
              record p {
                session = record s {
                  cursors = set_tuples cname n s.cursors;
                  sqlca = record st { sqlerrd2 = n };
                };
                memory = m;
              },
              0,
            )
      ]

  -- `OCESQLCursorFetchOne`
  unfoldable pub fetch_one : Bytes → Program Db Res → Option (Program Db Res × ℕ)
  unfolding is_success take_row
  fetch_one cname p =
      let s = p.session in
      if is_empty cname
      then some (record p { session = record s { sqlca = lib_error LibError.empty sqlca_init } }, 1)
      else elim (get_cursor_from_list cname s.cursors) [
        | none ↦ some (
          record p {
            session = record s { sqlca = lib_error LibError.warning_unknown_portal sqlca_init };
          },
          1,
        )
        | some c ↦
            let d1 = cursor_fetch_one pq c.connid cname next s.driver in
            let (st1, r) = set_result_status pq c.connid d1 sqlca_init in
            let p1 = record p { session = record s { driver = d1; sqlca = st1 } } in
            if is_success r then take_row cname c st1 p1 else some (p1, 1)
      ]

  -- `OCESQLCursorFetchOccurs` behind the request, whose status is not asked for.
  unfoldable pub take_rows :
      Bytes → Cursor SqlVar → Sqlca → Program Db Res → Option (Program Db Res × ℕ)
  unfolding write_rows low_rows set_tuples some_rows
  take_rows cname c st p =
      let s = p.session in
      let h = p.host in
      let t = h.table in
      let n = h.res_var_lists_length in
      if not (equals_pos (nfields pq c.connid s.driver) n)
      then some (
        record p {
          session = record s { sqlca = set_text results_unmatch (lib_error LibError.empty st) };
        },
        1,
      )
      else elim (some_rows (ntuples pq c.connid s.driver)) [
        | none ↦
            some (record p { session = record s { sqlca = lib_error LibError.not_found st } }, 0)
        | some k ↦
            let rows = at_most k t.iter in
            let total = c.tuples +ℤ pos rows in
            write_rows t (λ j col. getvalue pq c.connid j col s.driver) n (vars_of h) rows 0
              p.memory
            >>= λ m1. low_rows t n (vars_of h) (t.iter - rows) rows m1 >>= λ m2. some (
              record p {
                session = record s {
                  cursors = set_tuples cname total s.cursors;
                  sqlca = record st { sqlerrd2 = total };
                };
                memory = m2;
              },
              0,
            )
      ]

  -- `OCESQLCursorFetchOccurs`
  unfoldable pub fetch_occurs : Bytes → Program Db Res → Option (Program Db Res × ℕ)
  unfolding take_rows
  fetch_occurs cname p =
      let s = p.session in
      let iter = p.host.table.iter in
      if is_empty cname || ltb 500 iter
      then some (record p { session = record s { sqlca = lib_error LibError.empty sqlca_init } }, 1)
      else elim (get_cursor_from_list cname s.cursors) [
        | none ↦ some (
          record p {
            session = record s { sqlca = lib_error LibError.warning_unknown_portal sqlca_init };
          },
          1,
        )
        | some c ↦
            let d1 = cursor_fetch_occurs pq c.connid cname next iter s.driver in
            let p1 = record p { session = record s { driver = d1; sqlca = sqlca_init } } in
            if is_neg sqlca_init.sqlcode then some (p1, 1) else take_rows cname c sqlca_init p1
      ]
