-- ===== src/Cursor/Fetch/Select.antt =====
-- dblib/ocesql.c: `SELECT ... INTO` host variables, and statements that run once for each element of
-- a table of host variables.
use cobol.Prelude.{
  Bytes, List, Option, [], if◌then◌else◌, length, ltb, map, none, not, some, suc, zero, ℕ, ℤ, ◌+◌,
  ◌-◌, ◌==◌, ◌>>=◌, ◌||◌, ◌∷◌,
}
use cobol.Sqlca.{Sqlca, sqlca_init, lib_error}
use cobol.Sqlca.LibError
use cobol.Pg.Interface.{Libpq}
use cobol.Conn.{Driver, exec_params, set_result_status, ntuples, nfields, getvalue}
use cobol.Field.Buffer.{Memory}
use cobol.Field.Occurs.{HostTable, create_realdata}
use cobol.Hostvar.{Param, HostVars}
use cobol.Cursor.Session.{is_success, is_empty, exec_query}
use cobol.Cursor.Life.{exec_params_query}
use cobol.Cursor.Fetch.{
  Program, vars_of, write_row, write_rows, low_rows, some_rows, equals_pos, at_most,
}

abbrev pub params_of : HostVars → List Param
params_of h = elim h.sql_vars [ none ↦ [] | some vs ↦ vs ]

-- The texts of the parameters as they were set.
abbrev pub values_of : HostVars → List (Option Bytes)
values_of h = map (λ (p : Param). some p.1) (params_of h)

-- The texts of the elements `index` of the parameters.
unfoldable pub values_at : HostTable → ℕ → Memory → List Param → Option (List (Option Bytes))
values_at t index m [] = some []
values_at t index m ((sv, old) ∷ ps) =
    let rest = values_at t index m ps in
    create_realdata t sv index m >>= λ realdata. rest >>= λ vs. some (some realdata ∷ vs)

module _ {Db Res : Type 0} (pq : Libpq Db Res) where
  -- The statement, and the status that is asked for once more behind it.
  unfoldable pub select : ℕ → Bytes → ℕ → Program Db Res → Program Db Res × ℤ
  select id query n p =
      let s = p.session in
      let s1 =
        if ltb 0 n
        then exec_params_query pq id query n (values_of p.host) s
        else exec_query pq id query s in
      let (st, r) = set_result_status pq id s1.driver s1.sqlca in
      (record p { session = record s1 { sqlca = st } }, r)

  abbrev pub failed : ℤ → Program Db Res → Program Db Res
  failed e p = record p { session = record p.session { sqlca = lib_error e p.session.sqlca } }

  -- `_ocesqlExecSelectIntoOne` behind the statement, and the whole.
  unfoldable pub take_selected : ℕ → ℕ → Program Db Res × ℤ → Option (Program Db Res)
  unfolding is_success some_rows write_row
  take_selected id n_res (p, r) =
      let d = p.session.driver in
      let h = p.host in
      if not (is_success r)
      then some p
      else if not (equals_pos (nfields pq id d) n_res)
      then some (failed LibError.empty p)
      else elim (some_rows (ntuples pq id d)) [
        | none ↦ some (failed LibError.not_found p)
        | some k ↦
            write_row h.table (λ col. getvalue pq id 0 col d) 0
              (at_most n_res h.res_var_lists_length) 0 (vars_of h) p.memory
            >>= λ m. some (record p { memory = m })
      ]

  unfoldable pub select_into_one : ℕ → Bytes → ℕ → ℕ → Program Db Res → Option (Program Db Res)
  unfolding select take_selected
  select_into_one id query n n_res p =
      if is_empty query
      then some (failed LibError.empty p)
      else take_selected id n_res (select id query n p)

  -- `_ocesqlExecSelectIntoOccurs`
  unfoldable pub select_into_occurs : ℕ → Bytes → ℕ → ℕ → Program Db Res → Option (Program Db Res)
  unfolding select is_success some_rows write_rows low_rows
  select_into_occurs id query n n_res p =
      let (p1, r) = select id query n p in
      let d = p1.session.driver in
      let h = p.host in
      let t = h.table in
      if is_empty query || ltb 500 t.iter
      then some (failed LibError.empty p)
      else if not (is_success r)
      then some p1
      else if not (equals_pos (nfields pq id d) n_res)
      then some (failed LibError.empty p1)
      else elim (some_rows (ntuples pq id d)) [
        | none ↦ some (failed LibError.not_found p1)
        | some k ↦
            let rows = at_most k t.iter in
            write_rows t (λ j col. getvalue pq id j col d) (at_most n_res h.res_var_lists_length)
              (vars_of h) rows 0 p.memory
            >>= λ m1.
                low_rows t h.res_var_lists_length (vars_of h) (t.iter - rows) rows m1 >>= λ m2.
                some (record p1 { memory = m2 })
      ]

  -- The loop of `_ocesqlExecParamsOccurs` over `k` elements from `index` on, which ends with the
  -- first statement that fails.
  unfoldable pub exec_each :
      ℕ
      → Bytes
      → ℕ
      → HostVars
      → Memory
      → ℕ
      → ℕ
      → Driver Db Res
      → Sqlca
      → Option (Driver Db Res × Sqlca)
  unfolding values_at is_success
  exec_each id query n h m zero index d st = some (d, st)
  exec_each id query n h m (suc k) index d st =
      values_at h.table index m (params_of h) >>= λ values.
      (let d1 = exec_params pq id query values d in
        let (st1, r) = set_result_status pq id d1 st in
        let rest = exec_each id query n h m k (index + 1) d1 st1 in
        if not (length values == n) then none else if is_success r then rest else some (d1, st1))

  -- `_ocesqlExecParamsOccurs`
  unfoldable pub exec_params_occurs : ℕ → Bytes → ℕ → Program Db Res → Option (Program Db Res)
  unfolding exec_each
  exec_params_occurs id query n p =
      let s = p.session in
      let h = p.host in
      if is_empty query || n == 0 || ltb 500 h.table.iter
      then some (record p { session = record s { sqlca = lib_error LibError.empty sqlca_init } })
      else (exec_each id query n h p.memory h.table.iter 0 s.driver sqlca_init >>= λ (d, st).
          some (record p { session = record s { driver = d; sqlca = st } }))
