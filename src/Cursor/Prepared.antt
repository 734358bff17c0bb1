-- ===== src/Cursor/Prepared.antt =====
-- dblib/ocesql.c: prepared statements, with the values of the host variables as they were set.
-- The block for the values has room for as many as the caller says; more of them are written behind
-- it, and if there are fewer it is read where nothing was written: both are `none`.
use cobol.Prelude.{
  Bytes, List, Option, codes, drop, false, get_elem?, if◌then◌else◌, length, none, not, some, take,
  ℕ, ◌++◌, ◌+◌, ◌==◌, ◌>>=◌, ◌||◌, ◌∷◌,
}
use cobol.Util.Hostvalue.{get_str_replace_hostvalue}
use cobol.Sqlca.{Sqlca, sqlca_init, lib_error}
use cobol.Sqlca.LibError
use cobol.Pg.Interface.{Libpq}
use cobol.Conn.{Driver, exec, exec_params, set_result_status, cursor_declare_params}
use cobol.Cursor.{
  Prepare, Cursor, add_prepare_list, get_prepare_from_list, add_cursor_list_with_prepare,
  get_cursor_from_list, clear_cursor_list,
}
use cobol.Cursor.Session.{Session, is_success, is_empty, ends_transaction}
use cobol.Cursor.Life.{finish_open, closed_first}

-- `com_strcpy` of a text of the library into `sqlerrmc`, with its NUL, and its length.
unfoldable pub set_text : Bytes → Sqlca → Sqlca
set_text msg st = record st {
  sqlerrmc = msg ++ (0 ∷ drop (length msg + 1) st.sqlerrmc);
  sqlerrml = length msg;
}

abbrev params_unmatch : Bytes
params_unmatch = codes "A number of parameters and prepared sql parameters is unmatch."

module _ {Db Res Var : Type 0} (pq : Libpq Db Res) where
  -- `OCESQLPrepare`, for a query that is there.
  unfoldable pub prepare : Bytes → Bytes → ℕ → Session Db Res Var → Session Db Res Var
  prepare sname query querylen s =
      let (pquery, n) = get_str_replace_hostvalue (take querylen query) in
      record s { prepares = (add_prepare_list sname pquery n s.prepares).0 }

  -- `_ocesqlPreparedCursorDeclare`: the second call of `add_cursor_list_with_prepare` is made on
  -- what the first one left, if that did not fail.
  unfoldable pub declare_prepared_cursor :
      ℕ → Bytes → Bytes → Session Db Res Var → Session Db Res Var
  declare_prepared_cursor id cname sname s =
      if is_empty cname || is_empty sname
      then record s { sqlca = lib_error LibError.empty sqlca_init }
      else elim (get_prepare_from_list sname s.prepares) [
        | none ↦ record s { sqlca = lib_error LibError.invalid_stmt sqlca_init }
        | some sp ↦ elim (add_cursor_list_with_prepare id cname sp s.cursors) [
          | none ↦ record s { sqlca = lib_error LibError.warning_portal_exists sqlca_init }
          | some cs ↦ elim (add_cursor_list_with_prepare id cname sp cs) [
            | none ↦ record s { cursors = cs; sqlca = sqlca_init }
            | some ds ↦ record s { cursors = ds; sqlca = sqlca_init }
          ]
        ]
      ]

  -- `_ocesqlExecPrepare` behind its checks, with the query and the state of the server behind it.
  unfoldable pub end_prepared :
      ℕ → Bytes → Driver Db Res → Session Db Res Var → Session Db Res Var × ℕ
  unfolding is_success
  end_prepared id query d1 s =
      let (st1, r) = set_result_status pq id d1 sqlca_init in
      if not (is_success r)
      then (record s { driver = d1; sqlca = st1 }, 1)
      else if ends_transaction query
      then (
        record s {
          driver = exec pq id (codes "BEGIN") d1;
          cursors = clear_cursor_list id s.cursors;
          sqlca = st1;
        },
        0,
      )
      else (record s { driver = d1; sqlca = st1 }, 0)

  -- `_ocesqlExecPrepare`
  unfoldable pub exec_prepare :
      ℕ → Bytes → ℕ → List (Option Bytes) → Session Db Res Var → Option (Session Db Res Var × ℕ)
  unfolding end_prepared
  exec_prepare id sname n values s =
      elim (get_prepare_from_list sname s.prepares >>= get_elem? s.prepares) [
        | none ↦ some (record s { sqlca = lib_error LibError.invalid_stmt sqlca_init }, 1)
        | some p ↦
            if is_empty p.query || not (n == p.n_params)
            then some (record s { sqlca = lib_error LibError.empty sqlca_init }, 1)
            else if n == 0
            then some (end_prepared id p.query (exec pq id p.query s.driver) s)
            else if length values == n
            then some (end_prepared id p.query (exec_params pq id p.query values s.driver) s)
            else none
      ]

  -- `OCESQLCursorOpenParams` behind its checks, with the cursor and its statement.
  unfoldable pub open_declared :
      Cursor Var
      → Prepare
      → List (Option Bytes)
      → Session Db Res Var
      → Option (Session Db Res Var × ℕ)
  unfolding finish_open
  open_declared c p values s =
      if length values == p.n_params
      then some (
          finish_open pq c s
            (cursor_declare_params pq c.connid c.cname p.query values false s.driver))
      else none

  unfoldable pub open_cursor_params :
      Bytes → ℕ → List (Option Bytes) → Session Db Res Var → Option (Session Db Res Var × ℕ)
  unfolding closed_first open_declared
  open_cursor_params cname n values s =
      if is_empty cname
      then some (record s { sqlca = lib_error LibError.empty sqlca_init }, 1)
      else elim (get_cursor_from_list cname s.cursors) [
        | none ↦ some (record s { sqlca = lib_error LibError.warning_unknown_portal sqlca_init }, 1)
        | some c ↦ elim (c.sp >>= get_elem? s.prepares) [
          | none ↦ some (record s { sqlca = lib_error LibError.invalid_stmt sqlca_init }, 1)
          | some p ↦
              if not (p.n_params == n)
              then some (
                record s { sqlca = set_text params_unmatch (lib_error LibError.empty sqlca_init) },
                1,
              )
              else (let (s1, ready) = closed_first pq cname c s in
                  if ready then open_declared c p values s1 else some (s1, 1))
        ]
      ]
