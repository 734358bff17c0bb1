-- ===== src/Cursor/Life.antt =====
-- dblib/ocesql.c: opening and closing a cursor (`OCESQLCursorOpen`, `OCESQLCursorClose`), and
-- statements with parameters (`_ocesqlExecParams`). `realdata` is what `create_realdata` makes of a
-- parameter when the cursor is opened; an address behind the end of a list gives `none`.
use cobol.Prelude.{
  Bool, Bytes, List, Option, [], codes, false, get_elem?, if◌then◌else◌, leb, length, ltb, map,
  none, not, some, str_eq, take, true, ℕ, ◌++◌, ◌+◌, ◌==◌, ◌>>=◌, ◌||◌, ◌∷◌,
}
use cobol.Sqlca.{sqlca_init, lib_error}
use cobol.Sqlca.LibError
use cobol.Pg.Interface.{Libpq}
use cobol.Conn.{
  Driver, exec, exec_params, set_result_status, cursor_declare, cursor_declare_params, cursor_open,
  cursor_close,
}
use cobol.Cursor.{Cursor, get_cursor_from_list, clear_cursor_list}
use cobol.Cursor.Session.{Session, is_success, is_empty, ends_transaction}

-- An assignment through the pointer that `get_cursor_from_list` returns.
unfoldable pub set_opened : {Var : Type 0} → Bytes → Bool → List (Cursor Var) → List (Cursor Var)
set_opened cname b [] = []
set_opened cname b (c ∷ cs) =
    if str_eq cname c.cname then record c { is_opened = b } ∷ cs else c ∷ set_opened cname b cs

-- The values of the first `n` elements of the parameter list, behind which stands one without a type, whose
-- value is the empty text.
unfoldable pub param_values :
    {Var : Type 0} → (Var → Option Bytes) → ℕ → List Var → Option (List (Option Bytes))
param_values realdata n plist =
    if leb n (length plist + 1) then some (take n (map realdata plist ++ (some [] ∷ []))) else none

module _ {Db Res Var : Type 0} (pq : Libpq Db Res) where
  -- `_ocesqlExecParams`; `values` are the values in the list of host variables.
  unfoldable pub exec_params_query :
      ℕ → Bytes → ℕ → List (Option Bytes) → Session Db Res Var → Session Db Res Var
  unfolding is_success
  exec_params_query id query n values s =
      if is_empty query || n == 0
      then record s { sqlca = lib_error LibError.empty sqlca_init }
      else if ltb n (length values)
      then record s { sqlca = lib_error LibError.too_many_arguments sqlca_init }
      else if ltb (length values) n
      then record s { sqlca = lib_error LibError.too_few_arguments sqlca_init }
      else (let d1 = exec_params pq id query values s.driver in
          let (st1, r) = set_result_status pq id d1 sqlca_init in
          let d2 = exec pq id (codes "BEGIN") d1 in
          if not (is_success r)
          then record s { driver = d1; sqlca = st1 }
          else if ends_transaction query
          then record s {
            driver = d2;
            cursors = clear_cursor_list id s.cursors;
            sqlca = (set_result_status pq id d2 st1).0;
          }
          else record s { driver = d1; sqlca = st1 })

  -- The declaration that `OCESQLCursorOpen` sends: `none` where it would follow a null pointer.
  unfoldable pub send_declare :
      (Var → Option Bytes) → Cursor Var → Session Db Res Var → Option (Driver Db Res)
  unfolding param_values
  send_declare realdata c s =
      if ltb 0 c.n_params
      then (do
        values ← param_values realdata c.n_params c.plist
        query ← c.query
        some (cursor_declare_params pq c.connid c.cname query values false s.driver))
      else elim c.sp [
        | some i ↦ (do
          p ← get_elem? s.prepares i
          some (cursor_declare pq c.connid c.cname p.query false s.driver))
        | none ↦ (do
          query ← c.query
          some (cursor_declare pq c.connid c.cname query false s.driver))
      ]

  -- The part of `OCESQLCursorOpen` behind the declaration.
  unfoldable pub finish_open :
      Cursor Var → Session Db Res Var → Driver Db Res → Session Db Res Var × ℕ
  unfolding set_opened is_success
  finish_open c s d1 =
      let (st1, r1) = set_result_status pq c.connid d1 s.sqlca in
      let d2 = cursor_open pq c.connid c.cname d1 in
      let (st2, r2) = set_result_status pq c.connid d2 st1 in
      if not (is_success r1)
      then (record s { driver = d1; sqlca = st1 }, 1)
      else if not (is_success r2)
      then (record s { driver = d2; sqlca = st2 }, 1)
      else (record s { driver = d2; cursors = set_opened c.cname true s.cursors; sqlca = st2 }, 0)

  -- The state in which `OCESQLCursorOpen` declares the cursor: an open one has been closed.
  unfoldable pub closed_first : Bytes → Cursor Var → Session Db Res Var → Session Db Res Var × Bool
  unfolding set_opened is_success
  closed_first cname c s =
      let d1 = cursor_close pq c.connid cname s.driver in
      let (st1, r) = set_result_status pq c.connid d1 sqlca_init in
      if not c.is_opened
      then (record s { sqlca = sqlca_init }, true)
      else if not (is_success r)
      then (record s { driver = d1; sqlca = st1 }, false)
      else (record s { driver = d1; cursors = set_opened cname false s.cursors; sqlca = st1 }, true)

  -- `OCESQLCursorOpen`
  unfoldable pub open_cursor :
      (Var → Option Bytes) → Bytes → Session Db Res Var → Option (Session Db Res Var × ℕ)
  unfolding closed_first send_declare finish_open
  open_cursor realdata cname s =
      if is_empty cname
      then some (record s { sqlca = lib_error LibError.empty sqlca_init }, 1)
      else elim (get_cursor_from_list cname s.cursors) [
        | none ↦ some (record s { sqlca = lib_error LibError.warning_unknown_portal sqlca_init }, 1)
        | some c ↦
            let (s1, ready) = closed_first cname c s in
            if ready
            then (send_declare realdata c s1 >>= λ d2. some (finish_open c s1 d2))
            else some (s1, 1)
      ]

  -- `OCESQLCursorClose`
  unfoldable pub close_cursor : Bytes → Session Db Res Var → Session Db Res Var × ℕ
  unfolding set_opened is_success
  close_cursor cname s =
      if is_empty cname
      then (record s { sqlca = lib_error LibError.empty sqlca_init }, 1)
      else elim (get_cursor_from_list cname s.cursors) [
        | none ↦ (record s { sqlca = lib_error LibError.warning_unknown_portal sqlca_init }, 1)
        | some c ↦
            let d1 = cursor_close pq c.connid cname s.driver in
            let (st1, r) = set_result_status pq c.connid d1 sqlca_init in
            if not c.is_opened
            then (record s { sqlca = sqlca_init }, 0)
            else if not (is_success r)
            then (record s { driver = d1; sqlca = st1 }, 1)
            else (
              record s { driver = d1; cursors = set_opened cname false s.cursors; sqlca = st1 },
              0,
            )
      ]
