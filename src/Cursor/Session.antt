-- ===== src/Cursor/Session.antt =====
-- dblib/ocesql.c: statements on a connection, and what they do to its cursors.
use cobol.Prelude.{
  Bool, Bytes, List, Option, [], codes, false, if◌then◌else◌, negsuc, none, not, pos, some, str_eq,
  suc, true, zero, ℕ, ℤ, ◌||◌, ◌∷◌,
}
use cobol.Util.{get_str_without_after_space, oc_strndup}
use cobol.Sqlca.{Sqlca, sqlca_init, lib_error}
use cobol.Sqlca.LibError
use cobol.Pg.Interface.{Libpq}
use cobol.Conn.{Driver, exec, set_result_status, resolve_connid}
use cobol.Cursor.{Prepare, Cursor, clear_cursor_list, add_cursor_list}

-- What the library keeps between two calls, and the program's communication area.
pub record Session (Db Res Var : Type 0) : Type 0 where
  pub driver : Driver Db Res
  pub prepares : List Prepare
  pub cursors : List (Cursor Var)
  pub sqlca : Sqlca

unfoldable pub is_success : ℤ → Bool
is_success (pos zero) = true
is_success (pos (suc n)) = false
is_success (negsuc n) = false

abbrev pub ends_transaction : Bytes → Bool
ends_transaction query = str_eq query (codes "COMMIT") || str_eq query (codes "ROLLBACK")

abbrev pub is_empty : Bytes → Bool
is_empty [] = true
is_empty (c ∷ s) = false

module _ {Db Res Var : Type 0} (pq : Libpq Db Res) where
  -- `_ocesqlExec`. A null query is an empty one here.
  unfoldable pub exec_query : ℕ → Bytes → Session Db Res Var → Session Db Res Var
  unfolding is_success
  exec_query id query s =
      if is_empty query
      then record s { sqlca = lib_error LibError.empty sqlca_init }
      else (let d1 = exec pq id query s.driver in
          let (st1, r) = set_result_status pq id d1 sqlca_init in
          let d2 = exec pq id (codes "BEGIN") d1 in
          if not (is_success r)
          then record s { driver = d1; sqlca = st1 }
          else if ends_transaction query
          then record s {
            driver = d2;
            cursors = clear_cursor_list id s.cursors;
            sqlca = (set_result_status pq id d2 st1).0;
          }
          else record s { driver = d1; sqlca = st1 })

  -- `_ocesqlResolveCONNID`: the id, and what an unknown name does to the communication area.
  unfoldable pub resolve_id : Option Bytes → ℤ → Session Db Res Var → Session Db Res Var × Option ℕ
  resolve_id atdb atdblen s = elim (get_str_without_after_space (oc_strndup atdb atdblen)) [
    | none ↦ (s, none)
    | some cid ↦ elim (resolve_connid cid s.driver.conns) [
      | none ↦ (record s { sqlca = lib_error LibError.empty s.sqlca }, none)
      | some id ↦ (s, some id)
    ]
  ]

  -- `OCESQLIDExec`, and `OCESQLExec` with the default name.
  unfoldable pub id_exec : Option Bytes → ℤ → Bytes → Session Db Res Var → Session Db Res Var × ℕ
  id_exec atdb atdblen query s =
      let (s1, id) = resolve_id atdb atdblen s in
      elim id [
        | none ↦ (record s1 { sqlca = lib_error LibError.no_conn s1.sqlca }, 1)
        | some n ↦ (exec_query n query s1, 0)
      ]

  -- `_ocesqlCursorDeclare`
  unfoldable pub declare_cursor :
      ℕ → Bytes → Bytes → ℕ → Option (List Var) → Session Db Res Var → Session Db Res Var
  declare_cursor id cname query n vars s =
      if is_empty cname || is_empty query
      then record s { sqlca = lib_error LibError.empty sqlca_init }
      else elim (add_cursor_list id cname query n vars s.cursors) [
        | none ↦ record s { sqlca = lib_error LibError.warning_portal_exists sqlca_init }
        | some (cs, complete) ↦ record s {
          cursors = cs;
          sqlca = if complete then sqlca_init else lib_error LibError.out_of_memory sqlca_init;
        }
      ]
