-- ===== src/Cursor/Fetch/Defaults.antt =====
-- dblib/ocesql.c: the entry points for the connection that has no name in the program. Each finds
-- the default name as its counterpart with `ID` finds the name it is given.
use cobol.Prelude.{Bytes, Option, codes, pos, refl, some, ℕ, ℤ, ◌≡◌}
use cobol.Pg.Interface.{Libpq}
use cobol.Cursor.Session.{Session, id_exec}
use cobol.Cursor.Fetch.{Program}
use cobol.Cursor.Fetch.Entries.{
  id_select_into_one, id_select_into_occurs, id_exec_params_occurs, id_exec_params,
  id_declare_cursor, id_declare_prepared_cursor, id_declare_cursor_params, id_exec_prepare,
}
use cobol.Util.{oc_strndup, get_str_without_after_space}

-- `OCESQL_DEFAULT_DBNAME` and `OCESQL_DEFAULT_DBLENG`
abbrev pub ocesql_default_dbname : Option Bytes
ocesql_default_dbname = some (codes "OCDB_DEFAULT_DBNAME")

abbrev pub ocesql_default_dbleng : ℤ
ocesql_default_dbleng = pos 19

module _ {Db Res Var : Type 0} (pq : Libpq Db Res) where
  -- `OCESQLExec`
  unfoldable pub default_exec : Bytes → Session Db Res Var → Session Db Res Var × ℕ
  unfolding id_exec
  default_exec = id_exec pq ocesql_default_dbname ocesql_default_dbleng

module _ {Db Res : Type 0} (pq : Libpq Db Res) where
  -- `OCESQLExecParams`
  unfoldable pub default_exec_params : Bytes → ℕ → Program Db Res → Option (Program Db Res × ℕ)
  unfolding id_exec_params
  default_exec_params = id_exec_params pq ocesql_default_dbname ocesql_default_dbleng

  -- `OCESQLExecParamsOccurs`
  unfoldable pub default_exec_params_occurs :
      Bytes → ℕ → Program Db Res → Option (Program Db Res × ℕ)
  unfolding id_exec_params_occurs
  default_exec_params_occurs = id_exec_params_occurs pq ocesql_default_dbname ocesql_default_dbleng

  -- `OCESQLCursorDeclare`
  unfoldable pub default_declare_cursor :
      Bytes → Bytes → Program Db Res → Option (Program Db Res × ℕ)
  unfolding id_declare_cursor
  default_declare_cursor = id_declare_cursor pq ocesql_default_dbname ocesql_default_dbleng

  -- `OCESQLCursorDeclareParams`
  unfoldable pub default_declare_cursor_params :
      Bytes → Bytes → ℕ → Program Db Res → Program Db Res × ℕ
  unfolding id_declare_cursor_params
  default_declare_cursor_params =
      id_declare_cursor_params pq ocesql_default_dbname ocesql_default_dbleng

  -- `OCESQLPreparedCursorDeclare`
  unfoldable pub default_declare_prepared_cursor :
      Bytes → Bytes → Program Db Res → Option (Program Db Res × ℕ)
  unfolding id_declare_prepared_cursor
  default_declare_prepared_cursor =
      id_declare_prepared_cursor pq ocesql_default_dbname ocesql_default_dbleng

  -- `OCESQLExecPrepare`
  unfoldable pub default_exec_prepare : Bytes → ℕ → Program Db Res → Option (Program Db Res × ℕ)
  unfolding id_exec_prepare
  default_exec_prepare = id_exec_prepare pq ocesql_default_dbname ocesql_default_dbleng

  -- `OCESQLExecSelectIntoOne`
  unfoldable pub default_select_into_one :
      Bytes → ℕ → ℕ → Program Db Res → Option (Program Db Res × ℕ)
  unfolding id_select_into_one
  default_select_into_one = id_select_into_one pq ocesql_default_dbname ocesql_default_dbleng

  -- `OCESQLExecSelectIntoOccurs`
  unfoldable pub default_select_into_occurs :
      Bytes → ℕ → ℕ → Program Db Res → Option (Program Db Res × ℕ)
  unfolding id_select_into_occurs
  default_select_into_occurs = id_select_into_occurs pq ocesql_default_dbname ocesql_default_dbleng

-- The name reaches the list of connections unchanged.
pub default_dbname-kept :
    get_str_without_after_space (oc_strndup ocesql_default_dbname ocesql_default_dbleng)
    ≡ ocesql_default_dbname
unfolding get_str_without_after_space oc_strndup
default_dbname-kept = refl
