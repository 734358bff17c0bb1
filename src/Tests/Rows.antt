-- ===== src/Tests/Rows.antt =====
-- Rows that are fetched or selected into host variables, and statements over a table of them.
use cobol.Prelude.{
  All, Bool, Bytes, List, Option, [], arith, codes, false, length, neg, none, pos, refl, some,
  str_eq, true, zero, ℕ, ◌⊎◌, ◌≢◌, ◌∷◌, ◌≡◌,
}
use cobol.Sqlca.{sqlca_init, Sqlca}
use cobol.Pg.Interface.{Libpq}
use cobol.Pg.Query.{fetch_one_query, fetch_occurs_query}
use cobol.Pg.{
  pg_connect, pg_exec, pg_cursor_fetch_one, pg_cursor_fetch_occurs, pg_set_result_status,
  pg_exec_params,
}
use cobol.Conn.{
  Driver, connect, cursor_fetch_occurs, set_result_status, getvalue, ntuples, nfields, with_result,
  cursor_fetch_one, or_finish, add_conn_lists, exec, exec_params,
}
use cobol.Field.Store.{store, store_alphanumeric}
use cobol.Field.Occurs.{
  SqlVar, HostTable, create_coboldata, create_realdata, create_coboldata_lowvalue,
}
use cobol.Cursor.Life.{exec_params_query}
use cobol.Hostvar.{set_sql_params, start_sql, checked_var, add_sql_var_list, HostVars, no_table}
use cobol.Cursor.{Cursor, get_cursor_from_list, declared, new_cursor}
use cobol.Cursor.Session.{is_success, exec_query}
use cobol.Cursor.Fetch.{Program, fetch_one, fetch_occurs, some_rows}
use cobol.Cursor.Fetch.Rows.{IsKept, filled_cells, filled_table, low_table, IsWritten}
use cobol.Cursor.Fetch.Fetched.{fetch_one-RowFetched, RowFetched}
use cobol.Cursor.Fetch.Blocks.{fetch_occurs-IsWritten, BlockFetched}
use cobol.Tests.Client.{client}
use cobol.Cursor.Fetch.Handed.{Handed, started, hands, exec_params_query-Handed}
use cobol.Cursor.Fetch.Select.{values_of, exec_each, select_into_one, select}
use cobol.Cursor.Fetch.Selected.{
  SentUntilFailure, exec_each-SentUntilFailure, select_into_one-IsWritten,
}
use cobol.Field.Load.{load}
use cobol.Tests.Statements.{name_var, pair_table, blank_memory, both_stored}

-- A server whose only row has the value `hi`.
abbrev row_client : Libpq (List Bytes) Bool
row_client = record client { getvalue = λ r row column. some (codes "hi") }

abbrev start : Driver (List Bytes) Bool
start = record { db = []; rollback_one_mode = false; conns = []; next_conn_id = 1 }

abbrev connected : Driver (List Bytes) Bool
connected =
    (connect row_client none (codes "dbname=main") (codes "main") true (codes "UTF8") start).0

abbrev c1 : Cursor SqlVar
c1 = declared 1 (codes "SELECT 1") 0 [] (new_cursor (codes "c1"))

-- A fetch into one variable, or into a table of two of them.
abbrev program : Driver (List Bytes) Bool → HostTable → Program (List Bytes) Bool
program d t = record {
  session = record { driver = d; prepares = []; cursors = c1 ∷ []; sqlca = sqlca_init };
  host = record {
    sql_vars = some [];
    sql_res_vars = some (name_var ∷ []);
    var_lists_length = 0;
    res_var_lists_length = 1;
    table = t;
  };
  memory = blank_memory;
}

abbrev or_same :
    Program (List Bytes) Bool → Option (Program (List Bytes) Bool × ℕ) → Program (List Bytes) Bool
or_same p none = p
or_same p (some (q, r)) = q

abbrev one_fetched : Program (List Bytes) Bool
one_fetched =
    or_same (program connected no_table)
      (fetch_one row_client (codes "c1") (program connected no_table))

one_fetches : fetch_one row_client (codes "c1") (program connected no_table) ≡ some (one_fetched, 0)
unfolding fetch_one get_cursor_from_list str_eq cursor_fetch_one with_result connect pg_connect
    or_finish add_conn_lists pg_cursor_fetch_one pg_exec fetch_one_query set_result_status
    pg_set_result_status is_success nfields ntuples getvalue create_coboldata store
    store_alphanumeric
one_fetches = refl

fetch_one-RowFetched_example :
    (zero ≡ 0 → RowFetched row_client (codes "c1") c1 (program connected no_table) one_fetched)
    × (zero ≡ 1 → (one_fetched.memory ≡ blank_memory) × (one_fetched.session.cursors ≡ c1 ∷ []))
unfolding filled_cells IsKept get_cursor_from_list str_eq
fetch_one-RowFetched_example =
    fetch_one-RowFetched row_client (codes "c1") c1 (program connected no_table) one_fetched 0 refl
      (tt, tt) one_fetches

abbrev block_fetched : Program (List Bytes) Bool
block_fetched =
    or_same (program connected pair_table)
      (fetch_occurs row_client (codes "c1") (program connected pair_table))

block_fetches :
    fetch_occurs row_client (codes "c1") (program connected pair_table) ≡ some (block_fetched, 0)
unfolding fetch_occurs get_cursor_from_list str_eq cursor_fetch_occurs with_result connect
    pg_connect or_finish add_conn_lists pg_cursor_fetch_occurs pg_exec fetch_occurs_query
    set_result_status pg_set_result_status is_success nfields ntuples getvalue create_coboldata
    create_coboldata_lowvalue store store_alphanumeric some_rows
block_fetches = refl

fetch_occurs-IsWritten_example :
    BlockFetched row_client (codes "c1") c1 (program connected pair_table) block_fetched 1
unfolding filled_table low_table IsKept get_cursor_from_list str_eq cursor_fetch_occurs with_result
    connect pg_connect or_finish add_conn_lists pg_cursor_fetch_occurs pg_exec ntuples some_rows
fetch_occurs-IsWritten_example =
    fetch_occurs-IsWritten row_client (codes "c1") c1 (program connected pair_table) block_fetched 1
      refl refl (ground arith) block_fetches

-- One alphanumeric parameter, in a table of two.
abbrev table_vars : HostVars
table_vars = record {
  sql_vars = some ((name_var, codes "ab ") ∷ []);
  sql_res_vars = some [];
  var_lists_length = 1;
  res_var_lists_length = 0;
  table = pair_table;
}

abbrev or_start : Option (Driver (List Bytes) Bool × Sqlca) → Driver (List Bytes) Bool × Sqlca
or_start none = (start, sqlca_init)
or_start (some q) = q

abbrev each_sent : Driver (List Bytes) Bool × Sqlca
each_sent =
    or_start
      (exec_each row_client 1 (codes "DELETE $1") 1 table_vars both_stored 2 0 connected sqlca_init)

each_sends :
    exec_each row_client 1 (codes "DELETE $1") 1 table_vars both_stored 2 0 connected sqlca_init
    ≡ some each_sent
unfolding exec_each create_realdata load exec_params with_result set_result_status
    pg_set_result_status pg_exec_params is_success connect pg_connect or_finish add_conn_lists
each_sends = refl

exec_each-SentUntilFailure_example :
    SentUntilFailure row_client 1
      (codes "DELETE $1")
      table_vars
      both_stored
      2
      0
      connected
      each_sent.0
      each_sent.1
exec_each-SentUntilFailure_example =
    exec_each-SentUntilFailure row_client 1 (codes "DELETE $1") 1 table_vars both_stored 2 0
      connected each_sent.0 sqlca_init each_sent.1 each_sends

abbrev selected_program : Program (List Bytes) Bool
selected_program =
    elim (select_into_one row_client 1 (codes "SELECT 1") 0 1 (program connected no_table)) [
      | none ↦ program connected no_table
      | some p ↦ p
    ]

select_into_one-IsWritten_example :
    let p1 = (select row_client 1 (codes "SELECT 1") 0 (program connected no_table)).0 in
    (selected_program.session ≡ p1.session)
    × All
        (IsWritten no_table
          (λ j col. getvalue row_client 1 j col p1.session.driver)
          selected_program.memory)
        (filled_cells 0 1 0 (name_var ∷ []))
unfolding select_into_one select exec_query exec with_result set_result_status pg_set_result_status
    pg_exec is_success connect pg_connect or_finish add_conn_lists nfields ntuples getvalue
    some_rows filled_cells IsKept create_coboldata store store_alphanumeric str_eq
select_into_one-IsWritten_example =
    select_into_one-IsWritten row_client 1 (codes "SELECT 1") 0 1 1 (program connected no_table)
      selected_program refl refl refl refl (tt, tt) refl

-- The variable `name_var`, handed over as a parameter.
abbrev one_param : HostVars
one_param = elim (set_sql_params (pos 16) (pos 3) (pos 0) 10 both_stored start_sql) [
  | none ↦ start_sql
  | some (h, r) ↦ h
]

one-Handed : Handed 1 one_param
unfolding set_sql_params start_sql checked_var add_sql_var_list create_realdata load
one-Handed = hands (pos 16) (pos 3) (pos 0) 10 both_stored started refl

exec_params_query-Handed_example :
    let s = (program connected no_table).session in
    let query = codes "DELETE $1" in
    let values = values_of one_param in
    let one : ℕ = 1 in
    let d1 = exec_params row_client 1 query values s.driver in
    let s' = exec_params_query row_client 1 query 1 values s in
    (length values ≡ 1)
    × (((one ≡ 1) × ((s'.driver ≡ d1) ⊎ (s'.driver ≡ exec row_client 1 (codes "BEGIN") d1)))
        ⊎ ((one ≢ 1)
            × (s'.driver ≡ s.driver)
            × (s'.cursors ≡ s.cursors)
            × (s'.sqlca.sqlcode ≡ neg 202)))
exec_params_query-Handed_example =
    exec_params_query-Handed row_client 1 one_param 1 (codes "DELETE $1") 1
      (program connected no_table).session one-Handed refl (ground arith)
