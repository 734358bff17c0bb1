-- ===== src/Tests/Client.antt =====
-- A client library for the tests: its state is the list of the statements it was sent, the last one
-- first, and a result tells whether a statement succeeded. A statement that begins with `X` fails.
use cobol.Prelude.{
  Bool, Bytes, List, Option, [], codes, false, none, not, pos, some, true, ◌==◌, ◌∷◌,
}
use cobol.Pg.Interface.{Libpq, Handle, ExecStatus, command_ok, fatal_error}

abbrev run_query : Handle → Bytes → List Bytes → List Bytes × Option Bool
run_query conn [] log = ([] ∷ log, none)
run_query conn (c ∷ query) log = ((c ∷ query) ∷ log, some (not (c == b'X')))

abbrev status : Option Bool → ExecStatus
status none = fatal_error
status (some true) = command_ok
status (some false) = fatal_error

abbrev pub client : Libpq (List Bytes) Bool
client = record {
  connectdb = λ info log. (info ∷ log, some 7);
  connection_ok = λ conn log. true;
  finish = λ conn log. codes "finish" ∷ log;
  set_client_encoding = λ conn encoding log. log;
  exec = run_query;
  exec_params = λ conn query params log. run_query conn query log;
  clear = λ r log. log;
  result_status = status;
  cmd_tuples = λ r. some (codes "1");
  ntuples = λ r. pos 1;
  nfields = λ r. pos 1;
  error_field = λ r. some (codes "42601");
  error_message = λ r. some (codes "syntax error");
  getvalue = λ r row column. none;
}
