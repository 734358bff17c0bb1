-- ===== src/Pg/Interface.antt =====
-- libpq, as dblib/ocpgsql.c calls it. A connection is a handle; a NULL result is `none`, which
-- the functions on results take as libpq does.
use cobol.Prelude.{Bool, Bytes, List, Option, ℕ, ℤ}

abbrev pub Handle : Type 0
Handle = ℕ

-- `ExecStatusType`
pub data ExecStatus : Type 0 where
  command_ok tuples_ok empty_query copy_out copy_in : ExecStatus
  bad_response nonfatal_error fatal_error : ExecStatus

pub record Libpq (Db Res : Type 0) : Type 0 where
  -- `PQconnectdb`, `PQstatus`, `PQfinish`, `PQsetClientEncoding`
  pub connectdb : Bytes → Db → Db × Option Handle
  pub connection_ok : Handle → Db → Bool
  pub finish : Handle → Db → Db
  pub set_client_encoding : Handle → Bytes → Db → Db
  -- `PQexec` and `PQexecParams`; a parameter may be NULL.
  pub exec : Handle → Bytes → Db → Db × Option Res
  pub exec_params : Handle → Bytes → List (Option Bytes) → Db → Db × Option Res
  -- `PQclear`, `PQresultStatus`, `PQcmdTuples`, `PQntuples`, `PQnfields`, `PQresultErrorField`
  -- with `PG_DIAG_SQLSTATE`, `PQresultErrorMessage`, `PQgetvalue`
  pub clear : Res → Db → Db
  pub result_status : Option Res → ExecStatus
  pub cmd_tuples : Option Res → Option Bytes
  pub ntuples : Option Res → ℤ
  pub nfields : Option Res → ℤ
  pub error_field : Option Res → Option Bytes
  pub error_message : Option Res → Option Bytes
  pub getvalue : Option Res → ℕ → ℕ → Option Bytes
