-- ===== src/Pg.antt =====
-- dblib/ocpgsql.c: PostgreSQL through libpq. The client library and the servers behind it are
-- parameters: `Db` is their state, `Res` a `PGresult`; a handle is a number, and `none` is NULL.
pub mod Interface
pub mod Query
pub mod Results
use cobol.Prelude.{
  ==_iff, >>=-eq-some, All, All-append, Bool, Bool-cases, Bytes, IsNeg, Lacks, List, Option,
  Option-cases, [], ap, append-nil, append_assoc, arith, codes, drop, drop-length-append, eq→str_eq,
  false, get_elem?, get_or, if◌then◌else◌, inl, inr, is_neg, leb, leb→le, length, length-append,
  length-drop, length-replicate, length-take, ltb, ltb_ℤ, ltb→lt, lt→ltb, map, neg, neg_part,
  negsuc, none, not, pos, pos_add, pos_part, refl, replicate, some, str_eq, str_eq_iff, str_eq_refl,
  str_eq→eq, sub_ℕ, suc, sym, take, take-append-drop, take-length-append, tests, true, zero, ℕ, ℤ,
  ◌%◌, ◌&&◌, ◌*◌, ◌++◌, ◌+ℤ◌, ◌+◌, ◌-◌, ◌/◌, ◌<◌, ◌==◌, ◌>>=◌, ◌^◌, ◌||◌, ◌↔◌, ◌∙◌, ◌∷◌, ◌≡◌, ◌≢◌,
  ◌≤◌, ◌⊎◌,
}
use cobol.Sqlca.{Sqlca, result_success, result_error, undefined_error}
use Interface.{
  Libpq, Handle, ExecStatus, command_ok, tuples_ok, empty_query, copy_out, copy_in, bad_response,
  nonfatal_error, fatal_error,
}
use Query.{
  declare_query, fetch_one_query, fetch_occurs_query, close_query, FetchMode, current, atoi,
}

-- `status == PGRES_COMMAND_OK || …`
unfoldable pub is_ok : ExecStatus → Bool
is_ok command_ok = true
is_ok tuples_ok = true
is_ok copy_out = true
is_ok copy_in = true
is_ok empty_query = false
is_ok bad_response = false
is_ok nonfatal_error = false
is_ok fatal_error = false

abbrev pub sql_savepoint : Bytes
sql_savepoint = codes "SAVEPOINT oc_save"

abbrev pub sql_release_savepoint : Bytes
sql_release_savepoint = codes "RELEASE SAVEPOINT oc_save"

abbrev pub sql_rollback_savepoint : Bytes
sql_rollback_savepoint = codes "ROLLBACK TO oc_save"

-- `sqlcode` for the SQLSTATE of a failed query; `OCPG_PGSQL` for any other.
abbrev pub state_table : List (Bytes × ℤ)
state_table =
    (codes "08001", neg 402)
    ∷ (codes "08003", neg 220)
    ∷ (codes "08007", neg 401)
    ∷ (codes "21000", neg 404)
    ∷ (codes "23505", neg 403)
    ∷ (codes "25001", neg 603)
    ∷ (codes "25P01", neg 604)
    ∷ (codes "34000", neg 602)
    ∷ (codes "42804", neg 204)
    ∷ (codes "42P03", neg 605)
    ∷ (codes "55P03", neg 400)
    ∷ []

pub code_of_state : Bytes → List (Bytes × ℤ) → ℤ
code_of_state s [] = neg 400
code_of_state s ((k, code) ∷ rows) = if str_eq s k then code else code_of_state s rows

-- The cases of an error result.
pub error_status : Option Bytes → ℤ × Bytes
error_status none = (undefined_error, codes "     ")
error_status (some s) = (code_of_state s state_table, take 5 s)

module _ {Db Res : Type 0} (pq : Libpq Db Res) where
  -- `PQexec` where the result is not looked at.
  abbrev run : Handle → Bytes → Db → Db
  run conn query db = (pq.exec conn query db).0

  -- `if (res != NULL) PQclear(res)`
  unfoldable pub release : Option Res → Db → Db
  release none db = db
  release (some r) db = pq.clear r db

  -- What both query functions do with the savepoint behind the query.
  end_savepoint : Handle → Option Res → Db → Db
  unfolding is_ok
  end_savepoint conn res db =
      if is_ok (pq.result_status res)
      then run conn sql_release_savepoint db
      else run conn sql_release_savepoint (run conn sql_rollback_savepoint db)

  -- `tmp_rollback_one_mode`: 0 from the start, and set to 0 for `BEGIN`, `COMMIT` and `ROLLBACK`.
  tmp_rollback_one_mode : Bool → Bytes → Bool
  tmp_rollback_one_mode mode query =
      if mode
        && (str_eq query (codes "BEGIN")
            || str_eq query (codes "COMMIT")
            || str_eq query (codes "ROLLBACK"))
      then false
      else false

  unfoldable pub pg_exec : Bool → Handle → Bytes → Db → Db × Option Res
  unfolding tmp_rollback_one_mode end_savepoint
  pg_exec rollback_one_mode conn query db =
      let tmp = tmp_rollback_one_mode rollback_one_mode query in
      let db1 = if tmp then run conn sql_savepoint db else db in
      let (db2, res) = pq.exec conn query db1 in
      (if tmp then end_savepoint conn res db2 else db2, res)

  unfoldable pub pg_exec_params : Bool → Handle → Bytes → List (Option Bytes) → Db → Db × Option Res
  unfolding end_savepoint
  pg_exec_params rollback_one_mode conn query params db =
      let db1 = if rollback_one_mode then run conn sql_savepoint db else db in
      let (db2, res) = pq.exec_params conn query params db1 in
      (if rollback_one_mode then end_savepoint conn res db2 else db2, res)

  -- `OCDB_PGCursorDeclare` and `OCDB_PGCursorDeclareParams`.
  unfoldable pub pg_cursor_declare : Bool → Handle → Bytes → Bytes → Bool → Db → Db × Option Res
  pg_cursor_declare mode conn cname query with_hold =
      pg_exec mode conn (declare_query cname query with_hold)

  unfoldable pub pg_cursor_declare_params :
      Bool → Handle → Bytes → Bytes → List (Option Bytes) → Bool → Db → Db × Option Res
  pg_cursor_declare_params mode conn cname query params with_hold =
      pg_exec_params mode conn (declare_query cname query with_hold) params

  -- The block for the query has room for one character between its parts: with `-1`, the NUL
  -- is written one byte behind it. The model gives the query.
  unfoldable pub pg_cursor_fetch_one : Bool → Handle → Bytes → FetchMode → Db → Db × Option Res
  pg_cursor_fetch_one mode conn cname fetchmode =
      pg_exec mode conn (fetch_one_query cname fetchmode)

  -- The current row cannot be fetched in a block. For a count of 0 the size `(int)log10(0) + 2` of
  -- the block for its digits is negative, and no block is allocated.
  unfoldable pub pg_cursor_fetch_occurs :
      Bool → Handle → Bytes → FetchMode → ℕ → Db → Db × Option Res
  pg_cursor_fetch_occurs mode conn cname current count db = (db, none)
  pg_cursor_fetch_occurs mode conn cname fetchmode zero db = (db, none)
  pg_cursor_fetch_occurs mode conn cname fetchmode (suc n) db =
      pg_exec mode conn (fetch_occurs_query cname fetchmode (suc n)) db

  unfoldable pub pg_cursor_close : Bool → Handle → Bytes → Db → Db × Option Res
  pg_cursor_close mode conn cname = pg_exec mode conn (close_query cname)

  -- `OCDB_PGConnect`: the handle, and the new `rollback_one_mode`, from `OCDB_PG_IGNORE_ERROR`.
  unfoldable pub pg_connect : Option Bytes → Bytes → Bool → Bytes → Db → Db × Option (Handle × Bool)
  pg_connect ignore_error conninfo autocommit encoding db =
      let (db1, opened) = pq.connectdb conninfo db in
      elim opened [
        | none ↦ (db1, none)
        | some conn ↦
            if pq.connection_ok conn db1
            then (let db2 = pq.set_client_encoding conn encoding db1 in
                let query : Bytes =
                  if autocommit
                  then codes "SET AUTOCOMMIT TO ON"
                  else codes "SET AUTOCOMMIT TO OFF" in
                let (db3, res) = pq.exec conn query db2 in
                (
                  release res db3,
                  some (conn, elim ignore_error [ none ↦ false | some v ↦ str_eq v (codes "Y") ]),
                ))
            else (pq.finish conn db1, none)
      ]

  -- The `switch` of `OCDB_PGSetResultStatus`: `sqlcode` and `sqlstate`.
  pub status_of_result : Option Res → ExecStatus → ℤ × Bytes
  unfolding error_status
  status_of_result res command_ok = (pos 0, codes "00000")
  status_of_result res tuples_ok =
      if ltb_ℤ (pos 0) (pq.ntuples res) then (pos 0, codes "00000") else (pos 100, codes "02000")
  status_of_result res empty_query = (neg 212, codes "YE002")
  status_of_result res nonfatal_error = error_status (pq.error_field res)
  status_of_result res fatal_error = error_status (pq.error_field res)
  status_of_result res bad_response = (undefined_error, codes "     ")
  status_of_result res copy_out = (undefined_error, codes "     ")
  status_of_result res copy_in = (undefined_error, codes "     ")

  -- The number of rows that the command reports.
  pub cmd_tuples : Option Res → ℤ
  cmd_tuples res = elim (pq.cmd_tuples res) [ none ↦ pos 0 | some s ↦ atoi s ]

  -- `strncpy` of at most 70 bytes of the message; the rest of the old one stays behind it.
  pub set_message : Option Bytes → Sqlca → Sqlca
  set_message none st = st
  set_message (some msg) st =
      let text = take 70 msg in
      record st { sqlerrmc = text ++ drop (length text) st.sqlerrmc; sqlerrml = length text }

  unfoldable pub pg_set_result_status : Option Res → Sqlca → Sqlca × ℤ
  unfolding status_of_result cmd_tuples set_message
  pg_set_result_status res st =
      let (code, state) = status_of_result res (pq.result_status res) in
      let st1 : Sqlca = record st { sqlcode = code; sqlstate = state; sqlerrd2 = cmd_tuples res } in
      if is_neg code
      then (set_message (pq.error_message res) st1, result_error)
      else (st1, result_success)
