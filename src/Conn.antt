-- ===== src/Conn.antt =====
-- dblib/ocdb.c: the list of connections, and the operations that reach PostgreSQL through it. A
-- connection id that is `INVALID_CONN_ID` or `OCDB_CONN_FAIL_CONNECT` (both -1) is `none`.
pub mod Invariant
pub mod Names
pub mod Lifetime
use cobol.Prelude.{
  ==_iff, >>=-eq-some, All, All-append, Bool, Bool-cases, Bytes, IsNeg, Lacks, List, Option,
  Option-cases, [], ap, append-nil, append_assoc, arith, codes, drop, drop-length-append, eq→str_eq,
  false, get_elem?, get_or, if◌then◌else◌, inl, inr, is_neg, leb, leb→le, length, length-append,
  length-drop, length-replicate, length-take, ltb, ltb_ℤ, ltb→lt, lt→ltb, map, neg, neg_part,
  negsuc, none, not, pos, pos_add, pos_part, refl, replicate, some, str_eq, str_eq_iff, str_eq_refl,
  str_eq→eq, sub_ℕ, suc, sym, take, take-append-drop, take-length-append, tests, true, zero, ℕ, ℤ,
  ◌%◌, ◌&&◌, ◌*◌, ◌++◌, ◌+ℤ◌, ◌+◌, ◌-◌, ◌/◌, ◌<◌, ◌==◌, ◌>>=◌, ◌^◌, ◌||◌, ◌↔◌, ◌∙◌, ◌∷◌, ◌≡◌, ◌≢◌,
  ◌≤◌, ◌⊎◌,
}
use cobol.Sqlca.{Sqlca, result_success, result_error}
use cobol.Pg.Interface.{Libpq, Handle}
use cobol.Pg.Query.{FetchMode}
use cobol.Pg.{
  release, pg_exec, pg_exec_params, pg_cursor_declare, pg_cursor_declare_params,
  pg_cursor_fetch_one, pg_cursor_fetch_occurs, pg_cursor_close, pg_connect, pg_set_result_status,
}

-- `struct s_conn`; the list element adds only the link.
pub record Conn (Res : Type 0) : Type 0 where
  pub id : ℕ
  pub cid : Bytes
  pub connaddr : Handle
  pub resaddr : Option Res
  pub result : ℤ

-- What the library and the servers keep between two calls.
pub record Driver (Db Res : Type 0) : Type 0 where
  pub db : Db
  pub rollback_one_mode : Bool
  pub conns : List (Conn Res)
  pub next_conn_id : ℕ

abbrev pub result_flagbase : ℤ
result_flagbase = pos 10

abbrev pub dummyopen : ℤ
dummyopen = pos 11

unfoldable pub look_up_conn_lists : {Res : Type 0} → ℕ → List (Conn Res) → Option (Conn Res)
look_up_conn_lists id [] = none
look_up_conn_lists id (c ∷ cs) = if c.id == id then some c else look_up_conn_lists id cs

-- An assignment through the pointer that `look_up_conn_lists` returns.
pub update_conn : {Res : Type 0} → ℕ → (Conn Res → Conn Res) → List (Conn Res) → List (Conn Res)
update_conn id f [] = []
update_conn id f (c ∷ cs) = if c.id == id then f c ∷ cs else c ∷ update_conn id f cs

-- `OCDBResolveCONNID`
unfoldable pub resolve_connid : {Res : Type 0} → Bytes → List (Conn Res) → Option ℕ
resolve_connid cid [] = none
resolve_connid cid (c ∷ cs) = if str_eq cid c.cid then some c.id else resolve_connid cid cs

pub create_conn : {Res : Type 0} → ℕ → Bytes → Handle → Conn Res
create_conn id cid connaddr = record {
  id = id;
  cid = cid;
  connaddr = connaddr;
  resaddr = none;
  result = result_success;
}

-- The walk of `add_conn_lists`, which stops at an element of the same name.
pub registered : {Res : Type 0} → Bytes → List (Conn Res) → Bool
registered cid [] = false
registered cid (c ∷ cs) = if str_eq c.cid cid then true else registered cid cs

unfoldable pub add_conn_lists :
    {Db Res : Type 0} → Bytes → Handle → Driver Db Res → Driver Db Res × Option ℕ
unfolding create_conn registered
add_conn_lists cid connaddr d = if registered cid d.conns then (d, none) else (
  record d {
    conns = d.conns ++ (create_conn d.next_conn_id cid connaddr ∷ []);
    next_conn_id = d.next_conn_id + 1;
  },
  some d.next_conn_id,
)

pub free_conn_lists : {Res : Type 0} → ℕ → List (Conn Res) → List (Conn Res)
free_conn_lists id [] = []
free_conn_lists id (c ∷ cs) = if c.id == id then cs else c ∷ free_conn_lists id cs

module _ {Db Res : Type 0} (pq : Libpq Db Res) where
  -- What `OCDBConnect` does behind `add_conn_lists`: a name in use closes the new connection.
  unfoldable pub or_finish : Handle → Driver Db Res × Option ℕ → Driver Db Res × Option ℕ
  or_finish conn (d, none) = (record d { db = pq.finish conn d.db }, none)
  or_finish conn (d, some id) = (d, some id)

  -- `OCDBConnect`
  unfoldable pub connect :
      Option Bytes → Bytes → Bytes → Bool → Bytes → Driver Db Res → Driver Db Res × Option ℕ
  connect ignore_error conninfo connname autocommit encoding d =
      let (db1, opened) = pg_connect pq ignore_error conninfo autocommit encoding d.db in
      elim opened [
        | none ↦ (record d { db = db1 }, none)
        | some (conn, mode) ↦
            or_finish conn
              (add_conn_lists connname conn (record d { db = db1; rollback_one_mode = mode }))
      ]

  -- The frame that the operations on a connection share: the old result is released, and the
  -- operation's own takes its place.
  unfoldable pub with_result : ℕ → (Handle → Db → Db × Option Res) → Driver Db Res → Driver Db Res
  unfolding look_up_conn_lists update_conn
  with_result id op d = elim (look_up_conn_lists id d.conns) [
    | none ↦ d
    | some c ↦
        let (db1, res) = op c.connaddr (release pq c.resaddr d.db) in
        record d {
          db = db1;
          conns = update_conn id (λ c. record c { resaddr = res; result = result_success }) d.conns;
        }
  ]

  unfoldable pub exec : ℕ → Bytes → Driver Db Res → Driver Db Res
  exec id query d = with_result id (λ h. pg_exec pq d.rollback_one_mode h query) d

  unfoldable pub exec_params : ℕ → Bytes → List (Option Bytes) → Driver Db Res → Driver Db Res
  exec_params id query params d =
      with_result id (λ h. pg_exec_params pq d.rollback_one_mode h query params) d

  unfoldable pub cursor_declare : ℕ → Bytes → Bytes → Bool → Driver Db Res → Driver Db Res
  cursor_declare id cname query with_hold d =
      with_result id (λ h. pg_cursor_declare pq d.rollback_one_mode h cname query with_hold) d

  unfoldable pub cursor_declare_params :
      ℕ → Bytes → Bytes → List (Option Bytes) → Bool → Driver Db Res → Driver Db Res
  cursor_declare_params id cname query params with_hold d =
      with_result id
        (λ h. pg_cursor_declare_params pq d.rollback_one_mode h cname query params with_hold) d

  -- `OCDBCursorOpen` asks the server nothing: the query ran with the declaration.
  unfoldable pub cursor_open : ℕ → Bytes → Driver Db Res → Driver Db Res
  unfolding look_up_conn_lists update_conn
  cursor_open id cname d = elim (look_up_conn_lists id d.conns) [
    | none ↦ d
    | some c ↦ record d {
      db = release pq c.resaddr d.db;
      conns = update_conn id (λ c. record c { resaddr = none; result = dummyopen }) d.conns;
    }
  ]

  unfoldable pub cursor_fetch_one : ℕ → Bytes → FetchMode → Driver Db Res → Driver Db Res
  cursor_fetch_one id cname mode d =
      with_result id (λ h. pg_cursor_fetch_one pq d.rollback_one_mode h cname mode) d

  unfoldable pub cursor_fetch_occurs : ℕ → Bytes → FetchMode → ℕ → Driver Db Res → Driver Db Res
  cursor_fetch_occurs id cname mode count d =
      with_result id (λ h. pg_cursor_fetch_occurs pq d.rollback_one_mode h cname mode count) d

  unfoldable pub cursor_close : ℕ → Bytes → Driver Db Res → Driver Db Res
  cursor_close id cname d = with_result id (λ h. pg_cursor_close pq d.rollback_one_mode h cname) d

  -- `OCDBSetResultStatus`
  unfoldable pub set_result_status : ℕ → Driver Db Res → Sqlca → Sqlca × ℤ
  unfolding look_up_conn_lists
  set_result_status id d st = elim (look_up_conn_lists id d.conns) [
    | none ↦ (st, result_error)
    | some c ↦ elim c.resaddr [
      | none ↦
          if not (ltb_ℤ result_flagbase c.result)
          then (st, result_error)
          else if ltb_ℤ c.result dummyopen || ltb_ℤ dummyopen c.result
          then pg_set_result_status pq none st
          else (st, result_success)
      | some r ↦
          if ltb_ℤ c.result dummyopen || ltb_ℤ dummyopen c.result
          then pg_set_result_status pq (some r) st
          else (st, result_success)
    ]
  ]

  -- `OCDBStatus`, whether it is `OCDB_CONN_CONNECT_OK`.
  unfoldable pub status : ℕ → Driver Db Res → Bool
  unfolding look_up_conn_lists
  status id d = elim (look_up_conn_lists id d.conns) [
    | none ↦ false
    | some c ↦ pq.connection_ok c.connaddr d.db
  ]

  unfoldable pub ntuples : ℕ → Driver Db Res → ℤ
  unfolding look_up_conn_lists
  ntuples id d = elim (look_up_conn_lists id d.conns) [
    | none ↦ neg 1
    | some c ↦ pq.ntuples c.resaddr
  ]

  unfoldable pub nfields : ℕ → Driver Db Res → ℤ
  unfolding look_up_conn_lists
  nfields id d = elim (look_up_conn_lists id d.conns) [
    | none ↦ neg 1
    | some c ↦ pq.nfields c.resaddr
  ]

  unfoldable pub getvalue : ℕ → ℕ → ℕ → Driver Db Res → Option Bytes
  unfolding look_up_conn_lists
  getvalue id row column d = elim (look_up_conn_lists id d.conns) [
    | none ↦ none
    | some c ↦ pq.getvalue c.resaddr row column
  ]

  -- `OCDBFinish`
  unfoldable pub finish : ℕ → Driver Db Res → Driver Db Res
  unfolding look_up_conn_lists free_conn_lists
  finish id d = elim (look_up_conn_lists id d.conns) [
    | none ↦ d
    | some c ↦ record d {
      db = pq.finish c.connaddr (release pq c.resaddr d.db);
      conns = free_conn_lists id d.conns;
    }
  ]
