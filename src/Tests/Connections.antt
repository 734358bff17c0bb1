-- ===== src/Tests/Connections.antt =====
-- Connections and cursors of a program with two databases.
use cobol.Prelude.{
  Option, Bool, Bool, Bytes, List, [], codes, false, none, pos, refl, some, str_eq, true, ℕ, ◌∷◌,
  ◌≡◌, ◌≢◌, ◌⊎◌,
}
use cobol.Util.{get_str_without_after_space, oc_strndup}
use cobol.Sqlca.{sqlca_init}
use cobol.Pg.Interface.{Handle}
use cobol.Pg.{pg_exec, pg_connect, release, pg_set_result_status}
use cobol.Conn.{
  or_finish, add_conn_lists, Conn, Driver, look_up_conn_lists, resolve_connid, connect, finish,
  exec, with_result, set_result_status,
}
use cobol.Conn.Invariant.{WellFormed}
use cobol.Conn.Lifetime.{
  Reachable, starts, steps, connects, Reachable-WellFormed, connect-resolve, finish-resolve,
}
use cobol.Cursor.{Cursor, get_cursor_from_list, new_cursor, declared}
use cobol.Cursor.Session.{Session, exec_query, ends_transaction, is_success}
use cobol.Cursor.Transaction.{exec_query-end}
use cobol.Tests.Client.{client}

abbrev Log : Type 0
Log = List Bytes

abbrev start : Driver Log Bool
start = record { db = []; rollback_one_mode = false; conns = []; next_conn_id = 1 }

-- The program connects to the database `main`.
abbrev connected : Driver Log Bool
connected = (connect client none (codes "dbname=main") (codes "main") true (codes "UTF8") start).0

connected-Reachable : Reachable client connected
connected-Reachable =
    steps (starts []) (connects none (codes "dbname=main") (codes "main") true (codes "UTF8") start)

connected-resolve : resolve_connid (codes "main") connected.conns ≡ some 1
unfolding connect pg_connect resolve_connid or_finish add_conn_lists str_eq
connected-resolve = refl

Reachable-WellFormed_example : WellFormed connected
Reachable-WellFormed_example = Reachable-WellFormed client connected-Reachable

connect-resolve_example :
    let (d', id) =
      connect client none (codes "dbname=main") (codes "main") true (codes "UTF8") connected in
    let (db1, opened) =
      pg_connect client none (codes "dbname=main") true (codes "UTF8") connected.db in
    ((id ≡ none)
      × (d'.conns ≡ connected.conns)
      × ((opened ≡ none) × (d'.db ≡ db1)
          ⊎ ((c : Handle) × (mode : Bool) × (opened ≡ some (c, mode))
              × (resolve_connid (codes "main") connected.conns ≢ none)
              × (d'.db ≡ client.finish c db1))))
    ⊎ ((resolve_connid (codes "main") connected.conns ≡ none)
        × (id ≡ some connected.next_conn_id)
        × (resolve_connid (codes "main") d'.conns ≡ some connected.next_conn_id)
        × ((cid : Bytes)
            → str_eq cid (codes "main") ≡ false
            → resolve_connid cid d'.conns ≡ resolve_connid cid connected.conns))
connect-resolve_example =
    connect-resolve client none (codes "dbname=main") (codes "main") true (codes "UTF8") connected

finish-resolve_example :
    let d' = finish client 1 connected in
    (resolve_connid (codes "main") d'.conns ≡ none)
    × (look_up_conn_lists 1 d'.conns ≡ none)
    × ((other : Bytes)
        → resolve_connid other connected.conns ≢ some 1
        → resolve_connid other d'.conns ≡ resolve_connid other connected.conns)
    × ((c : Conn Bool) × (look_up_conn_lists 1 connected.conns ≡ some c)
        × (d'.db ≡ client.finish c.connaddr (release client c.resaddr connected.db)))
finish-resolve_example =
    finish-resolve client (codes "main") 1 connected connected-Reachable connected-resolve

-- An open cursor on the connection, and one on another.
abbrev opened : ℕ → Bytes → Cursor ℕ
opened id cname = record (declared id (codes "SELECT 1") 0 [] (new_cursor cname)) {
  is_opened = true;
}

abbrev session : Session Log Bool ℕ
session = record {
  driver = connected;
  prepares = [];
  cursors = opened 1 (codes "c1") ∷ opened 2 (codes "c2") ∷ [];
  sqlca = sqlca_init;
}

abbrev commit : Bytes
commit = codes "COMMIT"

commit_ends : ends_transaction commit ≡ true
unfolding str_eq
commit_ends = refl

commit_succeeds :
    is_success (set_result_status client 1 (exec client 1 commit session.driver) sqlca_init).1
    ≡ true
unfolding is_success set_result_status exec with_result pg_exec pg_set_result_status connect
    pg_connect or_finish add_conn_lists
commit_succeeds = refl

exec_query-end_example :
    let s' = exec_query client 1 commit session in
    (s'.driver ≡ exec client 1 (codes "BEGIN") (exec client 1 commit session.driver))
    × ((cname : Bytes) (c : Cursor ℕ)
        → get_cursor_from_list cname session.cursors ≡ some c
        → (c' : Cursor ℕ) × (get_cursor_from_list cname s'.cursors ≡ some c')
          × (c'.connid ≡ c.connid)
          × (c.connid ≡ 1 → c'.is_opened ≡ false)
          × (c.connid ≢ 1 → c' ≡ c))
exec_query-end_example = exec_query-end client 1 commit session commit_ends commit_succeeds

select_goes_on : ends_transaction (codes "SELECT 1") ≡ false
unfolding str_eq
select_goes_on = refl

name_read :
    get_str_without_after_space (oc_strndup (some (codes "other   ")) (pos 8))
    ≡ some (codes "other")
unfolding get_str_without_after_space oc_strndup
name_read = refl

name_unknown : resolve_connid (codes "other") session.driver.conns ≡ none
unfolding connect pg_connect resolve_connid or_finish add_conn_lists str_eq
name_unknown = refl

abbrev no_vars : Option (List ℕ)
no_vars = none
