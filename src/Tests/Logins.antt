-- ===== src/Tests/Logins.antt =====
-- A program that connects, disconnects, and goes on.
use cobol.Prelude.{
  Bool, Bytes, List, [], arith, codes, false, neg, none, pos, refl, some, str_eq, true, ℕ, ◌≡◌,
}
use cobol.Util.{oc_strndup, get_str_without_after_space}
use cobol.Sqlca.{sqlca_init}
use cobol.Conn.{Driver, connect, or_finish, add_conn_lists, resolve_connid, finish}
use cobol.Conn.Lifetime.{Reachable, starts, steps, connects}
use cobol.Pg.{pg_connect}
use cobol.Cursor.Session.{Session, id_exec}
use cobol.Connect.{Environment, connect_main, id_disconnect}
use cobol.Connect.Info.{parse_name, parse_name_lem}
use cobol.Connect.Logins.{Ends, connect_main-Ends, id_disconnect-id_exec}
use cobol.Tests.Client.{client}

abbrev start : Driver (List Bytes) Bool
start = record { db = []; rollback_one_mode = false; conns = []; next_conn_id = 1 }

abbrev connected : Driver (List Bytes) Bool
connected = (connect client none (codes "dbname=main") (codes "main") true (codes "UTF8") start).0

connected-Reachable : Reachable client connected
connected-Reachable =
    steps (starts []) (connects none (codes "dbname=main") (codes "main") true (codes "UTF8") start)

abbrev session : Driver (List Bytes) Bool → Session (List Bytes) Bool ℕ
session d = record { driver = d; prepares = []; cursors = []; sqlca = sqlca_init }

abbrev nothing_set : Environment
nothing_set = λ key. none

parse_name_lem_example :
    parse_name (some (codes "db@host:5432"))
    ≡ record { dbname = some (codes "db"); host = some (codes "host"); port = some (codes "5432") }
parse_name_lem_example =
    parse_name_lem (codes "db") (codes "host") (codes "5432") (λ e. absurd (cc e)) (ground arith)
      (ground arith)

connect_main-Ends_example :
    (s' : Session (List Bytes) Bool ℕ) × (r : ℕ) × (connect_main client nothing_set
        (some (codes "db"))
        none
        none
        (codes "main")
        (session connected)
      ≡ some (s', r))
    × Ends client (codes "main") (session connected) s' r
connect_main-Ends_example =
    connect_main-Ends client nothing_set (some (codes "db")) none none (codes "main")
      (session connected) connected-Reachable

id_disconnect-id_exec_example :
    let (s1, r1) = id_disconnect client (some (codes "main ")) (pos 5) (session connected) in
    let (s2, r2) = id_exec client (some (codes "main ")) (pos 5) (codes "SELECT 1") s1 in
    (r1 ≡ 0)
    × (s1.driver ≡ finish client 1 connected)
    × (r2 ≡ 1)
    × (s2.driver ≡ s1.driver)
    × (s2.sqlca.sqlcode ≡ neg 220)
unfolding oc_strndup get_str_without_after_space resolve_connid str_eq connect pg_connect or_finish
    add_conn_lists
id_disconnect-id_exec_example =
    id_disconnect-id_exec client (codes "main ") (codes "main") (codes "SELECT 1") 5 1
      (session connected) connected-Reachable refl refl
