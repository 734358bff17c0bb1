-- ===== src/Tests/Cursors.antt =====
-- A cursor that is opened and closed on a connection.
use cobol.Prelude.{
  Bool, Bytes, List, Option, [], codes, false, none, refl, some, str_eq, true, ℕ, ◌∷◌, ◌≡◌, ◌⊎◌,
}
use cobol.Pg.Query.{declare_query}
use cobol.Sqlca.{sqlca_init}
use cobol.Conn.{
  cursor_open, Driver, add_conn_lists, connect, or_finish, with_result, set_result_status,
  cursor_declare,
}
use cobol.Pg.{pg_connect, pg_exec, pg_cursor_declare, pg_set_result_status}
use cobol.Cursor.{Cursor, get_cursor_from_list, declared, new_cursor}
use cobol.Cursor.Session.{Session, is_success}
use cobol.Cursor.Life.{open_cursor, close_cursor, send_declare, finish_open, closed_first}
use cobol.Cursor.Opened.{open_cursor-opened, close_cursor-closed}
use cobol.Tests.Client.{client}

abbrev Log : Type 0
Log = List Bytes

abbrev start : Driver Log Bool
start = record { db = []; rollback_one_mode = false; conns = []; next_conn_id = 1 }

abbrev connected : Driver Log Bool
connected = (connect client none (codes "dbname=main") (codes "main") true (codes "UTF8") start).0

-- The cursor `c1` is declared, and not open.
abbrev session : Session Log Bool ℕ
session = record {
  driver = connected;
  prepares = [];
  cursors = declared 1 (codes "SELECT 1") 0 [] (new_cursor (codes "c1")) ∷ [];
  sqlca = sqlca_init;
}

abbrev no_data : ℕ → Option Bytes
no_data v = none

abbrev c1 : Cursor ℕ
c1 = declared 1 (codes "SELECT 1") 0 [] (new_cursor (codes "c1"))

-- The state behind the opening.
abbrev after_open : Session Log Bool ℕ
after_open =
    (finish_open client c1 session
      (cursor_declare client 1 (codes "c1") (codes "SELECT 1") false connected)).0

opens : open_cursor client no_data (codes "c1") session ≡ some (after_open, 0)
unfolding open_cursor get_cursor_from_list str_eq closed_first send_declare finish_open
    set_result_status cursor_declare cursor_open with_result connect pg_connect or_finish
    add_conn_lists pg_cursor_declare pg_exec declare_query pg_set_result_status is_success
opens = refl

open_cursor-opened_example :
    ((c : Cursor ℕ) × (get_cursor_from_list (codes "c1") after_open.cursors ≡ some c)
      × (c.is_opened ≡ true))
    × ((other : Bytes)
        → str_eq other (codes "c1") ≡ false
        → get_cursor_from_list other after_open.cursors
          ≡ get_cursor_from_list other session.cursors)
open_cursor-opened_example = open_cursor-opened client no_data (codes "c1") session after_open opens

close_cursor-closed_example :
    let (s', r) = close_cursor client (codes "c1") after_open in
    ((r ≡ 0)
      × ((c : Cursor ℕ) × (get_cursor_from_list (codes "c1") after_open.cursors ≡ some c)
          × (get_cursor_from_list (codes "c1") s'.cursors ≡ some (record c { is_opened = false }))
          × (c.is_opened ≡ false → s'.driver ≡ after_open.driver)))
    ⊎ ((r ≡ 1) × (s'.cursors ≡ after_open.cursors))
close_cursor-closed_example = close_cursor-closed client (codes "c1") after_open
