-- ===== src/Cursor/Fetch/Blocks.antt =====
-- dblib/ocesql.c: what a fetch of a block of rows leaves in a table of the program.
use cobol.Prelude.{
  >>=-eq-some, All, Bytes, List, Option, arith, pos, refl, some, ℕ, ◌++◌, ◌+ℤ◌, ◌-◌, ◌>>=◌, ◌≡◌,
}
use cobol.Sqlca.{sqlca_init}
use cobol.Pg.Interface.{Libpq}
use cobol.Pg.Query.{next}
use cobol.Conn.{cursor_fetch_occurs, ntuples, getvalue}
use cobol.Field.Buffer.{Memory}
use cobol.Field.Occurs.{SqlVar}
use cobol.Hostvar.{HostVars}
use cobol.Cursor.{Cursor, get_cursor_from_list}
use cobol.Cursor.Fetch.{
  Program, vars_of, write_rows, low_rows, set_tuples, some_rows, at_most, take_rows, fetch_occurs,
}
use cobol.Cursor.Fetch.Rows.{IsKept, IsWritten, filled_table, low_table, Cell, write_rows-IsWritten}

module _ {Db Res : Type 0} (pq : Libpq Db Res) where
  -- The program behind the request of a block of rows, whose status is not asked for.
  abbrev asked_block : Bytes → Cursor SqlVar → Program Db Res → Program Db Res
  asked_block cname c p = record p {
    session = record p.session {
      driver = cursor_fetch_occurs pq c.connid cname next p.host.table.iter p.session.driver;
      sqlca = sqlca_init;
    };
  }

  -- The rows that a block of `k` rows leaves in the table, and those it has no values for.
  abbrev pub block_cells : HostVars → ℕ → List Cell
  block_cells h k =
      let rows = at_most k h.table.iter in
      filled_table h.res_var_lists_length (vars_of h) rows 0
      ++ low_table h.res_var_lists_length (vars_of h) (h.table.iter - rows) rows

  -- What a fetch of a block of `k` rows leaves behind.
  abbrev pub BlockFetched : Bytes → Cursor SqlVar → Program Db Res → Program Db Res → ℕ → Type 0
  BlockFetched cname c p p' k =
      let total = c.tuples +ℤ pos (at_most k p.host.table.iter) in
      All (IsWritten p.host.table (λ j col. getvalue pq c.connid j col p'.session.driver) p'.memory)
        (block_cells p.host k)
      × (p'.session.cursors ≡ set_tuples cname total p.session.cursors)
      × (p'.session.sqlca.sqlerrd2 ≡ total)

  take_rows-fetched :
      (cname : Bytes) (c : Cursor SqlVar) (p p' : Program Db Res) (k : ℕ)
      → some_rows (ntuples pq c.connid p.session.driver) ≡ some k
      → IsKept p.host.table (block_cells p.host k)
      → take_rows pq cname c sqlca_init p ≡ some (p', 0)
      → BlockFetched cname c p p' k
  unfolding take_rows
  take_rows-fetched cname c p p' k n d h =
      let t = p.host.table in
      let vs = vars_of p.host in
      let len = p.host.res_var_lists_length in
      let value : ℕ → ℕ → Option Bytes = λ j col. getvalue pq c.connid j col p.session.driver in
      let rows = at_most k t.iter in
      let total = c.tuples +ℤ pos rows in
      let done : Memory → Program Db Res = λ m. record p {
        session = record p.session {
          cursors = set_tuples cname total p.session.cursors;
          sqlca = record sqlca_init { sqlerrd2 = total };
        };
        memory = m;
      } in
      let last : Memory → Option (Program Db Res × ℕ) = λ m. some (done m, 0) in
      let rest : Memory → Option (Program Db Res × ℕ) =
        λ m. low_rows t len vs (t.iter - rows) rows m >>= last in
      let g : (write_rows t value len vs rows 0 p.memory >>= rest) ≡ some (p', 0) = ground arith in
      let (m1, w1, g1) = >>=-eq-some (write_rows t value len vs rows 0 p.memory) rest g in
      let (m2, w2, g2) = >>=-eq-some (low_rows t len vs (t.iter - rows) rows m1) last g1 in
      let q : p' ≡ done m2 = cc g2 in
      rw q (write_rows-IsWritten t value len vs rows (t.iter - rows) p.memory d w1 w2, refl, refl)

  -- For a cursor of the list, a fetch of a block of `k` rows, `k` not 0, that returns 0 leaves the
  -- values of the first rows in the table, as many as the table has elements, and zeros in the
  -- elements behind them; the cursor and `sqlerrd[2]` count the rows that were taken. Nothing that
  -- is written for a later element may fall into an earlier one; a signed number in DISPLAY with a
  -- trailing sign is written with a NUL behind its field.
  pub fetch_occurs-IsWritten :
      (cname : Bytes) (c : Cursor SqlVar) (p p' : Program Db Res) (k : ℕ)
      → get_cursor_from_list cname p.session.cursors ≡ some c
      → some_rows (
          ntuples pq c.connid
            (cursor_fetch_occurs pq c.connid cname next p.host.table.iter p.session.driver))
        ≡ some k
      → IsKept p.host.table (block_cells p.host k)
      → fetch_occurs pq cname p ≡ some (p', 0)
      → BlockFetched cname c p p' k
  unfolding fetch_occurs
  fetch_occurs-IsWritten cname c p p' k e n d h =
      take_rows-fetched cname c (asked_block cname c p) p' k n d (ground arith)
