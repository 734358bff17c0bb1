-- ===== src/Cursor/Fetch/Fetched.antt =====
-- dblib/ocesql.c: what a fetch does to the program's storage, and when it leaves it alone.
use cobol.Prelude.{
  >>=-eq-some, All, Bool-cases, Bytes, Option, Option-cases, ap, arith, inl, inr, refl, some, ℕ,
  ◌+ℤ◌, ◌>>=◌, ◌∙◌, ◌≡◌,
}
use cobol.Sqlca.{Sqlca, sqlca_init}
use cobol.Pg.Interface.{Libpq}
use cobol.Pg.Query.{next}
use cobol.Conn.{cursor_fetch_one, set_result_status, ntuples, nfields, getvalue}
use cobol.Field.Buffer.{Memory}
use cobol.Field.Occurs.{SqlVar}
use cobol.Cursor.{Cursor, get_cursor_from_list}
use cobol.Cursor.Fetch.{
  Program, vars_of, write_row, set_tuples, some_rows, equals_pos, take_row, fetch_one,
}
use cobol.Cursor.Fetch.Rows.{IsKept, IsWritten, filled_cells, write_row-IsWritten}

module _ {Db Res : Type 0} (pq : Libpq Db Res) where
  -- The program behind the request of one row.
  abbrev asked : Bytes → Cursor SqlVar → Program Db Res → Program Db Res
  asked cname c p =
      let s = p.session in
      let d1 = cursor_fetch_one pq c.connid cname next s.driver in
      record p {
        session = record s { driver = d1; sqlca = (set_result_status pq c.connid d1 sqlca_init).0 };
      }

  abbrev fetched : Bytes → Cursor SqlVar → Sqlca → Memory → Program Db Res → Program Db Res
  fetched cname c st m p =
      let n = c.tuples +ℤ st.sqlerrd2 in
      record p {
        session = record p.session {
          cursors = set_tuples cname n p.session.cursors;
          sqlca = record st { sqlerrd2 = n };
        };
        memory = m;
      }

  abbrev row_written : Cursor SqlVar → Program Db Res → Option Memory
  row_written c p =
      write_row p.host.table (λ col. getvalue pq c.connid 0 col p.session.driver) 0
        p.host.res_var_lists_length 0 (vars_of p.host) p.memory

  take_row-fetched :
      (cname : Bytes) (c : Cursor SqlVar) (st : Sqlca) (p p' : Program Db Res)
      → take_row pq cname c st p ≡ some (p', 0)
      → (m : Memory) × (row_written c p ≡ some m) × (p' ≡ fetched cname c st m p)
  unfolding take_row
  take_row-fetched cname c st p p' h =
      elim (Bool-cases
        (equals_pos (nfields pq c.connid p.session.driver) p.host.res_var_lists_length)) [
          | inr e ↦ absurd (ground arith)
          | inl e ↦ elim (Option-cases (some_rows (ntuples pq c.connid p.session.driver))) [
            | inl n ↦ absurd (ground arith)
            | inr (k, n) ↦
                let rest : Memory → Option (Program Db Res × ℕ) =
                  λ m. some (fetched cname c st m p, 0) in
                let g : (row_written c p >>= rest) ≡ some (p', 0) = ground arith in
                let (m, w, q) = >>=-eq-some (row_written c p) rest g in (m, w, cc q)
          ]
        ]

  take_row-kept :
      (cname : Bytes) (c : Cursor SqlVar) (st : Sqlca) (p p' : Program Db Res)
      → take_row pq cname c st p ≡ some (p', 1)
      → (p'.memory ≡ p.memory) × (p'.session.cursors ≡ p.session.cursors)
  unfolding take_row
  take_row-kept cname c st p p' h =
      elim (Bool-cases
        (equals_pos (nfields pq c.connid p.session.driver) p.host.res_var_lists_length)) [
          | inr e ↦ ground arith
          | inl e ↦ elim (Option-cases (some_rows (ntuples pq c.connid p.session.driver))) [
            | inl n ↦ ground arith
            | inr (k, n) ↦
                let rest : Memory → Option (Program Db Res × ℕ) =
                  λ m. some (fetched cname c st m p, 0) in
                let g : (row_written c p >>= rest) ≡ some (p', 1) = ground arith in
                let (m, w, q) = >>=-eq-some (row_written c p) rest g in absurd (cc q)
          ]
        ]

  fetch_one-asked :
      (cname : Bytes) (c : Cursor SqlVar) (p p' : Program Db Res)
      → get_cursor_from_list cname p.session.cursors ≡ some c
      → fetch_one pq cname p ≡ some (p', 0)
      → take_row pq cname c (asked cname c p).session.sqlca (asked cname c p) ≡ some (p', 0)
  unfolding fetch_one
  fetch_one-asked cname c p p' e h = ground arith

  fetch_one-IsWritten :
      (cname : Bytes) (c : Cursor SqlVar) (p p' : Program Db Res)
      → get_cursor_from_list cname p.session.cursors ≡ some c
      → let cells = filled_cells 0 p.host.res_var_lists_length 0 (vars_of p.host) in
        IsKept p.host.table cells
        → fetch_one pq cname p ≡ some (p', 0)
        → All
            (IsWritten p.host.table
              (λ j col. getvalue pq c.connid j col p'.session.driver)
              p'.memory)
            cells
          × (p'.session.cursors ≡ set_tuples cname p'.session.sqlca.sqlerrd2 p.session.cursors)
          × (p'.session.sqlca.sqlerrd2
              ≡ c.tuples +ℤ (set_result_status pq c.connid p'.session.driver sqlca_init).0.sqlerrd2)
  fetch_one-IsWritten cname c p p' e d h =
      let p1 = asked cname c p in
      let (m, w, q) =
        take_row-fetched cname c p1.session.sqlca p1 p' (fetch_one-asked cname c p p' e h) in
      rw q (
        write_row-IsWritten p.host.table (λ j col. getvalue pq c.connid j col p1.session.driver)
            p.host.res_var_lists_length (vars_of p.host) p.memory d w,
        refl,
        refl,
      )

  fetch_one-kept :
      (cname : Bytes) (p p' : Program Db Res)
      → fetch_one pq cname p ≡ some (p', 1)
      → (p'.memory ≡ p.memory) × (p'.session.cursors ≡ p.session.cursors)
  unfolding fetch_one
  fetch_one-kept cname p p' h = elim (Option-cases (get_cursor_from_list cname p.session.cursors)) [
    | inl n ↦ ground arith
    | inr (c, n) ↦
        let p1 = asked cname c p in
        let k = take_row-kept cname c p1.session.sqlca p1 p' in ground (arith, k)
  ]

  -- What a fetch of one row leaves behind that returns 0, and what one that returns 1.
  abbrev pub RowFetched : Bytes → Cursor SqlVar → Program Db Res → Program Db Res → Type 0
  RowFetched cname c p p' =
      All (IsWritten p.host.table (λ j col. getvalue pq c.connid j col p'.session.driver) p'.memory)
        (filled_cells 0 p.host.res_var_lists_length 0 (vars_of p.host))
      × (p'.session.cursors ≡ set_tuples cname p'.session.sqlca.sqlerrd2 p.session.cursors)
      × (p'.session.sqlca.sqlerrd2
          ≡ c.tuples +ℤ (set_result_status pq c.connid p'.session.driver sqlca_init).0.sqlerrd2)

  -- For a cursor of the list, and result variables of which nothing that is written for a later one
  -- falls into the field of an earlier one (a signed number in DISPLAY with a trailing sign is written
  -- with a NUL behind its field): a fetch that returns 0 leaves in every field what its type makes of
  -- the value of its column in the first row, and counts the rows that the server reports in the
  -- cursor and in `sqlerrd[2]`; one that returns 1 changes neither the program's storage nor any
  -- cursor.
  pub fetch_one-RowFetched :
      (cname : Bytes) (c : Cursor SqlVar) (p p' : Program Db Res) (r : ℕ)
      → get_cursor_from_list cname p.session.cursors ≡ some c
      → IsKept p.host.table (filled_cells 0 p.host.res_var_lists_length 0 (vars_of p.host))
      → fetch_one pq cname p ≡ some (p', r)
      → (r ≡ 0 → RowFetched cname c p p')
        × (r ≡ 1 → (p'.memory ≡ p.memory) × (p'.session.cursors ≡ p.session.cursors))
  fetch_one-RowFetched cname c p p' r e d h = (
    (λ z. fetch_one-IsWritten cname c p p' e d (h ∙ ap (λ (n : ℕ). some (p', n)) z)),
    (λ z. fetch_one-kept cname p p' (h ∙ ap (λ (n : ℕ). some (p', n)) z)),
  )
