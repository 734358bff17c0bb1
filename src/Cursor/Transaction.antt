-- ===== src/Cursor/Transaction.antt =====
-- dblib/ocesql.c: what the end of a transaction does to the cursors (`_ocesqlExec`).
use cobol.Prelude.{
  Bytes, List, Option, [], ap, arith, codes, false, neg, none, pos, refl, some, str_eq, true, ℕ,
  ◌>>=◌, ◌∙◌, ◌∷◌, ◌≡◌, ◌≢◌, ◌⊎◌,
}
use cobol.Sqlca.{sqlca_init, lib_error, set_lib_error_status, lib_status, status_row}
use cobol.Sqlca.LibError
use cobol.Pg.Interface.{Libpq}
use cobol.Conn.{exec, set_result_status, resolve_connid}
use cobol.Util.{get_str_without_after_space, oc_strndup}
use cobol.Cursor.{Cursor, clear_cursor_list, get_cursor_from_list, closed}
use cobol.Cursor.Session.{Session, is_success, ends_transaction, exec_query, id_exec, resolve_id}

-- A cursor of another connection, or of one whose transaction goes on.
clear_cursor_list-get :
    {Var : Type 0} (cname : Bytes) (id : ℕ) (cs : List (Cursor Var))
    → get_cursor_from_list cname (clear_cursor_list id cs)
      ≡ (get_cursor_from_list cname cs >>= λ c. some (closed id c))
unfolding clear_cursor_list get_cursor_from_list
clear_cursor_list-get cname id [] = refl
clear_cursor_list-get cname id (c ∷ cs) = ground (arith, clear_cursor_list-get cname id cs)

module _ {Db Res Var : Type 0} (pq : Libpq Db Res) where
  -- The query succeeds on the connection.
  abbrev pub IsExecuted : ℕ → Bytes → Session Db Res Var → Type 0
  IsExecuted id query s =
      is_success (set_result_status pq id (exec pq id query s.driver) sqlca_init).1 ≡ true

  -- A `COMMIT` or `ROLLBACK` that succeeds closes every cursor of its connection, leaves those of
  -- the others as they were, and begins the next transaction.
  pub exec_query-end :
      (id : ℕ) (query : Bytes) (s : Session Db Res Var)
      → ends_transaction query ≡ true
      → IsExecuted id query s
      → let s' = exec_query pq id query s in
        (s'.driver ≡ exec pq id (codes "BEGIN") (exec pq id query s.driver))
        × ((cname : Bytes) (c : Cursor Var)
            → get_cursor_from_list cname s.cursors ≡ some c
            → (c' : Cursor Var) × (get_cursor_from_list cname s'.cursors ≡ some c')
              × (c'.connid ≡ c.connid)
              × (c.connid ≡ id → c'.is_opened ≡ false)
              × (c.connid ≢ id → c' ≡ c))
  unfolding exec_query str_eq
  exec_query-end id [] s e u = absurd (ground arith)
  exec_query-end id (q ∷ query) s e u =
      rw (u, e)
        (
          refl,
          λ cname c g. (
            closed id c,
            clear_cursor_list-get cname id s.cursors
                ∙ ap (λ (o : Option (Cursor Var)). o >>= λ k. some (closed id k)) g,
            ground arith,
            ground arith,
            ground arith,
          ),
        )

  -- A query that is neither `COMMIT` nor `ROLLBACK`, or that fails, leaves all cursors as they were.
  pub exec_query-cursors :
      (id : ℕ) (query : Bytes) (s : Session Db Res Var)
      → (ends_transaction query ≡ false)
        ⊎ (is_success (set_result_status pq id (exec pq id query s.driver) sqlca_init).1 ≡ false)
      → (exec_query pq id query s).cursors ≡ s.cursors
  unfolding exec_query
  exec_query-cursors id [] s h = refl
  exec_query-cursors id (q ∷ query) s h = ground arith

  resolve_id-unknown :
      (atdb : Bytes) (len : ℕ) (cid : Bytes) (s : Session Db Res Var)
      → get_str_without_after_space (oc_strndup (some atdb) (pos len)) ≡ some cid
      → resolve_connid cid s.driver.conns ≡ none
      → resolve_id pq (some atdb) (pos len) s
        ≡ (record s { sqlca = lib_error LibError.empty s.sqlca }, none)
  unfolding resolve_id set_lib_error_status
  resolve_id-unknown atdb len cid s e n = rw (resolve_id, e, n) refl

  -- A statement on a connection whose name is not known reaches no server and no cursor: it returns
  -- 1 and sets `sqlcode` to -220.
  pub id_exec-unknown :
      (atdb : Bytes) (len : ℕ) (cid query : Bytes) (s : Session Db Res Var)
      → get_str_without_after_space (oc_strndup (some atdb) (pos len)) ≡ some cid
      → resolve_connid cid s.driver.conns ≡ none
      → let (s', r) = id_exec pq (some atdb) (pos len) query s in
        (r ≡ 1) × (s'.driver ≡ s.driver) × (s'.cursors ≡ s.cursors) × (s'.sqlca.sqlcode ≡ neg 220)
  unfolding id_exec set_lib_error_status lib_status status_row
  id_exec-unknown atdb len cid query s e n =
      let r = resolve_id-unknown atdb len cid s e n in
      let i : (resolve_id pq (some atdb) (pos len) s).1 ≡ none =
        ap (λ (q : Session Db Res Var × Option ℕ). q.1) r in
      let t : (resolve_id pq (some atdb) (pos len) s).0
          ≡ record s { sqlca = lib_error LibError.empty s.sqlca } =
        ap (λ (q : Session Db Res Var × Option ℕ). q.0) r in
      rw (i, id_exec, t) (refl, refl, refl, refl)
