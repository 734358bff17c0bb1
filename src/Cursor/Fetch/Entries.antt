-- ===== src/Cursor/Fetch/Entries.antt =====
-- dblib/ocesql.c: the entry points that find the connection by its name.
use cobol.Prelude.{Bytes, Option, if◌then◌else◌, map, none, some, ℕ, ℤ, ◌==◌, ◌>>=◌}
use cobol.Sqlca.{lib_error}
use cobol.Sqlca.LibError
use cobol.Pg.Interface.{Libpq}
use cobol.Hostvar.{Param}
use cobol.Cursor.Session.{resolve_id, declare_cursor}
use cobol.Cursor.Life.{exec_params_query}
use cobol.Cursor.Fetch.{Program}
use cobol.Cursor.Prepared.{declare_prepared_cursor, exec_prepare}
use cobol.Cursor.Fetch.Select.{values_of, select_into_one, select_into_occurs, exec_params_occurs}

module _ {Db Res : Type 0} (pq : Libpq Db Res) where
  -- The frame of the entry points with the name of a connection.
  unfoldable pub id_statement :
      Option Bytes
      → ℤ
      → (ℕ → Program Db Res → Option (Program Db Res))
      → Program Db Res
      → Option (Program Db Res × ℕ)
  unfolding resolve_id
  id_statement atdb atdblen run p =
      let (s1, id) = resolve_id pq atdb atdblen p.session in
      elim id [
        | none ↦
            some
              (record p { session = record s1 { sqlca = lib_error LibError.no_conn s1.sqlca } }, 1)
        | some n ↦ (run n (record p { session = s1 }) >>= λ p'. some (p', 0))
      ]

  -- `OCESQLIDExecSelectIntoOne`, `OCESQLIDExecSelectIntoOccurs` and `OCESQLIDExecParamsOccurs`, and
  -- the entry points without `ID` with the default name.
  unfoldable pub id_select_into_one :
      Option Bytes → ℤ → Bytes → ℕ → ℕ → Program Db Res → Option (Program Db Res × ℕ)
  unfolding id_statement select_into_one
  id_select_into_one atdb atdblen query n n_res p =
      id_statement atdb atdblen (λ id. select_into_one pq id query n n_res) p

  unfoldable pub id_select_into_occurs :
      Option Bytes → ℤ → Bytes → ℕ → ℕ → Program Db Res → Option (Program Db Res × ℕ)
  unfolding id_statement select_into_occurs
  id_select_into_occurs atdb atdblen query n n_res p =
      id_statement atdb atdblen (λ id. select_into_occurs pq id query n n_res) p

  unfoldable pub id_exec_params_occurs :
      Option Bytes → ℤ → Bytes → ℕ → Program Db Res → Option (Program Db Res × ℕ)
  unfolding id_statement exec_params_occurs
  id_exec_params_occurs atdb atdblen query n p =
      id_statement atdb atdblen (λ id. exec_params_occurs pq id query n) p

  -- `OCESQLIDExecParams`, `OCESQLIDCursorDeclare` and `OCESQLIDPreparedCursorDeclare`.
  unfoldable pub id_exec_params :
      Option Bytes → ℤ → Bytes → ℕ → Program Db Res → Option (Program Db Res × ℕ)
  unfolding id_statement
  id_exec_params atdb atdblen query n p =
      id_statement atdb atdblen
        (λ id q.
          some
            (record q { session = exec_params_query pq id query n (values_of q.host) q.session }))
        p

  unfoldable pub id_declare_cursor :
      Option Bytes → ℤ → Bytes → Bytes → Program Db Res → Option (Program Db Res × ℕ)
  unfolding id_statement
  id_declare_cursor atdb atdblen cname query p =
      id_statement atdb atdblen
        (λ id q. some (record q { session = declare_cursor pq id cname query 0 none q.session })) p

  unfoldable pub id_declare_prepared_cursor :
      Option Bytes → ℤ → Bytes → Bytes → Program Db Res → Option (Program Db Res × ℕ)
  unfolding id_statement
  id_declare_prepared_cursor atdb atdblen cname sname p =
      id_statement atdb atdblen
        (λ id q. some (record q { session = declare_prepared_cursor pq id cname sname q.session }))
        p

  -- `OCESQLIDCursorDeclareParams`
  unfoldable pub id_declare_cursor_params :
      Option Bytes → ℤ → Bytes → Bytes → ℕ → Program Db Res → Program Db Res × ℕ
  unfolding resolve_id
  id_declare_cursor_params atdb atdblen cname query n p =
      let (s1, id) = resolve_id pq atdb atdblen p.session in
      elim id [
        | none ↦
            (record p { session = record s1 { sqlca = lib_error LibError.no_conn s1.sqlca } }, 1)
        | some c ↦
            if n == 0
            then (record p { session = record s1 { sqlca = lib_error LibError.empty s1.sqlca } }, 1)
            else (
              record p {
                session =
                    declare_cursor pq c cname query n
                      (elim p.host.sql_vars [
                        | none ↦ none
                        | some vs ↦ some (map (λ (v : Param). v.0) vs)
                      ])
                      s1;
              },
              0,
            )
      ]

  -- `OCESQLIDExecPrepare`
  unfoldable pub id_exec_prepare :
      Option Bytes → ℤ → Bytes → ℕ → Program Db Res → Option (Program Db Res × ℕ)
  unfolding resolve_id
  id_exec_prepare atdb atdblen sname n p =
      let (s1, id) = resolve_id pq atdb atdblen p.session in
      elim id [
        | none ↦
            some
              (record p { session = record s1 { sqlca = lib_error LibError.no_conn s1.sqlca } }, 1)
        | some c ↦ exec_prepare pq c sname n (values_of p.host) s1 >>= λ (s2, r).
            some (record p { session = s2 }, r)
      ]
