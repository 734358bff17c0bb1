-- ===== src/Connect/Logins.antt =====
-- dblib/ocesql.c: how `CONNECT` and `DISCONNECT` end, and what statements find afterwards.
use cobol.Prelude.{
  Bytes, Option, Option-cases, ap, arith, codes, false, inl, inr, is_neg, neg, negsuc, none, pos,
  refl, some, suc, true, zero, ℕ, ℤ, ◌∙◌, ◌≡◌, ◌⊎◌,
}
use cobol.Util.{oc_strndup, get_str_without_after_space}
use cobol.Sqlca.{Sqlca, sqlca_init, result_success, set_lib_error_status, lib_status, status_row}
use cobol.Pg.Interface.{Libpq}
use cobol.Pg.{pg_set_result_status}
use cobol.Pg.Results.{pg_set_result_status-success}
use cobol.Conn.{
  Driver, connect, exec, finish, resolve_connid, look_up_conn_lists, set_result_status, status,
}
use cobol.Conn.Names.{resolve_connid-mem, with_result-resolve}
use cobol.Conn.Invariant.{IsGiven}
use cobol.Conn.Lifetime.{Reachable, Reachable-WellFormed, connect-resolve, finish-resolve}
use cobol.Cursor.Session.{Session, is_success, resolve_id, id_exec}
use cobol.Cursor.Transaction.{id_exec-unknown}
use cobol.Connect.{Environment, begin, make_room, connect_main, client_encoding, id_disconnect}
use cobol.Connect.Info.{parse_name, conninfo, connstr-conninfo}

module _ {Db Res : Type 0} (pq : Libpq Db Res) where
  -- A connection that is to be opened finds its name free, and the same next id.
  finish-next : (id : ℕ) (d : Driver Db Res) → (finish pq id d).next_conn_id ≡ d.next_conn_id
  unfolding finish
  finish-next id d = ground arith

  make_room-free :
      (cid : Bytes) (d d' : Driver Db Res)
      → Reachable pq d
      → make_room pq cid d ≡ some d'
      → (resolve_connid cid d'.conns ≡ none) × (d'.next_conn_id ≡ d.next_conn_id)
  unfolding make_room finish
  make_room-free cid d d' r h = elim (Option-cases (resolve_connid cid d.conns)) [
    | inl n ↦ let q : d ≡ d' = ground arith in rw (← q) (n, refl)
    | inr (id, n) ↦
        let (c, i, _, g) =
          resolve_connid-mem (IsGiven d.next_conn_id) cid d.conns id n
            (Reachable-WellFormed pq r).1 in
        let (f, _, _, _) = finish-resolve pq cid id d r n in
        let q : finish pq id d ≡ d' = ground arith in rw (← q) (f, finish-next id d)
  ]

  make_room-kept :
      (cid : Bytes) (d : Driver Db Res)
      → make_room pq cid d ≡ none
      → (id : ℕ) × (resolve_connid cid d.conns ≡ some id) × (status pq id d ≡ true)
  unfolding make_room
  make_room-kept cid d h = elim (Option-cases (resolve_connid cid d.conns)) [
    | inl n ↦ absurd (ground arith)
    | inr (id, n) ↦ (id, n, ground arith)
  ]

  -- Connecting ends in one of three ways. The name has a connection that works, and nothing is
  -- asked of a server; the name has none and the program learns so; or the name has a new one,
  -- with the next id.
  abbrev pub Ends : {Var : Type 0} → Bytes → Session Db Res Var → Session Db Res Var → ℕ → Type 0
  Ends cid s s' r =
      ((r ≡ 0)
        × (s'.driver ≡ s.driver)
        × ((id : ℕ) × (resolve_connid cid s.driver.conns ≡ some id)
            × (status pq id s.driver ≡ true)))
      ⊎ (((r ≡ 1) × (resolve_connid cid s'.driver.conns ≡ none) × (s'.sqlca.sqlcode ≡ neg 402))
          ⊎ ((resolve_connid cid s'.driver.conns ≡ some s.driver.next_conn_id)
              × (r ≡ 0 → is_neg s'.sqlca.sqlcode ≡ false)))

  is_success_eq : (r : ℤ) → is_success r ≡ true → r ≡ result_success
  unfolding is_success
  is_success_eq (pos zero) h = refl
  is_success_eq (pos (suc n)) h = cc
  is_success_eq (negsuc n) h = cc

  set_result_status-success :
      (id : ℕ) (d : Driver Db Res) (st : Sqlca)
      → is_neg st.sqlcode ≡ false
      → let (st', r) = set_result_status pq id d st in
        is_success r ≡ true → is_neg st'.sqlcode ≡ false
  unfolding set_result_status is_success
  set_result_status-success id d st h = elim (Option-cases (look_up_conn_lists id d.conns)) [
    | inl n ↦ ground arith
    | inr (c, n) ↦
        let (p, _) = pg_set_result_status-success pq c.resaddr st in
        let success : is_success (pg_set_result_status pq c.resaddr st).1 ≡ true
            → is_neg (pg_set_result_status pq c.resaddr st).0.sqlcode ≡ false =
          λ e. p.0 (is_success_eq _ e) in
        elim (Option-cases c.resaddr) [ inl m ↦ ground arith | inr (res, m) ↦ ground arith ]
  ]

  begin-Ends :
      {Var : Type 0} (cid : Bytes) (s : Session Db Res Var) (q : Driver Db Res × Option ℕ)
      → (q.1 ≡ none → resolve_connid cid q.0.conns ≡ none)
      → ((id : ℕ)
          → q.1 ≡ some id
          → (id ≡ s.driver.next_conn_id) × (resolve_connid cid q.0.conns ≡ some id))
      → Ends cid s (begin pq s q).0 (begin pq s q).1
  unfolding begin exec set_lib_error_status lib_status status_row
  begin-Ends cid s (d, none) f g = inr (inl (refl, f refl, refl))
  begin-Ends cid s (d, some id) f g =
      let d1 = exec pq id (codes "BEGIN") d in
      inr (
        let (e, k) = g id refl in
        inr (
          with_result-resolve pq cid id _ d ∙ k ∙ ap some e,
          λ h. set_result_status-success id d1 sqlca_init refl (ground arith),
        ))

  connect-Ends :
      {Var : Type 0} (cid info encoding : Bytes) (ignore_error : Option Bytes)
      (s : Session Db Res Var) (d : Driver Db Res)
      → resolve_connid cid d.conns ≡ none
      → d.next_conn_id ≡ s.driver.next_conn_id
      → let (s', r) = begin pq s (connect pq ignore_error info cid true encoding d) in
        Ends cid s s' r
  connect-Ends cid info encoding ignore_error s d f next =
      elim (connect-resolve pq ignore_error info cid true encoding d) [
        | inl (n, k, _) ↦
            begin-Ends cid s (connect pq ignore_error info cid true encoding d)
              (λ _. ap (resolve_connid cid) k ∙ f) (λ id e. absurd (cc (n, e)))
        | inr (_, o, k, _) ↦
            begin-Ends cid s (connect pq ignore_error info cid true encoding d)
              (λ e. absurd (cc (o, e))) (λ id e. (cc (o, e, next), cc (o, e, k)))
      ]

  -- In a state that operations reach, a connection attempt always ends. Either the name has a
  -- connection that works, and nothing is asked of a server; or it has none, 1 is returned and
  -- `sqlcode` is -402; or it has a new one, with the next id, and `sqlcode` is not negative if 0 is returned.
  pub connect_main-Ends :
      {Var : Type 0} (env : Environment) (name user passwd : Option Bytes) (cid : Bytes)
      (s : Session Db Res Var)
      → Reachable pq s.driver
      → (s' : Session Db Res Var) × (r : ℕ) × (connect_main pq env name user passwd cid s
          ≡ some (s', r))
        × Ends cid s s' r
  unfolding connect_main
  connect_main-Ends env name user passwd cid s h = elim (Option-cases (make_room pq cid s.driver)) [
    | inl n ↦ (
      record s { sqlca = sqlca_init },
      0,
      ground arith,
      inl (refl, refl, make_room-kept cid s.driver n),
    )
    | inr (d, n) ↦
        let info = conninfo (parse_name name) user passwd in
        let ignore_error = env (codes "OCDB_PG_IGNORE_ERROR") in
        let q = begin pq s (connect pq ignore_error info cid true (client_encoding env) d) in
        (
          q.0,
          q.1,
          rw (n, connect_main, connstr-conninfo (parse_name name) user passwd) refl,
          connect-Ends cid info (client_encoding env) ignore_error s d
              (make_room-free cid s.driver d h n).0 (make_room-free cid s.driver d h n).1,
        )
  ]

  resolve_id-known :
      {Var : Type 0} (atdb cid : Bytes) (len id : ℕ) (s : Session Db Res Var)
      → get_str_without_after_space (oc_strndup (some atdb) (pos len)) ≡ some cid
      → resolve_connid cid s.driver.conns ≡ some id
      → ((resolve_id pq (some atdb) (pos len) s).0 ≡ s)
        × ((resolve_id pq (some atdb) (pos len) s).1 ≡ some id)
  unfolding resolve_id
  resolve_id-known atdb cid len id s e n = rw (resolve_id, e, n) (refl, refl)

  -- After a connection has been closed by its name, a statement under this name reaches no server:
  -- it returns 1 with `sqlcode` -220.
  pub id_disconnect-id_exec :
      {Var : Type 0} (atdb cid query : Bytes) (len id : ℕ) (s : Session Db Res Var)
      → Reachable pq s.driver
      → get_str_without_after_space (oc_strndup (some atdb) (pos len)) ≡ some cid
      → resolve_connid cid s.driver.conns ≡ some id
      → let (s1, r1) = id_disconnect pq (some atdb) (pos len) s in
        let (s2, r2) = id_exec pq (some atdb) (pos len) query s1 in
        (r1 ≡ 0)
        × (s1.driver ≡ finish pq id s.driver)
        × (r2 ≡ 1)
        × (s2.driver ≡ s1.driver)
        × (s2.sqlca.sqlcode ≡ neg 220)
  unfolding id_disconnect
  id_disconnect-id_exec atdb cid query len id s h e n =
      let (t, i) = resolve_id-known atdb cid len id s e n in
      let (f, _, _, _) = finish-resolve pq cid id s.driver h n in
      let (a, b, _, c) =
        id_exec-unknown pq atdb len cid query (record s { driver = finish pq id s.driver }) e f in
      rw (i, id_disconnect, t) (refl, refl, a, b, c)
