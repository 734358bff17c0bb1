-- ===== src/Conn/Lifetime.antt =====
-- dblib/ocdb.c: connections from `OCDBConnect` to `OCDBFinish`.
use cobol.Prelude.{
  Bool, Bool-cases, Bytes, Option, Option-cases, [], arith, false, inl, inr, none, refl, some,
  str_eq, str_eq_refl, ℕ, ◌∷◌, ◌≡◌, ◌≢◌, ◌⊎◌,
}
use cobol.Pg.Interface.{Libpq, Handle}
use cobol.Pg.{pg_connect, release}
use cobol.Conn.{
  Conn, Driver, look_up_conn_lists, resolve_connid, create_conn, registered, add_conn_lists,
  connect, or_finish, with_result, cursor_open, finish,
}
use cobol.Conn.Invariant.{
  WellFormed, Distinct, connect-WellFormed, with_result-WellFormed, cursor_open-WellFormed,
  finish-WellFormed,
}
use cobol.Conn.Names.{
  resolve_connid-look_up_list, registered_iff, resolve_connid-append, resolve_connid-snoc,
  resolve_connid-free, look_up-free, resolve_connid-free_other,
}

-- One operation of the library on the list of connections.
pub data Step {Db Res : Type 0} (pq : Libpq Db Res) : Driver Db Res → Driver Db Res → Type 0 where
  connects :
      (ignore_error : Option Bytes) (conninfo connname : Bytes) (autocommit : Bool)
      (encoding : Bytes) (d : Driver Db Res)
      → Step pq d (connect pq ignore_error conninfo connname autocommit encoding d).0
  asks :
      (id : ℕ) (op : Handle → Db → Db × Option Res) (d : Driver Db Res)
      → Step pq d (with_result pq id op d)
  opens : (id : ℕ) (cname : Bytes) (d : Driver Db Res) → Step pq d (cursor_open pq id cname d)
  finishes : (id : ℕ) (d : Driver Db Res) → Step pq d (finish pq id d)

-- The state at the start of the program, and every state that operations lead to.
pub data Reachable {Db Res : Type 0} (pq : Libpq Db Res) : Driver Db Res → Type 0 where
  starts :
      (db : Db)
      → Reachable pq (record { db = db; rollback_one_mode = false; conns = []; next_conn_id = 1 })
  steps : {d e : Driver Db Res} → Reachable pq d → Step pq d e → Reachable pq e

module _ {Db Res : Type 0} (pq : Libpq Db Res) where
  Step-WellFormed : {d e : Driver Db Res} → Step pq d e → WellFormed d → WellFormed e
  Step-WellFormed (connects i c n a k d) w = connect-WellFormed pq i c n a k d w
  Step-WellFormed (asks id op d) w = with_result-WellFormed pq id op d w
  Step-WellFormed (opens id cname d) w = cursor_open-WellFormed pq id cname d w
  Step-WellFormed (finishes id d) w = finish-WellFormed pq id d w

  -- In every state that the operations reach, the ids of the connections are between 1 and the
  -- next one to be given, and no two connections have the same id or the same name.
  pub Reachable-WellFormed : {d : Driver Db Res} → Reachable pq d → WellFormed d
  unfolding Distinct
  Reachable-WellFormed (starts db) = (omega arith, tt, tt)
  Reachable-WellFormed (steps r s) = Step-WellFormed s (Reachable-WellFormed r)

  -- In such a state the id that a name resolves to is that of the connection of this name.
  pub resolve_connid-look_up :
      (cid : Bytes) (id : ℕ) (d : Driver Db Res)
      → Reachable pq d
      → resolve_connid cid d.conns ≡ some id
      → (c : Conn Res) × (look_up_conn_lists id d.conns ≡ some c) × (c.cid ≡ cid)
  resolve_connid-look_up cid id d r h =
      resolve_connid-look_up_list cid d.conns id (Reachable-WellFormed r).2 h

  -- Connecting under a name that is in use fails, changes no connection, and closes the new one
  -- if it was opened. Under a free name it either fails and changes no connection, or the name
  -- then resolves to the id that is returned, and every other name to what it did.
  pub connect-resolve :
      (ignore_error : Option Bytes) (conninfo connname : Bytes) (autocommit : Bool)
      (encoding : Bytes) (d : Driver Db Res)
      → let (d', id) = connect pq ignore_error conninfo connname autocommit encoding d in
        let (db1, opened) = pg_connect pq ignore_error conninfo autocommit encoding d.db in
        ((id ≡ none)
          × (d'.conns ≡ d.conns)
          × ((opened ≡ none) × (d'.db ≡ db1)
              ⊎ ((c : Handle) × (mode : Bool) × (opened ≡ some (c, mode))
                  × (resolve_connid connname d.conns ≢ none)
                  × (d'.db ≡ pq.finish c db1))))
        ⊎ ((resolve_connid connname d.conns ≡ none)
            × (id ≡ some d.next_conn_id)
            × (resolve_connid connname d'.conns ≡ some d.next_conn_id)
            × ((cid : Bytes)
                → str_eq cid connname ≡ false
                → resolve_connid cid d'.conns ≡ resolve_connid cid d.conns))
  unfolding connect or_finish add_conn_lists create_conn resolve_connid
  connect-resolve ignore_error conninfo connname autocommit encoding d =
      elim (Option-cases (pg_connect pq ignore_error conninfo autocommit encoding d.db).1) [
        | inl e ↦ rw (e, connect) (inl (refl, refl, inl (refl, refl)))
        | inr ((c, mode), e) ↦ elim (Bool-cases (registered connname d.conns)) [
          | inl y ↦
              let n : resolve_connid connname d.conns ≢ none =
                ground (arith, registered_iff connname d.conns) in
              rw (e, connect, y) (inl (refl, refl, inr (c, mode, refl, n, refl)))
          | inr y ↦
              let n : resolve_connid connname d.conns ≡ none =
                (registered_iff connname d.conns).0 y in
              let new : Conn Res = create_conn d.next_conn_id connname c in
              rw (e, connect, y)
                (inr (
                  n,
                  refl,
                  ground (
                    arith,
                    str_eq_refl connname,
                    resolve_connid-append connname d.conns (new ∷ []) n,
                  ),
                  λ cid o. resolve_connid-snoc cid d.conns new o,
                ))
        ]
      ]

  -- A connection that is finished is found neither by its name nor by its id, and every other name
  -- resolves to what it did.
  pub finish-resolve :
      (cid : Bytes) (id : ℕ) (d : Driver Db Res)
      → Reachable pq d
      → resolve_connid cid d.conns ≡ some id
      → let d' = finish pq id d in
        (resolve_connid cid d'.conns ≡ none)
        × (look_up_conn_lists id d'.conns ≡ none)
        × ((other : Bytes)
            → resolve_connid other d.conns ≢ some id
            → resolve_connid other d'.conns ≡ resolve_connid other d.conns)
        × ((c : Conn Res) × (look_up_conn_lists id d.conns ≡ some c)
            × (d'.db ≡ pq.finish c.connaddr (release pq c.resaddr d.db)))
  unfolding finish
  finish-resolve cid id d r h =
      let (c, l, n) = resolve_connid-look_up cid id d r h in
      let u = (Reachable-WellFormed r).2 in
      rw (l, finish)
        (
          resolve_connid-free cid d.conns id u h,
          look_up-free id d.conns u,
          (λ other o. resolve_connid-free_other other d.conns id u o),
          (c, refl, refl),
        )
