-- ===== src/Conn/Invariant.antt =====
-- dblib/ocdb.c: the list of connections stays well formed under every operation.
use cobol.Prelude.{
  All, All-append, All-map, Bool, Bool-cases, Bytes, List, Option, Option-cases, [], arith, false,
  inl, inr, none, refl, some, str_eq, ℕ, ◌++◌, ◌+◌, ◌<◌, ◌∙◌, ◌∷◌, ◌≡◌, ◌≢◌, ◌≤◌,
}
use cobol.Sqlca.{result_success}
use cobol.Pg.Interface.{Libpq, Handle}
use cobol.Pg.{release, pg_connect}
use cobol.Conn.{
  Conn, Driver, look_up_conn_lists, update_conn, create_conn, registered, add_conn_lists,
  free_conn_lists, connect, or_finish, with_result, cursor_open, finish, dummyopen,
}

-- Every id is one that was given, from 1.
abbrev pub IsGiven : {Res : Type 0} → ℕ → Conn Res → Type 0
IsGiven next c = (1 ≤ c.id) × (c.id < next)

-- Neither the id nor the name of a connection is another's.
abbrev pub Differs : {Res : Type 0} → Conn Res → Conn Res → Type 0
Differs c e = (e.id ≢ c.id) × (str_eq c.cid e.cid ≡ false)

unfoldable pub Distinct : {Res : Type 0} → List (Conn Res) → Type 0
Distinct [] = Unit
Distinct (c ∷ cs) = All (Differs c) cs × Distinct cs

abbrev pub WellFormed : {Db Res : Type 0} → Driver Db Res → Type 0
WellFormed d = (1 ≤ d.next_conn_id) × All (IsGiven d.next_conn_id) d.conns × Distinct d.conns

-- An update that keeps id and name.
abbrev Keeps : {Res : Type 0} → (Conn Res → Conn Res) → Type 0
Keeps {Res} f = (c : Conn Res) → ((f c).id ≡ c.id) × ((f c).cid ≡ c.cid)

module _ {Res : Type 0} where
  update_conn-IsGiven :
      (id next : ℕ) (f : Conn Res → Conn Res) (cs : List (Conn Res))
      → Keeps f
      → All (IsGiven next) cs
      → All (IsGiven next) (update_conn id f cs)
  unfolding update_conn
  update_conn-IsGiven id next f [] k h = h
  update_conn-IsGiven id next f (c ∷ cs) k (g, h) =
      ground (arith, k c, update_conn-IsGiven id next f cs k h)

  update_conn-Differs :
      (e : Conn Res) (id : ℕ) (f : Conn Res → Conn Res) (cs : List (Conn Res))
      → Keeps f
      → All (Differs e) cs
      → All (Differs e) (update_conn id f cs)
  unfolding update_conn
  update_conn-Differs e id f [] k h = h
  update_conn-Differs e id f (c ∷ cs) k (g, h) =
      ground (arith, k c, update_conn-Differs e id f cs k h)

  Differs-of :
      (e e' : Conn Res) (cs : List (Conn Res))
      → e'.id ≡ e.id
      → e'.cid ≡ e.cid
      → All (Differs e) cs
      → All (Differs e') cs
  Differs-of e e' [] i n h = h
  Differs-of e e' (c ∷ cs) i n (g, h) = (((λ q. g.0 (q ∙ i)), rw n g.1), Differs-of e e' cs i n h)

  update_conn-Distinct :
      (id : ℕ) (f : Conn Res → Conn Res) (cs : List (Conn Res))
      → Keeps f
      → Distinct cs
      → Distinct (update_conn id f cs)
  unfolding update_conn Distinct
  update_conn-Distinct id f [] k h = h
  update_conn-Distinct id f (c ∷ cs) k (g, h) = ground (
    arith,
    k c,
    Differs-of c (f c) cs (k c).0 (k c).1 g,
    update_conn-Differs c id f cs k g,
    update_conn-Distinct id f cs k h,
  )

  free_conn_lists-All :
      (P : Conn Res → Type 0) (id : ℕ) (cs : List (Conn Res))
      → All P cs
      → All P (free_conn_lists id cs)
  unfolding free_conn_lists
  free_conn_lists-All P id [] h = h
  free_conn_lists-All P id (c ∷ cs) (g, h) = ground (arith, free_conn_lists-All P id cs h)

  free_conn_lists-Distinct :
      (id : ℕ) (cs : List (Conn Res)) → Distinct cs → Distinct (free_conn_lists id cs)
  unfolding free_conn_lists Distinct
  free_conn_lists-Distinct id [] h = h
  free_conn_lists-Distinct id (c ∷ cs) (g, h) =
      ground (arith, free_conn_lists-All (Differs c) id cs g, free_conn_lists-Distinct id cs h)

  -- A new connection is told apart from those in the list.
  registered-Differs :
      (next : ℕ) (e : Conn Res) (cs : List (Conn Res))
      → e.id ≡ next
      → All (IsGiven next) cs
      → registered e.cid cs ≡ false
      → All (λ c. Differs c e) cs
  unfolding registered
  registered-Differs next e [] i g h = tt
  registered-Differs next e (c ∷ cs) i (g, gs) h = ground (arith, registered-Differs next e cs i gs)

  Distinct-append :
      (e : Conn Res) (cs : List (Conn Res))
      → Distinct cs
      → All (λ c. Differs c e) cs
      → Distinct (cs ++ (e ∷ []))
  unfolding Distinct
  Distinct-append e [] d a = (tt, tt)
  Distinct-append e (c ∷ cs) (g, d) (a, a2) =
      (All-append (Differs c) cs (e ∷ []) g (a, tt), Distinct-append e cs d a2)

module _ {Db Res : Type 0} where
  add_conn_lists-WellFormed :
      (cid : Bytes) (h : Handle) (d : Driver Db Res)
      → WellFormed d
      → WellFormed (add_conn_lists cid h d).0
  unfolding add_conn_lists create_conn
  add_conn_lists-WellFormed cid h d (n, g, u) = elim (Bool-cases (registered cid d.conns)) [
    | inl y ↦ rw y (n, g, u)
    | inr y ↦ rw y (
      omega arith,
      All-append (IsGiven (d.next_conn_id + 1)) d.conns (create_conn d.next_conn_id cid h ∷ [])
          (All-map (IsGiven d.next_conn_id) (IsGiven (d.next_conn_id + 1))
            (λ c g. (g.0, omega (arith, g.1))) d.conns g)
          ((n, omega arith), tt),
      Distinct-append (create_conn d.next_conn_id cid h) d.conns u
          (registered-Differs d.next_conn_id (create_conn d.next_conn_id cid h) d.conns refl g y),
    )
  ]

module _ {Db Res : Type 0} (pq : Libpq Db Res) where
  or_finish-WellFormed :
      (conn : Handle) (r : Driver Db Res × Option ℕ)
      → WellFormed r.0
      → WellFormed (or_finish pq conn r).0
  unfolding or_finish
  or_finish-WellFormed conn (d, none) w = w
  or_finish-WellFormed conn (d, some id) w = w

  -- A connection that is opened keeps the list well formed, whether its name is free or not.
  pub connect-WellFormed :
      (ignore_error : Option Bytes) (conninfo connname : Bytes) (autocommit : Bool)
      (encoding : Bytes) (d : Driver Db Res)
      → WellFormed d
      → WellFormed (connect pq ignore_error conninfo connname autocommit encoding d).0
  unfolding connect
  connect-WellFormed ignore_error conninfo connname autocommit encoding d w =
      elim (Option-cases (pg_connect pq ignore_error conninfo autocommit encoding d.db).1) [
        | inl e ↦ rw (e, connect) w
        | inr ((conn, mode), e) ↦
            let d1 : Driver Db Res = record d {
              db = (pg_connect pq ignore_error conninfo autocommit encoding d.db).0;
              rollback_one_mode = mode;
            } in
            rw (e, connect)
              (or_finish-WellFormed conn (add_conn_lists connname conn d1)
                (add_conn_lists-WellFormed connname conn d1 w))
      ]

  -- So does every operation that sets the result of a connection, whatever it asks of the server,
  pub with_result-WellFormed :
      (id : ℕ) (op : Handle → Db → Db × Option Res) (d : Driver Db Res)
      → WellFormed d
      → WellFormed (with_result pq id op d)
  unfolding with_result
  with_result-WellFormed id op d (n, g, u) = elim (Option-cases (look_up_conn_lists id d.conns)) [
    | inl e ↦ rw (e, with_result) (n, g, u)
    | inr (c, e) ↦
        let f : Conn Res → Conn Res = λ k. record k {
          resaddr = (op c.connaddr (release pq c.resaddr d.db)).1;
          result = result_success;
        } in
        rw (e, with_result)
          (
            n,
            update_conn-IsGiven id d.next_conn_id f d.conns (λ c. (refl, refl)) g,
            update_conn-Distinct id f d.conns (λ c. (refl, refl)) u,
          )
  ]

  pub cursor_open-WellFormed :
      (id : ℕ) (cname : Bytes) (d : Driver Db Res)
      → WellFormed d
      → WellFormed (cursor_open pq id cname d)
  unfolding cursor_open
  cursor_open-WellFormed id cname d (n, g, u) =
      elim (Option-cases (look_up_conn_lists id d.conns)) [
        | inl e ↦ rw (e, cursor_open) (n, g, u)
        | inr (c, e) ↦
            let f : Conn Res → Conn Res = λ k. record k { resaddr = none; result = dummyopen } in
            rw (e, cursor_open)
              (
                n,
                update_conn-IsGiven id d.next_conn_id f d.conns (λ c. (refl, refl)) g,
                update_conn-Distinct id f d.conns (λ c. (refl, refl)) u,
              )
      ]

  pub finish-WellFormed : (id : ℕ) (d : Driver Db Res) → WellFormed d → WellFormed (finish pq id d)
  unfolding finish
  finish-WellFormed id d (n, g, u) = elim (Option-cases (look_up_conn_lists id d.conns)) [
    | inl e ↦ rw (e, finish) (n, g, u)
    | inr (c, e) ↦
        rw (e, finish)
          (
            n,
            free_conn_lists-All (IsGiven d.next_conn_id) id d.conns g,
            free_conn_lists-Distinct id d.conns u,
          )
  ]
