-- ===== src/Conn/Names.antt =====
-- dblib/ocdb.c: how a connection's name leads to it, across connecting and finishing.
use cobol.Prelude.{
  All, Bool-cases, Bytes, List, Option, Option-cases, [], arith, false, inl, inr, none, refl, some,
  str_eq, str_eq_iff, str_eq→eq, sym, ℕ, ◌++◌, ◌↔◌, ◌∙◌, ◌∷◌, ◌≡◌, ◌≢◌,
}
use cobol.Sqlca.{result_success}
use cobol.Pg.Interface.{Libpq, Handle}
use cobol.Pg.{release}
use cobol.Conn.{
  Conn, Driver, look_up_conn_lists, update_conn, with_result, resolve_connid, registered,
  free_conn_lists,
}
use cobol.Conn.Invariant.{Distinct, Differs}

str_eq_sym : (s t : Bytes) → str_eq s t ≡ str_eq t s
str_eq_sym s t = ground (arith, str_eq_iff s t, str_eq_iff t s)

module _ {Res : Type 0} where
  -- The two walks over names agree.
  pub registered_iff :
      (cid : Bytes) (cs : List (Conn Res))
      → (registered cid cs ≡ false) ↔ (resolve_connid cid cs ≡ none)
  unfolding registered resolve_connid
  registered_iff cid [] = ground arith
  registered_iff cid (c ∷ cs) = ground (arith, registered_iff cid cs, str_eq_sym cid c.cid)

  pub resolve_connid-mem :
      (P : Conn Res → Type 0) (cid : Bytes) (cs : List (Conn Res)) (id : ℕ)
      → resolve_connid cid cs ≡ some id
      → All P cs
      → (c : Conn Res) × (c.id ≡ id) × (c.cid ≡ cid) × P c
  unfolding resolve_connid
  resolve_connid-mem P cid [] id h a = cc
  resolve_connid-mem P cid (c ∷ cs) id h (p, a) = elim (Bool-cases (str_eq cid c.cid)) [
    | inl y ↦ (c, ground arith, sym (str_eq→eq cid c.cid y), p)
    | inr y ↦ resolve_connid-mem P cid cs id (ground arith) a
  ]

  resolve_connid-none :
      (c : Conn Res) (cs : List (Conn Res)) → All (Differs c) cs → resolve_connid c.cid cs ≡ none
  unfolding resolve_connid
  resolve_connid-none c [] h = refl
  resolve_connid-none c (e ∷ cs) (g, h) = ground (arith, resolve_connid-none c cs h)

  pub resolve_connid-other :
      (c : Conn Res) (cid : Bytes) (cs : List (Conn Res)) (id : ℕ)
      → All (Differs c) cs
      → resolve_connid cid cs ≡ some id
      → c.id ≢ id
  resolve_connid-other c cid cs id h r =
      let (e, i, n, d) = resolve_connid-mem (Differs c) cid cs id r h in λ q. d.0 (i ∙ sym q)

  pub resolve_connid-look_up_list :
      (cid : Bytes) (cs : List (Conn Res)) (id : ℕ)
      → Distinct cs
      → resolve_connid cid cs ≡ some id
      → (c : Conn Res) × (look_up_conn_lists id cs ≡ some c) × (c.cid ≡ cid)
  unfolding resolve_connid look_up_conn_lists Distinct
  resolve_connid-look_up_list cid [] id u h = cc
  resolve_connid-look_up_list cid (c ∷ cs) id (g, u) h = elim (Bool-cases (str_eq cid c.cid)) [
    | inl y ↦ (c, ground arith, sym (str_eq→eq cid c.cid y))
    | inr y ↦
        let r : resolve_connid cid cs ≡ some id = ground arith in
        let (e, l, n) = resolve_connid-look_up_list cid cs id u r in
        (e, ground (arith, resolve_connid-other c cid cs id g r), n)
  ]

  pub resolve_connid-append :
      (cid : Bytes) (cs es : List (Conn Res))
      → resolve_connid cid cs ≡ none
      → resolve_connid cid (cs ++ es) ≡ resolve_connid cid es
  unfolding resolve_connid
  resolve_connid-append cid [] es h = refl
  resolve_connid-append cid (c ∷ cs) es h = ground (arith, resolve_connid-append cid cs es)

  pub resolve_connid-snoc :
      (cid : Bytes) (cs : List (Conn Res)) (e : Conn Res)
      → str_eq cid e.cid ≡ false
      → resolve_connid cid (cs ++ (e ∷ [])) ≡ resolve_connid cid cs
  unfolding resolve_connid
  resolve_connid-snoc cid [] e h = ground arith
  resolve_connid-snoc cid (c ∷ cs) e h = ground (arith, resolve_connid-snoc cid cs e h)

  pub resolve_connid-free :
      (cid : Bytes) (cs : List (Conn Res)) (id : ℕ)
      → Distinct cs
      → resolve_connid cid cs ≡ some id
      → resolve_connid cid (free_conn_lists id cs) ≡ none
  unfolding resolve_connid free_conn_lists Distinct
  resolve_connid-free cid [] id u h = refl
  resolve_connid-free cid (c ∷ cs) id (g, u) h = elim (Bool-cases (str_eq cid c.cid)) [
    | inl y ↦ ground (arith, str_eq→eq cid c.cid y, resolve_connid-none c cs g)
    | inr y ↦
        let r : resolve_connid cid cs ≡ some id = ground arith in
        ground (arith, resolve_connid-other c cid cs id g r, resolve_connid-free cid cs id u r)
  ]

  look_up-Differs :
      (c : Conn Res) (cs : List (Conn Res)) → All (Differs c) cs → look_up_conn_lists c.id cs ≡ none
  unfolding look_up_conn_lists
  look_up-Differs c [] g = refl
  look_up-Differs c (e ∷ cs) (n, g) = ground (arith, n, look_up-Differs c cs g)

  pub look_up-free :
      (id : ℕ) (cs : List (Conn Res))
      → Distinct cs
      → look_up_conn_lists id (free_conn_lists id cs) ≡ none
  unfolding look_up_conn_lists free_conn_lists Distinct
  look_up-free id [] u = refl
  look_up-free id (c ∷ cs) (g, u) = ground (arith, look_up-Differs c cs g, look_up-free id cs u)

  pub resolve_connid-free_other :
      (cid : Bytes) (cs : List (Conn Res)) (id : ℕ)
      → Distinct cs
      → resolve_connid cid cs ≢ some id
      → resolve_connid cid (free_conn_lists id cs) ≡ resolve_connid cid cs
  unfolding resolve_connid free_conn_lists Distinct
  resolve_connid-free_other cid [] id u h = refl
  resolve_connid-free_other cid (c ∷ cs) id (g, u) h =
      ground (arith, resolve_connid-free_other cid cs id u)

  pub resolve_connid-update :
      (cid : Bytes) (id : ℕ) (f : Conn Res → Conn Res) (cs : List (Conn Res))
      → ((c : Conn Res) → ((f c).id ≡ c.id) × ((f c).cid ≡ c.cid))
      → resolve_connid cid (update_conn id f cs) ≡ resolve_connid cid cs
  unfolding resolve_connid update_conn
  resolve_connid-update cid id f [] k = refl
  resolve_connid-update cid id f (c ∷ cs) k =
      ground (arith, k c, resolve_connid-update cid id f cs k)

-- What is asked of a connection changes no name.
pub with_result-resolve :
    {Db Res : Type 0} (pq : Libpq Db Res) (cid : Bytes) (id : ℕ)
    (op : Handle → Db → Db × Option Res) (d : Driver Db Res)
    → resolve_connid cid (with_result pq id op d).conns ≡ resolve_connid cid d.conns
unfolding with_result
with_result-resolve pq cid id op d = elim (Option-cases (look_up_conn_lists id d.conns)) [
  | inl n ↦ ground arith
  | inr (c, n) ↦
      let (db1, res) = op c.connaddr (release pq c.resaddr d.db) in
      rw (n, with_result)
        (resolve_connid-update cid id (λ c. record c { resaddr = res; result = result_success })
          d.conns (λ c. (refl, refl)))
]
