-- ===== src/Cursor/Fetch/Handed.antt =====
-- dblib/ocesql.c: the host variables that the calls behind `OCESQLStartSQL` hand over, at the
-- statement that takes them.
use cobol.Prelude.{
  >>=-eq-some, Bool, Bool-cases, Bytes, List, Option, Option-cases, [], ap, arith, codes, false,
  if◌then◌else◌, inl, inr, length, length-append, ltb, map, neg, refl, some, suc, ℕ, ℤ, ◌++◌, ◌+◌,
  ◌<◌, ◌==◌, ◌>>=◌, ◌∷◌, ◌≡◌, ◌≢◌, ◌⊎◌,
}
use cobol.Field.Buffer.{Memory}
use cobol.Field.Occurs.{SqlVar, create_realdata, set_host_table}
use cobol.Pg.Interface.{Libpq}
use cobol.Conn.{exec, exec_params}
use cobol.Hostvar.{
  Param, HostVars, start_sql, checked_var, add_sql_var_list, add_sql_res_var_list, set_sql_params,
  set_result_params, set_table,
}
use cobol.Cursor.Session.{Session, is_empty}
use cobol.Cursor.Life.{exec_params_query}
use cobol.Cursor.Opened.{exec_params_query-count}
use cobol.Cursor.Fetch.Select.{values_of}

-- After `OCESQLStartSQL`, `k` calls of `OCESQLSetSQLParams` that succeeded, and any of
-- `OCESQLSetResultParams` and `OCESQLSetHostTable`.
pub data Handed : ℕ → HostVars → Type 0 where
  started : Handed 0 start_sql
  hands :
      (type length power : ℤ) (addr : ℕ) (m : Memory) {k : ℕ} {h h' : HostVars}
      → Handed k h
      → set_sql_params type length power addr m h ≡ some (h', 0)
      → Handed (suc k) h'
  sets_result :
      (type length power : ℤ) (addr : ℕ) {k : ℕ} {h : HostVars}
      → Handed k h
      → Handed k (set_result_params type length power addr h).0
  sets_table :
      (iter length : ℤ) (is_parent : Bool) {k : ℕ} {h : HostVars}
      → Handed k h
      → Handed k (set_table iter length is_parent h).0

-- The list of parameters is there, and has `k` elements.
abbrev HasParams : ℕ → HostVars → Type 0
HasParams k h = (vs : List Param) × ((h.sql_vars ≡ some vs) × (length vs ≡ k))

added :
    (sv : SqlVar) (m : Memory) (k : ℕ) (h h' : HostVars)
    → HasParams k h
    → add_sql_var_list sv m h ≡ some (h', 0)
    → HasParams (suc k) h'
unfolding add_sql_var_list
added sv m k h h' (vs, (e, l)) q =
    let g0 : Bytes → Option (HostVars × ℕ) = λ (realdata : Bytes). some (
      record h {
        sql_vars = some (vs ++ ((sv, realdata) ∷ []));
        var_lists_length = h.var_lists_length + 1;
      },
      0,
    ) in
    let g1 : (create_realdata h.table sv 0 m >>= g0) ≡ some (h', 0) = ground (arith, e) in
    let (realdata, _, g) = >>=-eq-some (create_realdata h.table sv 0 m) g0 g1 in
    let r : record h {
      sql_vars = some (vs ++ ((sv, realdata) ∷ []));
      var_lists_length = h.var_lists_length + 1;
    }
        ≡ h' =
      cc g in
    rw (← r) (
      vs ++ ((sv, realdata) ∷ []),
      (refl, omega (arith, l, length-append vs ((sv, realdata) ∷ []))),
    )

Handed-HasParams : {k : ℕ} {h : HostVars} → Handed k h → HasParams k h
unfolding start_sql set_sql_params set_result_params set_table add_sql_res_var_list
Handed-HasParams started = ([], (refl, refl))
Handed-HasParams (hands type len power addr m {k} {h} {h'} d q) =
    elim (Option-cases (checked_var type len power addr)) [
      | inl n ↦ ground (arith, n, q)
      | inr (sv, n) ↦ added sv m k h h' (Handed-HasParams d) (ground (arith, n, q))
    ]
Handed-HasParams (sets_result type len power addr {k} {h} d) =
    elim (Option-cases (checked_var type len power addr)) [
      | inl n ↦ rw (n, set_result_params) (Handed-HasParams d)
      | inr (sv, n) ↦
          rw (n, set_result_params, add_sql_res_var_list)
            (elim (Option-cases h.sql_res_vars) [
              | inl r ↦ rw r (Handed-HasParams d)
              | inr (rs, r) ↦ rw r (Handed-HasParams d)
            ])
    ]
Handed-HasParams (sets_table iter len is_parent {k} {h} d) =
    elim (Option-cases (set_host_table iter len is_parent)) [
      | inl n ↦ rw (n, set_table) (Handed-HasParams d)
      | inr (t, n) ↦ rw (n, set_table) (Handed-HasParams d)
    ]

length-map : {A B : Type 0} → (f : A → B) → (xs : List A) → length (map f xs) ≡ length xs
length-map f [] = refl
length-map f (x ∷ xs) = ap suc (length-map f xs)

module _ {Db Res : Type 0} (pq : Libpq Db Res) where
  exec_params_query-agrees :
      (id : ℕ) (query : Bytes) (n : ℕ) (values : List (Option Bytes)) (s : Session Db Res SqlVar)
      → is_empty query ≡ false
      → 0 < n
      → n ≡ length values
      → let d1 = exec_params pq id query values s.driver in
        let d = (exec_params_query pq id query n values s).driver in
        (d ≡ d1) ⊎ (d ≡ exec pq id (codes "BEGIN") d1)
  unfolding exec_params_query
  exec_params_query-agrees id query n values s e p l = ground (arith, e, p, l)

  -- Behind `OCESQLStartSQL`, `k` calls of `OCESQLSetSQLParams` that succeed, and any calls of
  -- `OCESQLSetResultParams` and `OCESQLSetHostTable`, there are `k` values, and of a statement that
  -- is not empty and announces `n` parameters, `n` not 0: if `n` is `k`, it is sent once with these
  -- values, and behind it only a `BEGIN` may be; otherwise the connections and the cursors stay as
  -- they are, and `sqlcode` is -201 where `n` is too small and -202 where it is too large.
  pub exec_params_query-Handed :
      (k : ℕ) (h : HostVars) (id : ℕ) (query : Bytes) (n : ℕ) (s : Session Db Res SqlVar)
      → Handed k h
      → is_empty query ≡ false
      → 0 < n
      → let values = values_of h in
        let d1 = exec_params pq id query values s.driver in
        let s' = exec_params_query pq id query n values s in
        (length values ≡ k)
        × (((n ≡ k) × ((s'.driver ≡ d1) ⊎ (s'.driver ≡ exec pq id (codes "BEGIN") d1)))
            ⊎ ((n ≢ k)
                × (s'.driver ≡ s.driver)
                × (s'.cursors ≡ s.cursors)
                × (s'.sqlca.sqlcode ≡ (if ltb n k then neg 201 else neg 202))))
  exec_params_query-Handed k h id query n s c e p =
      let (vs, (r, l)) = Handed-HasParams c in
      let v : length (values_of h) ≡ k = rw r (rw (length-map (λ (p : Param). some p.1) vs) l) in
      elim (Bool-cases (n == k)) [
        | inl b ↦ (
          v,
          inl (
            ground (arith, b),
            exec_params_query-agrees id query n (values_of h) s e p (ground (arith, b, v)),
          ),
        )
        | inr b ↦
            let (d, cs, st) =
              exec_params_query-count pq id query n (values_of h) s e (ground (arith, p))
                (ground (arith, b, v)) in
            (v, inr (ground (arith, b), d, cs, rw (← v) st))
      ]
