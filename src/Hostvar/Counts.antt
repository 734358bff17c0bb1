-- ===== src/Hostvar/Counts.antt =====
-- dblib/ocesql.c: the counters of the host variables are the lengths of the lists.
use cobol.Prelude.{
  >>=-eq-some, All, All-append, Bool, Bytes, List, Option, Option-cases, [], ap, arith, inl, inr,
  length, length-append, negsuc, none, pos, some, ℕ, ℤ, ◌++◌, ◌+◌, ◌<◌, ◌>>=◌, ◌∙◌, ◌∷◌, ◌≡◌,
}
use cobol.Field.Buffer.{Memory}
use cobol.Field.Occurs.{SqlVar, create_realdata, set_host_table}
use cobol.Hostvar.{
  Param, HostVars, reset_sql_var_list, start_sql, end_sql, checked_var, add_sql_var_list,
  add_sql_res_var_list, set_sql_params, set_result_params, set_table,
}

abbrev pub elements {ℓ} : {A : Type ℓ} → Option (List A) → List A
elements none = []
elements (some xs) = xs

-- Each counter is the length of its list, and every variable has an address.
pub record IsCounted (h : HostVars) : Type 0 where
  pub params : h.var_lists_length ≡ length (elements h.sql_vars)
  pub results : h.res_var_lists_length ≡ length (elements h.sql_res_vars)
  pub params_placed : All (λ p. 0 < p.0.addr) (elements h.sql_vars)
  pub results_placed : All (λ sv. 0 < sv.addr) (elements h.sql_res_vars)

-- A call of one of the entry points that collect host variables, which succeeds or fails.
pub data Step : HostVars → HostVars → Type 0 where
  starts : (h : HostVars) → Step h start_sql
  ends : (h : HostVars) → Step h end_sql
  sets_param :
      (type length power : ℤ) (addr r : ℕ) (m : Memory) (h h' : HostVars)
      → set_sql_params type length power addr m h ≡ some (h', r)
      → Step h h'
  sets_result :
      (type length power : ℤ) (addr : ℕ) (h : HostVars)
      → Step h (set_result_params type length power addr h).0
  sets_table :
      (iter length : ℤ) (is_parent : Bool) (h : HostVars)
      → Step h (set_table iter length is_parent h).0

pub data Reachable : HostVars → Type 0 where
  at_start : Reachable reset_sql_var_list
  steps : {h h' : HostVars} → Reachable h → Step h h' → Reachable h'

checked_var-placed :
    (type length power : ℤ) (addr : ℕ) {sv : SqlVar}
    → checked_var type length power addr ≡ some sv
    → 0 < sv.addr
unfolding checked_var
checked_var-placed (negsuc t) n power addr h = cc
checked_var-placed (pos t) (negsuc n) power addr h = cc
checked_var-placed (pos t) (pos n) power addr h = ground arith

add_param-IsCounted :
    (sv : SqlVar) (realdata : Bytes) (vs : List Param) (h : HostVars)
    → 0 < sv.addr
    → IsCounted h
    → h.sql_vars ≡ some vs
    → IsCounted (record h {
      sql_vars = some (vs ++ ((sv, realdata) ∷ []));
      var_lists_length = h.var_lists_length + 1;
    })
add_param-IsCounted sv realdata vs h p c e =
    let l : h.var_lists_length ≡ length vs =
      c.params ∙ ap (λ (o : Option (List Param)). length (elements o)) e in
    let q : All (λ p. 0 < p.0.addr) vs = rw (← ap elements e) c.params_placed in
    record {
      params = omega (arith, l, length-append vs ((sv, realdata) ∷ []));
      results = c.results;
      params_placed = All-append (λ (p : Param). 0 < p.0.addr) vs ((sv, realdata) ∷ []) q (p, tt);
      results_placed = c.results_placed;
    }

add_sql_var_list-IsCounted :
    (sv : SqlVar) (m : Memory) (h h' : HostVars) (r : ℕ)
    → 0 < sv.addr
    → IsCounted h
    → add_sql_var_list sv m h ≡ some (h', r)
    → IsCounted h'
unfolding add_sql_var_list
add_sql_var_list-IsCounted sv m h h' r p c e = elim (Option-cases h.sql_vars) [
  | inl n ↦ let q : h ≡ h' = ground arith in rw (← q) c
  | inr (vs, n) ↦
      let g0 : Bytes → Option (HostVars × ℕ) = λ (realdata : Bytes). some (
        record h {
          sql_vars = some (vs ++ ((sv, realdata) ∷ []));
          var_lists_length = h.var_lists_length + 1;
        },
        0,
      ) in
      let g1 : (create_realdata h.table sv 0 m >>= g0) ≡ some (h', r) = ground arith in
      let (realdata, _, g) = >>=-eq-some (create_realdata h.table sv 0 m) g0 g1 in
      let q : record h {
        sql_vars = some (vs ++ ((sv, realdata) ∷ []));
        var_lists_length = h.var_lists_length + 1;
      }
          ≡ h' =
        cc g in
      rw (← q) (add_param-IsCounted sv realdata vs h p c n)
]

add_sql_res_var_list-IsCounted :
    (sv : SqlVar) (h : HostVars)
    → 0 < sv.addr
    → IsCounted h
    → IsCounted (add_sql_res_var_list sv h).0
unfolding add_sql_res_var_list
add_sql_res_var_list-IsCounted sv h p c = elim (Option-cases h.sql_res_vars) [
  | inl n ↦ rw (n, add_sql_res_var_list) c
  | inr (vs, n) ↦
      let l : h.res_var_lists_length ≡ length vs =
        c.results ∙ ap (λ (o : Option (List SqlVar)). length (elements o)) n in
      let q : All (λ sv. 0 < sv.addr) vs = rw (← ap elements n) c.results_placed in
      rw (n, add_sql_res_var_list)
        (record {
          params = c.params;
          results = omega (arith, l, length-append vs (sv ∷ []));
          params_placed = c.params_placed;
          results_placed = All-append (λ (v : SqlVar). 0 < v.addr) vs (sv ∷ []) q (p, tt);
        })
]

Step-IsCounted : {h h' : HostVars} → Step h h' → IsCounted h → IsCounted h'
unfolding start_sql end_sql set_sql_params set_result_params set_table
Step-IsCounted (starts h) c = ground arith
Step-IsCounted (ends h) c = ground arith
Step-IsCounted (sets_param type length power addr r m h h' e) c =
    elim (Option-cases (checked_var type length power addr)) [
      | inl n ↦ let q : h ≡ h' = ground arith in rw (← q) c
      | inr (sv, n) ↦
          add_sql_var_list-IsCounted sv m h h' r (checked_var-placed type length power addr n) c
            (ground arith)
    ]
Step-IsCounted (sets_result type length power addr h) c =
    elim (Option-cases (checked_var type length power addr)) [
      | inl n ↦ rw (n, set_result_params) c
      | inr (sv, n) ↦
          rw (n, set_result_params)
            (add_sql_res_var_list-IsCounted sv h (checked_var-placed type length power addr n) c)
    ]
Step-IsCounted (sets_table iter length is_parent h) c =
    elim (Option-cases (set_host_table iter length is_parent)) [
      | inl n ↦ rw (n, set_table) c
      | inr (t, n) ↦
          rw (n, set_table)
            (record {
              params = c.params;
              results = c.results;
              params_placed = c.params_placed;
              results_placed = c.results_placed;
            })
    ]

-- After any calls of the entry points that collect host variables, whether they succeed or fail,
-- each counter is the length of its list, and every variable in the lists has an address.
pub Reachable-IsCounted : {h : HostVars} → Reachable h → IsCounted h
unfolding reset_sql_var_list
Reachable-IsCounted at_start = ground arith
Reachable-IsCounted (steps r s) = Step-IsCounted s (Reachable-IsCounted r)
