-- ===== src/Cursor/Fetch/Selected.antt =====
-- dblib/ocesql.c: what a `SELECT INTO` leaves in the program's storage, and which of the statements
-- over a table of host variables are sent.
use cobol.Prelude.{
  ◌<◌, List, ◌-◌, >>=-eq-some, All, Bool-cases, Bytes, Option, ap, arith, false, inl, inr, refl,
  some, suc, sym, true, zero, ℕ, ℤ, ◌+◌, ◌>>=◌, ◌∙◌, ◌≡◌, ◌≤◌, ◌⊎◌,
}
use cobol.Sqlca.{Sqlca}
use cobol.Pg.Interface.{Libpq}
use cobol.Conn.{Driver, exec_params, set_result_status, ntuples, nfields, getvalue}
use cobol.Field.Buffer.{Memory}
use cobol.Hostvar.{HostVars}
use cobol.Cursor.Session.{is_success, is_empty}
use cobol.Cursor.Fetch.{Program, vars_of, write_row, some_rows, equals_pos, at_most}
use cobol.Cursor.Fetch.Rows.{IsKept, IsWritten, filled_cells, write_row-IsWritten}
use cobol.Cursor.Fetch.Select.{
  params_of, values_at, select, take_selected, select_into_one, exec_each,
}

module _ {Db Res : Type 0} (pq : Libpq Db Res) where
  -- The statements for `j` elements of the parameters from `index` on, in order.
  pub sent : ℕ → Bytes → HostVars → Memory → ℕ → ℕ → Driver Db Res → Option (Driver Db Res)
  sent id query h m zero index d = some d
  sent id query h m (suc j) index d = values_at h.table index m (params_of h) >>= λ values.
      sent id query h m j (index + 1) (exec_params pq id query values d)

  -- The first `i` statements were sent, and the last of them succeeded.
  abbrev Succeeded : ℕ → Bytes → HostVars → Memory → ℕ → Driver Db Res → ℕ → Type 0
  Succeeded id query h m index d i =
      (di : Driver Db Res) × (st : Sqlca) × (sent id query h m i index d ≡ some di)
      × (is_success (set_result_status pq id di st).1 ≡ true)

  -- Either all `k` statements were sent and succeeded, or the last one sent failed, and its status
  -- is reported, and all before it succeeded.
  abbrev pub SentUntilFailure :
      ℕ → Bytes → HostVars → Memory → ℕ → ℕ → Driver Db Res → Driver Db Res → Sqlca → Type 0
  SentUntilFailure id query h m k index d d' st' =
      (j : ℕ) × (j ≤ k)
      × (sent id query h m j index d ≡ some d')
      × (((j ≡ k) × ((i : ℕ) → 0 < i → i ≤ k → Succeeded id query h m index d i))
          ⊎ ((st : Sqlca) × (is_success (set_result_status pq id d' st).1 ≡ false)
              × (st' ≡ (set_result_status pq id d' st).0)
              × ((i : ℕ) → 0 < i → i < j → Succeeded id query h m index d i)))

  -- One statement more in front, which succeeded.
  first-Succeeded :
      (id : ℕ) (query : Bytes) (h : HostVars) (m : Memory) (index : ℕ) (d : Driver Db Res)
      (values : List (Option Bytes)) (st : Sqlca) (k : ℕ)
      → values_at h.table index m (params_of h) ≡ some values
      → let d1 = exec_params pq id query values d in
        is_success (set_result_status pq id d1 st).1 ≡ true
        → ((i : ℕ) → 0 < i → i ≤ k → Succeeded id query h m (index + 1) d1 i)
        → (i : ℕ) → 0 < i
        → i ≤ suc k
        → Succeeded id query h m index d i
  unfolding sent
  first-Succeeded id query h m index d values st k v y f zero p q = absurd (omega (arith, p))
  first-Succeeded id query h m index d values st k v y f (suc zero) p q =
      (exec_params pq id query values d, st, rw v refl, y)
  first-Succeeded id query h m index d values st k v y f (suc (suc i)) p q =
      let (di, st1, e, z) = f (suc i) (omega arith) (omega (arith, q)) in (di, st1, rw v e, z)

  -- A statement over a table sends one statement after the other, for the elements in order, up to
  -- the first that fails: each one before it succeeded, and the status of the one that failed is
  -- reported.
  pub exec_each-SentUntilFailure :
      (id : ℕ) (query : Bytes) (n : ℕ) (h : HostVars) (m : Memory) (k index : ℕ)
      (d d' : Driver Db Res) (st st' : Sqlca)
      → exec_each pq id query n h m k index d st ≡ some (d', st')
      → SentUntilFailure id query h m k index d d' st'
  unfolding exec_each sent
  exec_each-SentUntilFailure id query n h m zero index d d' st st' e =
      (0, omega arith, ground arith, inl (refl, λ i p q. absurd (omega (arith, p, q))))
  exec_each-SentUntilFailure id query n h m (suc k) index d d' st st' e =
      let (values, v, e1) = >>=-eq-some (values_at h.table index m (params_of h)) _ e in
      let d1 = exec_params pq id query values d in
      let (st1, r) = set_result_status pq id d1 st in
      elim (Bool-cases (is_success r)) [
        | inl y ↦
            let g : exec_each pq id query n h m k (index + 1) d1 st1 ≡ some (d', st') =
              ground arith in
            let (j, le, s, w) =
              exec_each-SentUntilFailure id query n h m k (index + 1) d1 d' st1 st' g in
            (
              suc j,
              omega (arith, le),
              rw v s,
              elim w [
                | inl (z, f) ↦
                    inl (ap suc z, first-Succeeded id query h m index d values st k v y f)
                | inr (st2, z, x, f) ↦ inr (
                  st2,
                  z,
                  x,
                  λ i p q.
                      first-Succeeded id query h m index d values st (j - 1) v y
                        (λ i' p' q'. f i' p' (omega (arith, p', q'))) i p (omega (arith, q)),
                )
              ],
            )
        | inr y ↦
            let dq : d1 ≡ d' = ground arith in
            let sq : st1 ≡ st' = ground arith in
            (
              1,
              omega arith,
              rw v (ap some dq),
              inr (
                st,
                ap (λ (x : Driver Db Res). is_success (set_result_status pq id x st).1) (sym dq)
                    ∙ y,
                sym sq ∙ ap (λ (x : Driver Db Res). (set_result_status pq id x st).0) dq,
                λ i p q. absurd (omega (arith, p, q)),
              ),
            )
      ]

  take_selected-IsWritten :
      (id n_res k : ℕ) (p p' : Program Db Res) (r : ℤ)
      → is_success r ≡ true
      → equals_pos (nfields pq id p.session.driver) n_res ≡ true
      → some_rows (ntuples pq id p.session.driver) ≡ some k
      → IsKept p.host.table
          (filled_cells 0 (at_most n_res p.host.res_var_lists_length) 0 (vars_of p.host))
      → take_selected pq id n_res (p, r) ≡ some p'
      → (p'.session ≡ p.session)
        × All
            (IsWritten p.host.table (λ j col. getvalue pq id j col p.session.driver) p'.memory)
            (filled_cells 0 (at_most n_res p.host.res_var_lists_length) 0 (vars_of p.host))
  unfolding take_selected
  take_selected-IsWritten id n_res k p p' r y e t d h =
      let row =
        write_row p.host.table (λ col. getvalue pq id 0 col p.session.driver) 0
          (at_most n_res p.host.res_var_lists_length) 0 (vars_of p.host) p.memory in
      let rest : Memory → Option (Program Db Res) = λ m. some (record p { memory = m }) in
      let g : (row >>= rest) ≡ some p' = ground arith in
      let (m, w, q) = >>=-eq-some row rest g in
      let e1 : record p { memory = m } ≡ p' = cc q in
      rw (← e1) (
        refl,
        write_row-IsWritten p.host.table (λ j col. getvalue pq id j col p.session.driver)
            (at_most n_res p.host.res_var_lists_length) (vars_of p.host) p.memory d w,
      )

  -- A `SELECT INTO` that succeeds, with as many columns as announced and at least one row, leaves in
  -- the field of every result variable what its type makes of the value of its column, if nothing
  -- that is written for a later variable falls into the field of an earlier one; a signed number in
  -- DISPLAY with a trailing sign is written with a NUL behind its field.
  pub select_into_one-IsWritten :
      (id : ℕ) (query : Bytes) (n n_res k : ℕ) (p p' : Program Db Res)
      → let (p1, r) = select pq id query n p in
        is_empty query ≡ false
        → is_success r ≡ true
        → equals_pos (nfields pq id p1.session.driver) n_res ≡ true
        → some_rows (ntuples pq id p1.session.driver) ≡ some k
        → IsKept p.host.table
            (filled_cells 0 (at_most n_res p.host.res_var_lists_length) 0 (vars_of p.host))
        → select_into_one pq id query n n_res p ≡ some p'
        → (p'.session ≡ p1.session)
          × All
              (IsWritten p.host.table (λ j col. getvalue pq id j col p1.session.driver) p'.memory)
              (filled_cells 0 (at_most n_res p.host.res_var_lists_length) 0 (vars_of p.host))
  unfolding select_into_one
  select_into_one-IsWritten id query n n_res k p p' f y e t d h =
      let (p1, r) = select pq id query n p in
      take_selected-IsWritten id n_res k p1 p' r y e t d (ground arith)
