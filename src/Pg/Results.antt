-- ===== src/Pg/Results.antt =====
-- What a COBOL program learns of a result: `OCDB_PGSetResultStatus` of dblib/ocpgsql.c.
use cobol.Prelude.{
  All, Bytes, List, Option, [], arith, drop, false, if◌then◌else◌, inl, inr, is_neg, length,
  length-append, length-drop, length-take, ltb_ℤ, none, pos, refl, some, suc, take, true, zero, ℕ,
  ℤ, ◌%◌, ◌+◌, ◌/◌, ◌<◌, ◌↔◌, ◌∷◌, ◌≡◌, ◌≤◌, ◌⊎◌,
}
use cobol.Sqlca.{Sqlca, result_success}
use cobol.Pg.Interface.{
  Libpq, ExecStatus, command_ok, tuples_ok, empty_query, copy_out, copy_in, bad_response,
  nonfatal_error, fatal_error,
}
use cobol.Pg.Query.{show, show_digits, atoi_digits}
use cobol.Pg.{
  state_table, code_of_state, error_status, status_of_result, set_message, pg_set_result_status,
}

abbrev Negative : Bytes × ℤ → Type 0
Negative (k, code) = is_neg code ≡ true

code_of_state-neg :
    (s : Bytes) (rows : List (Bytes × ℤ)) → All Negative rows → is_neg (code_of_state s rows) ≡ true
unfolding code_of_state
code_of_state-neg s [] h = refl
code_of_state-neg s ((k, code) ∷ rows) (n, h) = ground (arith, code_of_state-neg s rows h)

state_table_neg : All Negative state_table
state_table_neg = ground arith

error_status-neg : (state : Option Bytes) → is_neg (error_status state).0 ≡ true
unfolding error_status
error_status-neg none = refl
error_status-neg (some s) = code_of_state-neg s state_table state_table_neg

module _ {Db Res : Type 0} (pq : Libpq Db Res) where
  -- A status that is no error is that of a command, or of a query with its rows.
  abbrev pub Succeeds : Option Res → ExecStatus → ℤ → Type 0
  Succeeds res status code =
      ((status ≡ command_ok) × (code ≡ pos 0))
      ⊎ ((status ≡ tuples_ok)
          × (code ≡ (if ltb_ℤ (pos 0) (pq.ntuples res) then pos 0 else pos 100)))

  status_of_result-cases :
      (res : Option Res) (status : ExecStatus)
      → (is_neg (status_of_result pq res status).0 ≡ true)
        ⊎ Succeeds res status (status_of_result pq res status).0
  unfolding status_of_result
  status_of_result-cases res command_ok = inr (inl (refl, refl))
  status_of_result-cases res tuples_ok = inr (inr (refl, ground arith))
  status_of_result-cases res empty_query = inl refl
  status_of_result-cases res nonfatal_error = inl (error_status-neg (pq.error_field res))
  status_of_result-cases res fatal_error = inl (error_status-neg (pq.error_field res))
  status_of_result-cases res bad_response = inl refl
  status_of_result-cases res copy_out = inl refl
  status_of_result-cases res copy_in = inl refl

  -- A status is reported as success exactly if `sqlcode` is not negative, and then the result is
  -- that of a command, with `sqlcode` 0, or that of a query, with 0 if it has rows and 100 if not.
  pub pg_set_result_status-success :
      (res : Option Res) (st : Sqlca)
      → let (st', r) = pg_set_result_status pq res st in
        ((r ≡ result_success) ↔ (is_neg st'.sqlcode ≡ false))
        × ((r ≡ result_success) → Succeeds res (pq.result_status res) st'.sqlcode)
  unfolding pg_set_result_status
  pg_set_result_status-success res st = elim (status_of_result-cases res (pq.result_status res)) [
    | inl e ↦ rw e (ground arith)
    | inr ok ↦
        let n : is_neg (status_of_result pq res (pq.result_status res)).0 ≡ false = ground arith in
        rw n (ground arith)
  ]

  -- The message area keeps its size, and the length that is set for it.
  pub set_message-bound :
      (msg : Option Bytes) (st : Sqlca)
      → length st.sqlerrmc ≡ 70
      → st.sqlerrml ≤ 70
      → let st' = set_message pq msg st in (length st'.sqlerrmc ≡ 70) × (st'.sqlerrml ≤ 70)
  unfolding set_message
  set_message-bound none st h l = (h, l)
  set_message-bound (some msg) st h l =
      let text = take 70 msg in
      (
        omega (
          arith,
          length-append text (drop (length text) st.sqlerrmc),
          length-drop (length text) st.sqlerrmc,
          length-take 70 msg,
        ),
        omega (arith, length-take 70 msg),
      )

show_digits-atoi :
    (fuel n : ℕ) (out : Bytes)
    → n < fuel
    → atoi_digits 0 (show_digits fuel n out) ≡ atoi_digits n out
unfolding show_digits atoi_digits
show_digits-atoi zero n out h = absurd (omega arith)
show_digits-atoi (suc fuel) n out h =
    ground (arith, show_digits-atoi fuel (n / 10) ((b'0' + n % 10) ∷ out))

-- The count of a block fetch is read back from its decimal text.
pub atoi_digits-show : (n : ℕ) → atoi_digits 0 (show n) ≡ n
unfolding show atoi_digits
atoi_digits-show n = show_digits-atoi (n + 1) n [] (omega arith)
