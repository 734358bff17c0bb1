-- ===== src/Sqlca/Status.antt =====
-- Which of the library's own errors a COBOL program sees as errors.
use cobol.Prelude.{
  All, Bytes, List, Option, [], arith, is_neg, negsuc, pos, refl, suc, true, zero, ℕ, ℤ, ◌<◌, ◌∷◌,
  ◌≡◌, ◌≢◌, ◌≤◌, ◌⊎◌,
}
use cobol.Sqlca.{
  Sqlca, StatusRow, status_table, status_row, lib_status, set_lib_error_status, or_undefined,
  result_error,
}

-- A row is an error, or one of the two statuses that are none.
abbrev Sound : StatusRow → Type 0
Sound (k, code, state) = (is_neg code ≡ true) ⊎ (k < 3)

table_lem : All Sound status_table
table_lem = ground arith

abbrev IsError : Option (ℤ × Option Bytes) → Type 0
IsError r = is_neg (or_undefined r).0 ≡ true

status_row-IsError :
    (e : ℕ) (rows : List StatusRow) → 3 ≤ e → All Sound rows → IsError (status_row e rows)
unfolding status_row
status_row-IsError e [] h all = refl
status_row-IsError e ((k, code, state) ∷ rows) h (sound, all) =
    ground (arith, status_row-IsError e rows h all)

lib_status-error : (e : ℤ) → e ≢ pos 1 → e ≢ pos 2 → is_neg (lib_status e).0 ≡ true
unfolding lib_status
lib_status-error (pos zero) h1 h2 = refl
lib_status-error (pos (suc zero)) h1 h2 = absurd (h1 refl)
lib_status-error (pos (suc (suc zero))) h1 h2 = absurd (h2 refl)
lib_status-error (pos (suc (suc (suc n)))) h1 h2 =
    status_row-IsError (suc (suc (suc n))) status_table (omega arith) table_lem
lib_status-error (negsuc n) h1 h2 = refl

-- Every error number but `OCDB_NO_ERROR` and `OCDB_NOT_FOUND`, known or not, gives a negative
-- `sqlcode` and the result `RESULT_ERROR`.
pub set_lib_error_status-error :
    (e : ℤ) (st : Sqlca)
    → e ≢ pos 1
    → e ≢ pos 2
    → let (st', r) = set_lib_error_status e st in (is_neg st'.sqlcode ≡ true) × (r ≡ result_error)
unfolding set_lib_error_status
set_lib_error_status-error e st h1 h2 = let n = lib_status-error e h1 h2 in (n, rw n refl)
