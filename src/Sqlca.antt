-- ===== src/Sqlca.antt =====
-- The SQL communication area of dblib/ocpgsql.h, and the codes that the run-time library's own
-- errors set in it (`OCDB_PGSetLibErrorStatus` of dblib/ocpgsql.c).
pub mod LibError
pub mod Status
use cobol.Prelude.{
  ==_iff, >>=-eq-some, All, All-append, Bool, Bool-cases, Bytes, IsNeg, Lacks, List, Option,
  Option-cases, [], ap, append-nil, append_assoc, arith, codes, drop, drop-length-append, eq→str_eq,
  false, get_elem?, get_or, if◌then◌else◌, inl, inr, is_neg, leb, leb→le, length, length-append,
  length-drop, length-replicate, length-take, ltb, ltb_ℤ, ltb→lt, lt→ltb, map, neg, neg_part,
  negsuc, none, not, pos, pos_add, pos_part, refl, replicate, some, str_eq, str_eq_iff, str_eq_refl,
  str_eq→eq, sub_ℕ, suc, sym, take, take-append-drop, take-length-append, tests, true, zero, ℕ, ℤ,
  ◌%◌, ◌&&◌, ◌*◌, ◌++◌, ◌+ℤ◌, ◌+◌, ◌-◌, ◌/◌, ◌<◌, ◌==◌, ◌>>=◌, ◌^◌, ◌||◌, ◌↔◌, ◌∙◌, ◌∷◌, ◌≡◌, ◌≢◌,
  ◌≤◌, ◌⊎◌,
}

-- The fields that the library writes behind `sqlca_initialize`; of `sqlerrd` only entry 2 is used.
pub record Sqlca : Type 0 where
  pub sqlcode : ℤ
  pub sqlstate : Bytes
  pub sqlerrd2 : ℤ
  pub sqlerrml : ℕ
  pub sqlerrmc : Bytes

-- `sqlca_init`
abbrev pub sqlca_init : Sqlca
sqlca_init = record {
  sqlcode = pos 0;
  sqlstate = codes "     ";
  sqlerrd2 = pos 0;
  sqlerrml = 0;
  sqlerrmc = replicate 70 0;
}

abbrev pub result_success : ℤ
result_success = pos 0

abbrev pub result_failed : ℤ
result_failed = neg 1

abbrev pub result_error : ℤ
result_error = neg 2

abbrev pub undefined_error : ℤ
undefined_error = neg 9999

-- `OCPG_VAR_NOT_CHAR`, a code of `sqlcode` and none of the enumeration.
abbrev pub ocpg_var_not_char : ℤ
ocpg_var_not_char = neg 244

-- One case of the `switch`: the error, its `sqlcode`, and its `sqlstate` if the case sets one.
abbrev pub StatusRow : Type 0
StatusRow = ℕ × ℤ × Option Bytes

abbrev pub status_table : List StatusRow
status_table =
    (1, pos 0, some (codes "00000"))
    ∷ (2, pos 100, some (codes "02000"))
    ∷ (3, neg 12, some (codes "YE001"))
    ∷ (4, neg 200, some (codes "YE002"))
    ∷ (5, neg 201, some (codes "07001"))
    ∷ (6, neg 202, some (codes "07002"))
    ∷ (7, neg 203, some (codes "21000"))
    ∷ (8, neg 204, some (codes "42804"))
    ∷ (17, neg 212, some (codes "YE002"))
    ∷ (18, neg 213, some (codes "22002"))
    ∷ (21, neg 220, some (codes "08003"))
    ∷ (22, neg 221, some (codes "YE002"))
    ∷ (23, neg 230, some (codes "26000"))
    ∷ (24, neg 239, some (codes "23505"))
    ∷ (25, neg 240, some (codes "33000"))
    ∷ (26, neg 241, some (codes "07009"))
    ∷ (27, neg 242, some (codes "YE002"))
    ∷ (28, neg 243, some (codes "07006"))
    ∷ (29, neg 244, some (codes "07006"))
    ∷ (30, neg 284, some (codes "21000"))
    ∷ (31, neg 400, none)
    ∷ (32, neg 401, some (codes "08007"))
    ∷ (33, neg 402, some (codes "08001"))
    ∷ (34, neg 403, some (codes "23505"))
    ∷ (35, neg 404, some (codes "21000"))
    ∷ (36, neg 602, some (codes "34000"))
    ∷ (37, neg 603, some (codes "25001"))
    ∷ (38, neg 604, some (codes "25P01"))
    ∷ (39, neg 605, some (codes "42P03"))
    ∷ (40, neg 606, some (codes "57033"))
    ∷ (41, neg 607, some (codes "     "))
    ∷ []

unfoldable pub status_row : ℕ → List StatusRow → Option (ℤ × Option Bytes)
status_row e [] = none
status_row e ((k, code, state) ∷ rows) = if e == k then some (code, state) else status_row e rows

-- `default` of the `switch`.
abbrev pub or_undefined : Option (ℤ × Option Bytes) → ℤ × Option Bytes
or_undefined none = (undefined_error, some (codes "     "))
or_undefined (some r) = r

unfoldable pub lib_status : ℤ → ℤ × Option Bytes
unfolding status_row
lib_status (pos e) = or_undefined (status_row e status_table)
lib_status (negsuc e) = or_undefined none

abbrev pub state_or : Option Bytes → Bytes → Bytes
state_or none old = old
state_or (some s) old = s

-- The communication area and the return value.
unfoldable pub set_lib_error_status : ℤ → Sqlca → Sqlca × ℤ
set_lib_error_status e st =
    let (code, state) = lib_status e in
    (
      record st { sqlcode = code; sqlstate = state_or state st.sqlstate },
      if is_neg code then result_error else result_success,
    )

-- The call where the return value is not used.
abbrev pub lib_error : ℤ → Sqlca → Sqlca
lib_error e st = (set_lib_error_status e st).0
