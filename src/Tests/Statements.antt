-- ===== src/Tests/Statements.antt =====
-- Host variables of a statement.
use cobol.Prelude.{[], arith, codes, false, pos, refl, some, ◌∷◌, ◌≡◌}
use cobol.Util.Hostvalue.{
  get_str_replace_hostvalue, get_str_replace_hostvalue_lem, with_names, with_placeholders,
  NamesAndTexts,
}
use cobol.Pg.Query.{show}
use cobol.Field.Buffer.{Memory, write}
use cobol.Field.Store.{store, store_alphanumeric, alphanumeric}
use cobol.Field.Occurs.{
  SqlVar, HostTable, create_coboldata, create_realdata, create_realdata-create_coboldata,
}
use cobol.Hostvar.{HostVars, reset_sql_var_list, set_result_params, start_sql}
use cobol.Hostvar.Counts.{IsCounted, Reachable-IsCounted, at_start, steps, starts, sets_result}

abbrev pub pair_table : HostTable
pair_table = record { iter = 2; occurs_length = 0; is_parent = false }

abbrev pub name_var : SqlVar
name_var = record { type = alphanumeric; length = 3; power = pos 0; addr = 10 }

abbrev pub blank_memory : Memory
blank_memory = λ x. 0

abbrev first_stored : Memory
first_stored = write blank_memory 10 (codes "ab ")

abbrev pub both_stored : Memory
both_stored = write first_stored 13 (codes "xyz")

create_realdata-create_coboldata_example :
    create_realdata pair_table name_var 0 both_stored ≡ some (codes "ab ")
unfolding create_coboldata store store_alphanumeric
create_realdata-create_coboldata_example =
    create_realdata-create_coboldata pair_table 3 10 0 1 (pos 0) (codes "ab") (codes "xyz")
      blank_memory first_stored both_stored (λ e. absurd (cc e)) (ground arith) (ground arith) refl
      refl

-- One alphanumeric variable is declared for the columns of the result.
abbrev with_result_var : HostVars
with_result_var = (set_result_params (pos 16) (pos 3) (pos 0) 10 start_sql).0

Reachable-IsCounted_example : IsCounted with_result_var
Reachable-IsCounted_example = Reachable-IsCounted (
    steps (steps at_start (starts reset_sql_var_list))
      (sets_result (pos 16) (pos 3) (pos 0) 10 start_sql))

abbrev where_part : NamesAndTexts
where_part = (codes "ID", (b' ', codes "AND B=")) ∷ []

get_str_replace_hostvalue_lem_example :
    get_str_replace_hostvalue (codes "WHERE A=:ID AND B=:NAME") ≡ (codes "WHERE A=$1 AND B=$2", 2)
unfolding with_names with_placeholders show
get_str_replace_hostvalue_lem_example =
    get_str_replace_hostvalue_lem (codes "WHERE A=") where_part (some (codes "NAME")) (ground arith)
