-- ===== src/Tests/Calls.antt =====
-- The calls that the precompiler writes for some statements, and the lists that it builds them from.
use cobol.Prelude.{
  none, All, Bytes, List, [], codes, false, length, pos, refl, some, str_eq, true, ℕ, ◌∷◌, ◌≡◌,
}
use cobol.Precompiler.Fields.{
  CbField, FieldTree, no_field, field, Usage, HostType, looked, getfieldbyname, gethostvarianttype,
}
use cobol.Precompiler.Fields.Lookup.{fields_of, first_named, field_found, getfieldbyname-first}
use cobol.Precompiler.Fields.Groups.{sisters, total, table_of}
use cobol.Precompiler.Calls.{by_text, by_reference, HostReference, ExecList, Source, Out}
use cobol.Precompiler.Calls.Statements.{Table, group_table, ppoutputexecprepare}
use cobol.Precompiler.Calls.Context.{output_exec_params}
use cobol.Precompiler.Calls.Select.{ppbuff}
use cobol.Precompiler.Calls.Reader.{Call, read_calls}
use cobol.Precompiler.Calls.Closed.Whole.{ppbuff-AreCalls}
use cobol.Precompiler.Calls.Announced.{
  Announces, table_call, ppoutputexecprepare-Announces, output_exec_params-Announces,
}
use cobol.Precompiler.Calls.Table.{group_table_lem}
use cobol.Precompiler.Statement.{Parsing, begin_statement, cb_host_list_add, put_exec_list}
use cobol.Precompiler.Statement.Numbered.{
  IsComplete, adds_host, Reachable, at_start, begins, goes_on, puts, Reachable-IsComplete,
}

-- `05 EMP-NO PIC S9(4)` and `05 EMP-NAME PIC X(20) OCCURS n`, in a group.
abbrev number_field : ℕ → CbField
number_field occurs = record {
  sname = codes "EMP-NO";
  level = 5;
  usage = Usage.none_given;
  occurs = occurs;
  pictype = 2;
  picnsize = 4;
  scale = 0;
  have_sign = true;
  sign_leading = false;
  separate = false;
}

abbrev name_field : ℕ → CbField
name_field occurs = record {
  sname = codes "EMP-NAME";
  level = 5;
  usage = Usage.none_given;
  occurs = occurs;
  pictype = 3;
  picnsize = 20;
  scale = 0;
  have_sign = false;
  sign_leading = false;
  separate = false;
}

abbrev pub group_field : CbField
group_field = record {
  sname = codes "EMP";
  level = 1;
  usage = Usage.none_given;
  occurs = 0;
  pictype = 0;
  picnsize = 0;
  scale = 0;
  have_sign = false;
  sign_leading = false;
  separate = false;
}

abbrev parts : ℕ → ℕ → FieldTree
parts m n = field (number_field m) no_field (field (name_field n) no_field no_field)

abbrev description : FieldTree
description = field group_field (parts 0 0) no_field

abbrev source : Source
source = record {
  fields = description;
  line_num = 12;
  inbuff = [];
  varname = none;
  statements = [];
}

abbrev statement : Bytes → List HostReference → ExecList
statement command hosts = record {
  period = true;
  host_list = hosts;
  hostreference_count = length hosts;
  res_host_list = [];
  conn_use_other_db = false;
  db_name = [];
  prepare_name = codes "ST1";
  cursor_name = [];
  command_name = command;
  command_putother = false;
  sql_name = codes "SQ0001";
}

abbrev employee : HostReference
employee = record { hostreference = codes "EMP"; hostno = 1; lineno = 12 }

abbrev pub execute_employee : ExecList
execute_employee = statement (codes "EXECUTE") (employee ∷ [])

abbrev executed : Out
executed = ppoutputexecprepare source execute_employee

execute_employee-executed : ppbuff source execute_employee ≡ some executed
unfolding ppbuff str_eq
execute_employee-executed = refl

executed-quiet : executed.errors ≡ []
unfolding ppoutputexecprepare str_eq gethostvarianttype
executed-quiet = refl

ppbuff-AreCalls_example : (cs : List Call) × (read_calls executed.lines ≡ some cs)
unfolding str_eq
ppbuff-AreCalls_example =
    ppbuff-AreCalls source execute_employee executed refl refl execute_employee-executed
      executed-quiet

ppoutputexecprepare-Announces_example :
    Announces description
      (pos 0)
      (employee ∷ [])
      []
      "OCESQLExecPrepare"
      (by_text (codes "ST1"))
      true
      executed.lines
ppoutputexecprepare-Announces_example =
    ppoutputexecprepare-Announces source execute_employee executed-quiet

-- The table of an INSERT from a group that occurs ten times.
abbrev ten_rows : Table
ten_rows = (pos 10, (24, true))

abbrev insert_employee : ExecList
insert_employee = statement (codes "INSERT") (employee ∷ [])

inserted-quiet : (output_exec_params source insert_employee ten_rows).errors ≡ []
unfolding output_exec_params str_eq gethostvarianttype
inserted-quiet = refl

output_exec_params-Announces_example :
    Announces description
      (pos 10)
      (employee ∷ [])
      (table_call ten_rows ∷ [])
      "OCESQLExecParamsOccurs"
      (by_reference (codes "SQ0001"))
      true
      (output_exec_params source insert_employee ten_rows).lines
output_exec_params-Announces_example =
    output_exec_params-Announces source insert_employee ten_rows inserted-quiet

getfieldbyname-first_example :
    field_found (getfieldbyname description (codes "EMP-NAME"))
    ≡ first_named (codes "EMP-NAME") (fields_of description)
getfieldbyname-first_example = getfieldbyname-first description (codes "EMP-NAME")

-- Ten numbers and five names make a table of five rows.
group_table_lem_example :
    group_table group_field (parts 10 5)
    ≡ (table_of (sisters (parts 10 5)), (total (sisters (parts 10 5)), false))
group_table_lem_example = group_table_lem group_field (parts 10 5)

five_rows : group_table group_field (parts 10 5) ≡ (pos 5, (24, false))
unfolding group_table
five_rows = refl

abbrev employee_number : HostType
employee_number = record { type = some 3; digits = 4; scale = pos 0 }

employee_number-looked : gethostvarianttype description (codes "EMP-NO") ≡ looked employee_number
unfolding gethostvarianttype str_eq
employee_number-looked = refl

-- An INSERT in small letters.
abbrev small_insert : ExecList
small_insert = record (statement (codes "insert") (employee ∷ [])) { prepare_name = [] }

-- Two host variables in one statement.
abbrev empty : Parsing
empty = record {
  host_reference_list = [];
  res_host_reference_list = [];
  sql_list = [];
  hostlineno = 12;
  hostreference_count = 0;
  db_name = [];
  prep_name = [];
  cursor_name = [];
  command_name = [];
  sql_name = [];
  period = false;
  conn_use_other_db = false;
  command_putother = false;
  exec_list = [];
}

abbrev two_hosts : Parsing
two_hosts =
    (cb_host_list_add (codes "EMP-NAME")
      (cb_host_list_add (codes "EMP-NO") (begin_statement empty)).0).0

two_hosts-Reachable : Reachable true two_hosts
two_hosts-Reachable =
    goes_on
      (goes_on (begins (at_start empty refl)) (adds_host (codes "EMP-NO") (begin_statement empty)))
      (adds_host (codes "EMP-NAME") (cb_host_list_add (codes "EMP-NO") (begin_statement empty)).0)

Reachable-IsComplete_example : All IsComplete (put_exec_list two_hosts).exec_list
Reachable-IsComplete_example = Reachable-IsComplete (puts two_hosts-Reachable)

second_placeholder :
    (cb_host_list_add
      (codes "EMP-NAME")
      (cb_host_list_add (codes "EMP-NO") (begin_statement empty)).0).1
    ≡ codes "$2"
unfolding cb_host_list_add begin_statement
second_placeholder = refl
