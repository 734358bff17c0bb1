-- ===== src/Precompiler/Calls/Context.antt =====
-- ocesql/ppout.c: PREPARE, the statements with parameters, and the choice of the function for a
-- statement.
use cobol.Prelude.{
  Bool, Bytes, List, Option, [], codes, if◌then◌else◌, leb, ltb_ℤ, map, none, pos, some, str_eq, ℕ,
  ◌&&◌, ◌++◌, ◌-◌, ◌==◌, ◌>>=◌, ◌||◌, ◌∷◌,
}
use cobol.Precompiler.Fields.{
  no_field, field, Found, looked, error, getfieldbyname, gethostvarianttype, err_notdef_working,
}
use cobol.Precompiler.Calls.{
  content, by_reference, by_text, by_value, Line, call_using, arg, sqlca, int, HostReference,
  ExecList, Source, Out, fail, emit, then_, ppoutputendcall, with_dbname,
}
use cobol.Precompiler.Calls.Params.{is_group, output_params}
use cobol.Precompiler.Calls.Statements.{
  start_lines, entry, end_lines, Table, no_table, table_lines, group_table, ppoutputopen,
  ppoutputconnect, ppoutputexecprepare, ppoutputfetch, ppoutputcommit, ppoutputrollback,
  ppoutputdisconnect,
}

abbrev pub err_prepare_isnt_group : ℕ
err_prepare_isnt_group = 13

abbrev pub err_prepare_invalid_param : ℕ
err_prepare_invalid_param = 14

-- The text to prepare: a group of its length and its bytes, with the names that belong to it.
unfoldable pub prepare_text : HostReference → ExecList → Found → Option Out
unfolding emit ppoutputendcall
prepare_text h list parent =
    let invalid = fail h.hostreference h.lineno err_prepare_invalid_param in
    elim parent.children [
      | no_field ↦ none
      | field len below sister ↦ elim sister [
        | no_field ↦ some invalid
        | field arr below next ↦ some (
            if str_eq (parent.found.sname ++ codes "-LEN") len.sname
              && str_eq (parent.found.sname ++ codes "-ARR") arr.sname
            then emit (arg (by_reference arr.sname) ∷ arg (by_value (content len.sname)) ∷ [])
                (ppoutputendcall list)
            else invalid)
      ]
    ]

unfoldable pub prepare_variable : Source → HostReference → ExecList → Option Out
unfolding is_group prepare_text
prepare_variable src h list = elim (gethostvarianttype src.fields h.hostreference) [
  | error e ↦ some (fail h.hostreference h.lineno e)
  | looked t ↦
      if is_group t
      then elim (getfieldbyname src.fields h.hostreference) [
        | none ↦ some (fail h.hostreference h.lineno err_notdef_working)
        | some parent ↦ prepare_text h list parent
      ]
      else some (fail h.hostreference h.lineno err_prepare_isnt_group)
]

-- `ppoutputprepare`
unfoldable pub ppoutputprepare : Source → ExecList → Option Out
unfolding emit prepare_variable
ppoutputprepare src list = elim list.host_list [
  | [] ↦ none
  | h ∷ hs ↦ prepare_variable src h list >>= λ rest.
      some
        (emit (call_using "OCESQLPrepare" ∷ arg sqlca ∷ arg (by_text list.prepare_name) ∷ []) rest)
]

abbrev pub to_upper : ℕ → ℕ
to_upper c = if leb b'a' c && leb c b'z' then c - 32 else c

-- `com_stricmp(s, t) == 0`
unfoldable pub stricmp_eq : Bytes → Bytes → Bool
stricmp_eq s t = str_eq (map to_upper s) (map to_upper t)

unfoldable pub changes_rows : Bytes → Bool
unfolding stricmp_eq
changes_rows command =
    stricmp_eq command (codes "INSERT")
    || stricmp_eq command (codes "DELETE")
    || stricmp_eq command (codes "UPDATE")

-- The table that the first host variable belongs to; `none` without a host variable.
unfoldable pub occurs_check : Source → ExecList → Option Table
unfolding changes_rows group_table
occurs_check src list =
    if changes_rows list.command_name
    then elim list.host_list [
      | [] ↦ none
      | h ∷ hs ↦ some (elim (getfieldbyname src.fields h.hostreference) [
        | none ↦ no_table
        | some f ↦ elim f.parent [ none ↦ no_table | some p ↦ group_table p.0 p.1 ]
      ])
    ]
    else some no_table

abbrev pub exec_entry : ExecList → Table → List Line
exec_entry list table =
    if ltb_ℤ (pos 0) table.0
    then table_lines table
      ++ (entry list "OCESQLExecParamsOccurs" "OCESQLIDExecParamsOccurs" ∷ arg sqlca ∷ [])
    else entry list "OCESQLExecParams" "OCESQLIDExecParams" ∷ arg sqlca ∷ []

unfoldable pub output_exec_params : Source → ExecList → Table → Out
unfolding emit then_ output_params with_dbname end_lines
output_exec_params src list table =
    let (params, count) = output_params src.fields list.host_list table.0 in
    emit start_lines (
      then_ params (
        emit (exec_entry list table) (
          with_dbname src list
            (emit (arg (by_reference list.sql_name) ∷ arg (int count) ∷ []) (end_lines list)))))

-- `ppoutputother`
unfoldable pub ppoutputother : Source → ExecList → Option Out
unfolding emit with_dbname ppoutputendcall occurs_check output_exec_params
ppoutputother src list =
    if list.hostreference_count == 0
    then some (
        emit (entry list "OCESQLExec" "OCESQLIDExec" ∷ arg sqlca ∷ []) (
          with_dbname src list
            (emit (arg (by_reference list.sql_name) ∷ []) (ppoutputendcall list))))
    else (occurs_check src list >>= λ table. some (output_exec_params src list table))

-- Whether `ppoutcontext` writes the statement, and what.
pub data Answer : Type 0 where
  not_here : Answer
  here : Option Out → Answer

-- The cases of `ppoutcontext`.
pub data Command : Type 0 where
  connect : Command
  open_cursor : Command
  execute : Command
  fetch : Command
  commit : Command
  commit_release : Command
  rollback : Command
  rollback_release : Command
  changes : Command
  prepare : Command
  disconnect : Command
  put_other : Command
  elsewhere : Command

-- The comparisons with the name of the command, in their order.
unfoldable pub command_of : ExecList → Command
command_of list =
    let is = str_eq list.command_name in
    if is (codes "CONNECT")
    then connect
    else if is (codes "OPEN")
    then open_cursor
    else if is (codes "EXECUTE")
    then execute
    else if is (codes "FETCH")
    then fetch
    else if is (codes "COMMIT")
    then commit
    else if is (codes "COMMIT_RELEASE")
    then commit_release
    else if is (codes "ROLLBACK")
    then rollback
    else if is (codes "ROLLBACK_RELEASE")
    then rollback_release
    else if is (codes "INSERT") || is (codes "UPDATE") || is (codes "DELETE")
    then changes
    else if is (codes "PREPARE")
    then prepare
    else if is (codes "DISCONNECT")
    then disconnect
    else if list.command_putother
    then put_other
    else elsewhere

unfoldable pub output_command : Source → ExecList → Command → Answer
unfolding then_ ppoutputconnect ppoutputopen ppoutputexecprepare ppoutputfetch ppoutputcommit
    ppoutputrollback ppoutputdisconnect ppoutputother ppoutputprepare
output_command src list connect = here (some (ppoutputconnect src list))
output_command src list open_cursor = here (some (ppoutputopen src list))
output_command src list execute = here (some (ppoutputexecprepare src list))
output_command src list fetch = here (ppoutputfetch src list)
output_command src list commit = here (some (ppoutputcommit src list))
output_command src list commit_release =
    here (some (then_ (ppoutputcommit src list) (ppoutputdisconnect src list)))
output_command src list rollback = here (some (ppoutputrollback src list))
output_command src list rollback_release =
    here (some (then_ (ppoutputrollback src list) (ppoutputdisconnect src list)))
output_command src list changes = here (ppoutputother src list)
output_command src list prepare = here (ppoutputprepare src list)
output_command src list disconnect = here (some (ppoutputdisconnect src list))
output_command src list put_other = here (ppoutputother src list)
output_command src list elsewhere = not_here

-- `ppoutcontext`
unfoldable pub ppoutcontext : Source → ExecList → Answer
unfolding command_of output_command
ppoutcontext src list = output_command src list (command_of list)
