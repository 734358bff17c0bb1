-- ===== src/Precompiler/Calls/Select.antt =====
-- ocesql/ppout.c: what `ppbuff` writes itself: SELECT, the declaration of cursors, CLOSE, and
-- the items of WORKING-STORAGE, whose lines are from Precompiler/Filler.antt and, for a VARYING
-- field, from Precompiler/Calls/Varying.antt.
use cobol.Prelude.{
  map, ◌>>=◌, Bool, Bytes, List, Option, [], codes, false, if◌then◌else◌, none, pos, some, str_eq,
  suc, true, ℕ, ℤ, ◌++◌, ◌==◌, ◌||◌, ◌∷◌,
}
use Prim.Native.String.{String}
use cobol.Precompiler.Fields.{FieldTree, no_field, field, getfieldbyname, err_notdef_working}
use cobol.Precompiler.Filler.{outsqlfiller}
use cobol.Precompiler.Calls.Varying.{varying_lines}
use cobol.Precompiler.Calls.{
  by_reference, by_text, Line, call_using, arg, end_call, full_stop, copy_sqlca, item, sqlca, int,
  ResHostReference, ExecList, Source, Out, fail, emit, then_, written, with_type, ppoutputendcall,
  with_dbname,
}
use cobol.Precompiler.Calls.Params.{is_group, output_params, ppoutputresparam}
use cobol.Precompiler.Calls.Statements.{
  start_lines, entry, end_lines, Table, no_table, table_lines, group_table, is_zero,
}
use cobol.Precompiler.Calls.Context.{not_here, here, ppoutcontext}

abbrev pub is_named : Bytes → Bool
is_named [] = false
is_named (c ∷ s) = true

-- Of four names, the one for a statement with or without a cursor and host variables.
abbrev pub select_name : ExecList → String → String → String → String → String
select_name list declare declare_params exec exec_params =
    if list.hostreference_count == 0
    then if is_named list.cursor_name then declare else exec
    else if is_named list.cursor_name
    then declare_params
    else exec_params

abbrev pub select_entry : ExecList → Line
select_entry list =
    entry list
      (select_name list "OCESQLCursorDeclare" "OCESQLCursorDeclareParams" "OCESQLExec"
        "OCESQLExecParams")
      (select_name list "OCESQLIDCursorDeclare" "OCESQLIDCursorDeclareParams" "OCESQLIDExec"
        "OCESQLIDExecParams")

-- The cursor, if there is one, and the text of the statement.
unfoldable pub select_args : ExecList → Out → Out
unfolding emit
select_args list rest =
    emit (if is_named list.cursor_name then arg (by_text list.cursor_name) ∷ [] else [])
      (emit (arg (by_reference list.sql_name) ∷ []) rest)

-- SELECT without INTO.
unfoldable pub output_select : Source → ExecList → Out
unfolding emit then_ output_params with_dbname select_args end_lines ppoutputendcall
output_select src list =
    let (params, count) = output_params src.fields list.host_list (pos 0) in
    if list.hostreference_count == 0
    then emit (select_entry list ∷ arg sqlca ∷ [])
        (with_dbname src list (select_args list (ppoutputendcall list)))
    else emit start_lines (
        then_ params (
          emit (select_entry list ∷ arg sqlca ∷ []) (
            with_dbname src list
              (select_args list (emit (arg (int count) ∷ []) (end_lines list))))))

-- The request, and what is said of its table.
abbrev pub into_entry : ExecList → Table → List Line
into_entry list table =
    if is_zero table.0
    then entry list "OCESQLExecSelectIntoOne" "OCESQLIDExecSelectIntoOne" ∷ arg sqlca ∷ []
    else table_lines table
      ++ (entry list "OCESQLExecSelectIntoOccurs" "OCESQLIDExecSelectIntoOccurs" ∷ arg sqlca ∷ [])

-- The end of SELECT INTO, with the number of its fields.
unfoldable pub into_lines : Source → ExecList → Table → ℕ → Out
unfolding emit then_ output_params with_dbname end_lines
into_lines src list table res_count =
    let (params, count) = output_params src.fields list.host_list table.0 in
    then_ params (
      emit (into_entry list table) (
        with_dbname src list (
          emit (arg (by_reference list.sql_name) ∷ arg (int count) ∷ arg (int res_count) ∷ [])
            (end_lines list))))

-- The children of the group that follows INTO; the last argument takes their number.
unfoldable pub into_group : Source → FieldTree → ℕ → ℤ → ℕ → (ℕ → Out) → Out
unfolding with_type then_ ppoutputresparam
into_group src no_field line iteration n k = k n
into_group src (field f children sister) line iteration n k = with_type src f.sname line (λ t.
    then_ (ppoutputresparam f.sname t iteration) (into_group src sister line iteration (suc n) k))

-- The fields that follow INTO.
unfoldable pub into_fields : Source → List ResHostReference → ℕ → (ℕ → Out) → Out
unfolding with_type then_ ppoutputresparam
into_fields src [] n k = k n
into_fields src (h ∷ hs) n k =
    with_type src h.hostreference h.lineno
      (λ t. then_ (ppoutputresparam h.hostreference t (pos 0)) (into_fields src hs (suc n) k))

-- SELECT INTO, whose first field is `h`.
unfoldable pub output_select_into : Source → ExecList → ResHostReference → Out
unfolding emit with_type is_group group_table into_group into_fields into_lines
output_select_into src list h = emit start_lines (
    with_type src h.hostreference h.lineno (λ t.
      if is_group t
      then elim (getfieldbyname src.fields h.hostreference) [
        | none ↦ fail h.hostreference h.lineno err_notdef_working
        | some p ↦
            let table = group_table p.found p.children in
            into_group src p.children h.lineno table.0 0 (into_lines src list table)
      ]
      else into_fields src list.res_host_list 0 (into_lines src list no_table)))

-- The declaration of a cursor for a prepared statement, and what follows it.
unfoldable pub output_prepared_declare : Source → ExecList → Out → Out
unfolding emit then_ with_dbname ppoutputendcall
output_prepared_declare src list rest =
    emit (entry list "OCESQLPreparedCursorDeclare" "OCESQLIDPreparedCursorDeclare" ∷ arg sqlca ∷ [])
      (with_dbname src list (
        emit (arg (by_text list.cursor_name) ∷ arg (by_text list.prepare_name) ∷ [])
          (then_ (ppoutputendcall list) rest)))

-- CLOSE; the full stop has a line of its own, which stays empty without it.
unfoldable pub output_close : ExecList → Out
output_close list = written (
    call_using "OCESQLCursorClose"
    ∷ arg sqlca
    ∷ arg (by_text list.cursor_name)
    ∷ end_call false
    ∷ full_stop list.period
    ∷ [])

-- The items of WORKING-STORAGE: those of all statements from this one on at its end, and those of
-- a field with a VARYING clause.
unfoldable pub output_items : Source → ExecList → Option Out
unfolding outsqlfiller varying_lines
output_items src list =
    let is = str_eq list.command_name in
    if is (codes "WORKING_END")
    then (outsqlfiller src.statements >>= λ ls. some (written (map item ls)))
    else if is (codes "VARYING_PARAM")
    then (src.varname >>= λ f. some (written (map item (varying_lines src.inbuff f))))
    else some (written [])

-- SELECT, the declaration of cursors, and CLOSE.
unfoldable pub output_calls : Source → ExecList → Out
unfolding output_select output_select_into output_prepared_declare output_close
output_calls src list =
    let is = str_eq list.command_name in
    let closed = if is (codes "CLOSE") then output_close list else written [] in
    if is (codes "SELECT")
    then elim list.res_host_list [
      | [] ↦ output_select src list
      | h ∷ hs ↦ output_select_into src list h
    ]
    else if is_named list.prepare_name
    then output_prepared_declare src list closed
    else closed

-- What `ppbuff` writes for the statements that `ppoutcontext` leaves. `none` is a text of a
-- statement whose end is not found, or a null pointer for the field.
unfoldable pub output_rest : Source → ExecList → Option Out
unfolding then_ output_items output_calls
output_rest src list =
    let is = str_eq list.command_name in
    let included = written (if is (codes "INCLUDE") then copy_sqlca ∷ [] else []) in
    if is (codes "INCFILE")
      || is (codes "HOST_BEGIN")
      || is (codes "HOST_END")
      || is (codes "WORKING_BEGIN")
    then some (written [])
    else (output_items src list >>= λ items.
        some (then_ included (then_ items (output_calls src list))))

-- `ppbuff`
unfoldable pub ppbuff : Source → ExecList → Option Out
unfolding ppoutcontext output_rest
ppbuff src list = elim (ppoutcontext src list) [ here o ↦ o | not_here ↦ output_rest src list ]
