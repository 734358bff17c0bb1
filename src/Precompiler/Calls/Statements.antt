-- ===== src/Precompiler/Calls/Statements.antt =====
-- ocesql/ppout.c: the calls of each kind of statement but SELECT and the declaration of cursors. The
-- outer `none` of a result stands where the code would follow a null pointer.
use cobol.Prelude.{
  Bool, Bytes, List, Option, [], codes, false, if◌then◌else◌, length, negsuc, none, pos, some, suc,
  true, zero, ℕ, ℤ, ◌++◌, ◌==◌, ◌∷◌,
}
use Prim.Native.String.{String}
use cobol.Precompiler.Fields.{
  FieldTree, CbField, getfieldbyname, get_host_group_length, get_host_group_table_info,
  err_notdef_working,
}
use cobol.Precompiler.Calls.{
  number, by_reference, by_text, by_value, Line, call, call_using, arg, end_call, sqlca, int,
  HostReference, ResHostReference, ExecList, Source, Out, fail, emit, then_, with_type,
  ppoutputendcall, with_dbname,
}
use cobol.Precompiler.Calls.Params.{is_group, ppoutputresparam, output_params, ppoutputresgroup}

abbrev pub start_lines : List Line
start_lines = call "OCESQLStartSQL" ∷ end_call false ∷ []

-- The entry point for the default connection, or the one that takes a name.
abbrev pub entry_name : ExecList → String → String → String
entry_name list plain with_id = if list.conn_use_other_db then with_id else plain

abbrev pub entry : ExecList → String → String → Line
entry list plain with_id = call_using (entry_name list plain with_id)

-- `OCESQLEndSQL`, and the end of the statement.
unfoldable pub end_lines : ExecList → Out
unfolding emit ppoutputendcall
end_lines list = emit (end_call false ∷ call "OCESQLEndSQL" ∷ []) (ppoutputendcall list)

-- `ppoutputopen`
unfoldable pub ppoutputopen : Source → ExecList → Out
unfolding output_params then_ emit end_lines ppoutputendcall
ppoutputopen src list =
    if list.hostreference_count == 0
    then emit (call_using "OCESQLCursorOpen" ∷ arg sqlca ∷ arg (by_text list.cursor_name) ∷ [])
        (ppoutputendcall list)
    else emit start_lines (
        then_ (output_params src.fields list.host_list (pos 0)).0 (
          emit
            (call_using "OCESQLCursorOpenParams"
              ∷ arg sqlca
              ∷ arg (by_text list.cursor_name)
              ∷ arg (int list.hostreference_count)
              ∷ [])
            (end_lines list)))

-- The arguments of a connection: each host variable, and its size.
unfoldable pub connect_args : Source → List HostReference → Out → Out
unfolding with_type emit
connect_args src [] rest = rest
connect_args src (h ∷ hs) rest =
    let more = connect_args src hs rest in
    with_type src h.hostreference h.lineno
      (λ t. emit (arg (by_reference h.hostreference) ∷ arg (int t.digits) ∷ []) more)

-- The entry point for no host variable, for one, and for more.
abbrev pub by_count : List HostReference → String → String → String → String
by_count [] short informal full = short
by_count (h ∷ []) short informal full = informal
by_count (h ∷ i ∷ hs) short informal full = full

abbrev pub connect_entry : ExecList → Line
connect_entry list =
    entry list
      (by_count list.host_list "OCESQLConnectShort" "OCESQLConnectInformal" "OCESQLConnect")
      (by_count list.host_list "OCESQLIDConnectShort" "OCESQLIDConnectInformal" "OCESQLIDConnect")

-- `ppoutputconnect`
unfoldable pub ppoutputconnect : Source → ExecList → Out
unfolding emit with_dbname connect_args ppoutputendcall
ppoutputconnect src list =
    emit (connect_entry list ∷ arg sqlca ∷ [])
      (with_dbname src list (connect_args src list.host_list (ppoutputendcall list)))

-- `ppoutputexecprepare`
unfoldable pub ppoutputexecprepare : Source → ExecList → Out
unfolding emit then_ with_type with_dbname output_params end_lines
ppoutputexecprepare src list =
    let (params, count) = output_params src.fields list.host_list (pos 0) in
    let execute = then_ params (
      emit (entry list "OCESQLExecPrepare" "OCESQLIDExecPrepare" ∷ arg sqlca ∷ []) (
        with_dbname src list
          (emit (arg (by_text list.prepare_name) ∷ arg (int count) ∷ []) (end_lines list)))) in
    emit start_lines (elim list.host_list [
      | [] ↦ execute
      | h ∷ hs ↦ with_type src h.hostreference h.lineno (λ t. execute)
    ])

-- What is said of a table: how often its elements stand, their length, and whether the group is
-- the table (`iteration`, `length`, `occurs_is_parent`).
abbrev pub Table : Type 0
Table = ℤ × (ℕ × Bool)

abbrev pub no_table : Table
no_table = (pos 0, (0, false))

unfoldable pub group_table : CbField → FieldTree → Table
unfolding get_host_group_length get_host_group_table_info
group_table parent child =
    let (iteration, length) = get_host_group_table_info child (negsuc 0) 0 in
    if parent.occurs == 0
    then (iteration, (length, false))
    else (pos parent.occurs, (get_host_group_length child 0, true))

abbrev pub is_zero : ℤ → Bool
is_zero (pos zero) = true
is_zero (pos (suc n)) = false
is_zero (negsuc n) = false

abbrev pub table_lines : Table → List Line
table_lines (iteration, (length, is_parent)) =
    call_using "OCESQLSetHostTable"
    ∷ arg (by_value (number iteration))
    ∷ arg (int length)
    ∷ arg (int (if is_parent then 1 else 0))
    ∷ end_call false
    ∷ []

-- The fields that follow INTO, one after the other.
unfoldable pub output_res_params : Source → List ResHostReference → Out → Out
unfolding with_type then_ ppoutputresparam
output_res_params src [] rest = rest
output_res_params src (h ∷ hs) rest =
    let more = output_res_params src hs rest in
    with_type src h.hostreference h.lineno
      (λ t. then_ (ppoutputresparam h.hostreference t (pos 0)) more)

-- The request for a row, or for the rows of a table.
unfoldable pub fetch_lines : ExecList → Table → Out
unfolding emit end_lines
fetch_lines list table =
    emit
      (if is_zero table.0
        then call_using "OCESQLCursorFetchOne" ∷ arg sqlca ∷ []
        else table_lines table ++ (call_using "OCESQLCursorFetchOccurs" ∷ arg sqlca ∷ []))
      (emit (arg (by_text list.cursor_name) ∷ []) (end_lines list))

-- The fetch into `h` and what follows it.
unfoldable pub fetch_into : Source → ExecList → ResHostReference → Out
unfolding emit then_ with_type is_group group_table ppoutputresgroup output_res_params fetch_lines
fetch_into src list h = emit start_lines (
    with_type src h.hostreference h.lineno (λ t.
      if is_group t
      then elim (getfieldbyname src.fields h.hostreference) [
        | none ↦ fail h.hostreference h.lineno err_notdef_working
        | some p ↦
            let table = group_table p.found p.children in
            then_ (ppoutputresgroup src.fields p.children h.lineno table.0) (fetch_lines list table)
      ]
      else output_res_params src list.res_host_list (fetch_lines list no_table)))

-- `ppoutputfetch`
unfoldable pub ppoutputfetch : Source → ExecList → Option Out
unfolding fetch_into
ppoutputfetch src list = elim list.res_host_list [
  | [] ↦ none
  | h ∷ hs ↦ some (fetch_into src list h)
]

-- `ppoutputcommit` and `ppoutputrollback`, which differ in the statement.
unfoldable pub output_transaction : Bytes → Source → ExecList → Out
unfolding emit with_dbname end_lines
output_transaction statement src list =
    emit (start_lines ++ (entry list "OCESQLExec" "OCESQLIDExec" ∷ arg sqlca ∷ []))
      (with_dbname src list (emit (arg (by_text statement) ∷ []) (end_lines list)))

unfoldable pub ppoutputcommit : Source → ExecList → Out
unfolding output_transaction
ppoutputcommit = output_transaction (codes "COMMIT")

unfoldable pub ppoutputrollback : Source → ExecList → Out
unfolding output_transaction
ppoutputrollback = output_transaction (codes "ROLLBACK")

-- `ppoutputdisconnect`
unfoldable pub ppoutputdisconnect : Source → ExecList → Out
unfolding emit with_dbname ppoutputendcall
ppoutputdisconnect src list =
    emit (entry list "OCESQLDisconnect" "OCESQLIDDisconnect" ∷ arg sqlca ∷ [])
      (with_dbname src list (ppoutputendcall list))
