-- ===== src/Precompiler/Calls/Closed/Statements.antt =====
-- Each function of ocesql/ppout.c that writes a statement writes whole calls.
use cobol.Prelude.{Bytes, List, Option, [], false, none, pos, refl, some, true, ◌++◌, ◌==◌, ◌∷◌}
use Prim.Native.String.{String}
use cobol.Precompiler.Fields.{getfieldbyname, err_notdef_working}
use cobol.Precompiler.Calls.{
  Arg, by_reference, by_text, call, call_using, arg, sqlca, int, HostReference, ResHostReference,
  ExecList, Source, Out, emit, then_, with_type, ppoutputendcall, with_dbname,
}
use cobol.Precompiler.Calls.Params.{is_group, output_params, ppoutputresgroup}
use cobol.Precompiler.Calls.Statements.{
  start_lines, entry, end_lines, ppoutputopen, connect_args, ppoutputconnect, ppoutputexecprepare,
  group_table, is_zero, Table, no_table, table_lines, fetch_lines, fetch_into, ppoutputfetch,
  output_transaction, ppoutputdisconnect,
}
use cobol.Precompiler.Calls.Reader.{between, in_call, read_from, AreCalls}
use cobol.Precompiler.Calls.Closed.{
  IsClosed, Continues, on_option, on_list, on_if, then-IsClosed, with_type-IsClosed,
  with_dbname-Continues, end_AreCalls, ppoutputendcall-Continues, bare-IsClosed, using-IsClosed,
  arg-Continues, append-AreCalls,
}
use cobol.Precompiler.Calls.Closed.Params.{
  fail-IsClosed, output_params-IsClosed, ppoutputresgroup-IsClosed, output_res_params-IsClosed,
}

pub end_lines-Continues : (list : ExecList) → Continues (end_lines list)
unfolding end_lines ppoutputendcall read_from emit
end_lines-Continues list e a taken h =
    end_AreCalls e true (a ∷ taken) false (call "OCESQLEndSQL" ∷ (ppoutputendcall list).lines) refl
      (end_AreCalls "OCESQLEndSQL" false [] list.period [] refl ([], refl))

pub start_lines-IsClosed : (o : Out) → IsClosed between o → IsClosed between (emit start_lines o)
start_lines-IsClosed o c = bare-IsClosed "OCESQLStartSQL" false o c

pub ppoutputopen-IsClosed :
    (src : Source) (list : ExecList) → IsClosed between (ppoutputopen src list)
unfolding ppoutputopen emit
ppoutputopen-IsClosed src list =
    on_if (IsClosed between) (list.hostreference_count == 0)
      (using-IsClosed "OCESQLCursorOpen" sqlca _
        (arg-Continues (by_text list.cursor_name) _ (ppoutputendcall-Continues list)))
      (start_lines-IsClosed _ (
        then-IsClosed between (output_params src.fields list.host_list (pos 0)).0 _
          (output_params-IsClosed src.fields list.host_list (pos 0))
          (using-IsClosed "OCESQLCursorOpenParams" sqlca _ (
            arg-Continues (by_text list.cursor_name) _
              (arg-Continues (int list.hostreference_count) _ (end_lines-Continues list))))))

connect_args-Continues :
    (src : Source) (hs : List HostReference) (rest : Out)
    → Continues rest
    → Continues (connect_args src hs rest)
unfolding connect_args
connect_args-Continues src [] rest c e a taken = c e a taken
connect_args-Continues src (h ∷ hs) rest c e a taken =
    with_type-IsClosed (in_call e true (a ∷ taken)) src h.hostreference h.lineno _ (λ t.
      arg-Continues (by_reference h.hostreference) (emit (arg (int t.digits) ∷ []) _)
        (arg-Continues (int t.digits) _ (connect_args-Continues src hs rest c)) e a taken)

-- A call of one of two entry points.
entry-IsClosed :
    (list : ExecList) (plain with_id : String) (a : Arg) (o : Out)
    → Continues o
    → IsClosed between (emit (entry list plain with_id ∷ arg a ∷ []) o)
entry-IsClosed list plain with_id a o c = using-IsClosed _ a o c

pub ppoutputconnect-IsClosed :
    (src : Source) (list : ExecList) → IsClosed between (ppoutputconnect src list)
unfolding ppoutputconnect
ppoutputconnect-IsClosed src list = using-IsClosed _ sqlca _ (
    with_dbname-Continues src list _
      (connect_args-Continues src list.host_list _ (ppoutputendcall-Continues list)))

pub ppoutputexecprepare-IsClosed :
    (src : Source) (list : ExecList) → IsClosed between (ppoutputexecprepare src list)
unfolding ppoutputexecprepare
ppoutputexecprepare-IsClosed src list = start_lines-IsClosed _ (first list.host_list)
  where
    execute : Out
    execute = then_ (output_params src.fields list.host_list (pos 0)).0 (
        emit (entry list "OCESQLExecPrepare" "OCESQLIDExecPrepare" ∷ arg sqlca ∷ []) (
          with_dbname src list (
            emit
              (arg (by_text list.prepare_name)
                ∷ arg (int (output_params src.fields list.host_list (pos 0)).1)
                ∷ [])
              (end_lines list))))

    closed : IsClosed between execute
    closed =
        then-IsClosed between (output_params src.fields list.host_list (pos 0)).0 _
          (output_params-IsClosed src.fields list.host_list (pos 0))
          (using-IsClosed _ sqlca _ (
            with_dbname-Continues src list _ (
              arg-Continues (by_text list.prepare_name) (emit (arg _ ∷ []) _)
                (arg-Continues _ _ (end_lines-Continues list)))))

    first :
        (hs : List HostReference)
        → IsClosed between (elim hs [
          | [] ↦ execute
          | h ∷ rest ↦ with_type src h.hostreference h.lineno (λ t. execute)
        ])
    first [] = closed
    first (h ∷ hs) = with_type-IsClosed between src h.hostreference h.lineno _ (λ t. closed)

table_lines-AreCalls : (table : Table) → AreCalls between (table_lines table)
unfolding read_from
table_lines-AreCalls table = (_, refl)

-- A request behind what is said of its table.
pub in_table-IsClosed :
    (table : Table) (e : String) (a : Arg) (o : Out)
    → Continues o
    → IsClosed between (emit (table_lines table ++ (call_using e ∷ arg a ∷ [])) o)
unfolding emit
in_table-IsClosed table e a o c h =
    append-AreCalls between (table_lines table) (call_using e ∷ arg a ∷ o.lines)
      (table_lines-AreCalls table) (using-IsClosed e a o c h)

fetch_lines-IsClosed : (list : ExecList) (table : Table) → IsClosed between (fetch_lines list table)
unfolding fetch_lines
fetch_lines-IsClosed list table =
    let rest : Out = emit (arg (by_text list.cursor_name) ∷ []) (end_lines list) in
    let c : Continues rest =
      arg-Continues (by_text list.cursor_name) _ (end_lines-Continues list) in
    on_if (λ ls. IsClosed between (emit ls rest)) (is_zero table.0)
      (using-IsClosed "OCESQLCursorFetchOne" sqlca rest c)
      (in_table-IsClosed table "OCESQLCursorFetchOccurs" sqlca rest c)

-- What may follow a null pointer writes whole calls where it does not.
abbrev pub Holds : (Out → Type 0) → Option Out → Type 0
Holds P none = Unit
Holds P (some o) = P o

fetch_into-IsClosed :
    (src : Source) (list : ExecList) (h : ResHostReference)
    → IsClosed between (fetch_into src list h)
unfolding fetch_into
fetch_into-IsClosed src list h = start_lines-IsClosed _ (
    with_type-IsClosed between src h.hostreference h.lineno _ (λ t.
      on_if (IsClosed between) (is_group t)
        (on_option (IsClosed between) (getfieldbyname src.fields h.hostreference)
          (fail-IsClosed h.hostreference h.lineno err_notdef_working)
          (λ p.
            let table = group_table p.found p.children in
            then-IsClosed between (ppoutputresgroup src.fields p.children h.lineno table.0)
              (fetch_lines list table)
              (ppoutputresgroup-IsClosed src.fields p.children h.lineno table.0)
              (fetch_lines-IsClosed list table)))
        (output_res_params-IsClosed src list.res_host_list (fetch_lines list no_table)
          (fetch_lines-IsClosed list no_table))))

pub ppoutputfetch-Holds :
    (src : Source) (list : ExecList) → Holds (IsClosed between) (ppoutputfetch src list)
unfolding ppoutputfetch
ppoutputfetch-Holds src list =
    on_list (Holds (IsClosed between)) list.res_host_list tt (fetch_into-IsClosed src list)

pub output_transaction-IsClosed :
    (statement : Bytes) (src : Source) (list : ExecList)
    → IsClosed between (output_transaction statement src list)
unfolding output_transaction
output_transaction-IsClosed statement src list = start_lines-IsClosed _ (
    using-IsClosed _ sqlca _ (
      with_dbname-Continues src list _
        (arg-Continues (by_text statement) _ (end_lines-Continues list))))

pub ppoutputdisconnect-IsClosed :
    (src : Source) (list : ExecList) → IsClosed between (ppoutputdisconnect src list)
unfolding ppoutputdisconnect
ppoutputdisconnect-IsClosed src list =
    using-IsClosed _ sqlca _ (with_dbname-Continues src list _ (ppoutputendcall-Continues list))
