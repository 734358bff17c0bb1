-- ===== src/Precompiler/Calls/Announced.antt =====
-- The statements with host variables of ocesql/ppout.c announce the number that they hand over.
use cobol.Prelude.{
  ℤ, Bool, List, [], append_assoc, false, if◌then◌else◌, length, ltb_ℤ, pos, refl, some, true, ℕ,
  ◌++◌, ◌∷◌, ◌≡◌,
}
use Prim.Native.String.{String}
use cobol.Precompiler.Fields.{FieldTree, gethostvarianttype}
use cobol.Precompiler.Calls.{
  Arg, by_reference, by_text, by_value, number, HostReference, Line, call_using, arg, sqlca, int,
  ExecList, Source, Out, emit, then_, with_type, ppoutputendcall, with_dbname,
}
use cobol.Precompiler.Calls.Params.{output_params}
use cobol.Precompiler.Calls.Statements.{
  start_lines, entry_name, end_lines, Table, table_lines, ppoutputexecprepare,
}
use cobol.Precompiler.Calls.Context.{output_exec_params}
use cobol.Precompiler.Calls.Reader.{Call, between, read_from, read_calls}
use cobol.Precompiler.Calls.Closed.{on_looked, on_list, append_nil_left, append_nil_right}
use cobol.Precompiler.Calls.Counts.{
  HandsOver, all_names, Counted, read_from-append, with_dbname-named, output_params-Counted,
}

abbrev pub start_call : Call
start_call = record { entry = "OCESQLStartSQL"; args = []; ends = false }

abbrev pub end_sql_call : Bool → Call
end_sql_call b = record { entry = "OCESQLEndSQL"; args = []; ends = b }

-- The call of `e`, which takes the name of the connection, one more argument, and a number.
abbrev pub announcing : String → List Arg → Arg → ℕ → Call
announcing e named x n = record {
  entry = e;
  args = ((sqlca ∷ named) ++ (x ∷ [])) ++ (int n ∷ []);
  ends = false;
}

-- The lines are a start, a call for each of the host variables `hosts`, where a group counts as its
-- fields, for `i` elements, the calls `before`, a call of `e` that announces the number of these
-- calls, and the end.
abbrev pub Announces :
    FieldTree → ℤ → List HostReference → List Call → String → Arg → Bool → List Line → Type 0
Announces fs i hosts before e x ends ls =
    (cs : List Call) × ((named : List Arg) × (HandsOver fs i (all_names fs hosts) cs
        × (read_calls ls
            ≡ some (
                start_call
                ∷ (cs
                    ++ (before ++ (announcing e named x (length cs) ∷ end_sql_call ends ∷ [])))))))

-- A request behind the host variables and the lines `pre`.
abbrev request : Source → ExecList → Out × ℕ → List Line → String → Arg → Out
request src list (params, count) pre e x = then_ params (
    emit (pre ++ (call_using e ∷ arg sqlca ∷ []))
      (with_dbname src list (emit (arg x ∷ arg (int count) ∷ []) (end_lines list))))

request-Announces :
    (src : Source) (list : ExecList) (fs : FieldTree) (i : ℤ) (hosts : List HostReference)
    (o : Out × ℕ) (pre : List Line) (before : List Call) (e : String) (x : Arg)
    → Counted fs i (all_names fs hosts) o
    → read_from between pre ≡ some before
    → (emit start_lines (request src list o pre e x)).errors ≡ []
    → Announces fs i hosts before e x list.period
        (emit start_lines (request src list o pre e x)).lines
unfolding emit then_ read_calls read_from end_lines ppoutputendcall
request-Announces src list fs i hosts (params, count) pre before e x (cs, r, l, a) b h =
    let rest : Out = emit (arg x ∷ arg (int count) ∷ []) (end_lines list) in
    let none_left : (with_dbname src list rest).errors ≡ [] =
      append_nil_right params.errors (with_dbname src list rest).errors h in
    let (named, q) = with_dbname-named src list rest e sqlca none_left in
    let asks = call_using e ∷ arg sqlca ∷ (with_dbname src list rest).lines in
    let tail : read_from between asks
        ≡ some (announcing e named x (length cs) ∷ end_sql_call list.period ∷ []) =
      rw (q, l) refl in
    let all =
      read_from-append between params.lines (pre ++ asks) r
        (read_from-append between pre asks b tail) in
    (
      cs,
      (
        named,
        (
          a (append_nil_left params.errors (with_dbname src list rest).errors h),
          rw
              (
                append_assoc pre (call_using e ∷ arg sqlca ∷ []) (with_dbname src list rest).lines,
                all,
              )
              refl,
        ),
      ),
    )

nothing_read : read_from between [] ≡ some []
unfolding read_from
nothing_read = refl

-- EXECUTE, written without a message, hands over its host variables in order, the fields of a group
-- in its place, each with its own type, in calls between `OCESQLStartSQL` and `OCESQLEndSQL`, and
-- announces the number of these calls to `OCESQLExecPrepare`.
pub ppoutputexecprepare-Announces :
    (src : Source) (list : ExecList)
    → (ppoutputexecprepare src list).errors ≡ []
    → Announces src.fields
        (pos 0)
        list.host_list
        []
        (entry_name list "OCESQLExecPrepare" "OCESQLIDExecPrepare")
        (by_text list.prepare_name)
        list.period
        (ppoutputexecprepare src list).lines
unfolding ppoutputexecprepare with_type emit
ppoutputexecprepare-Announces src list = on_list IsRequest list.host_list asked (λ h.
    on_looked IsRequest (gethostvarianttype src.fields h.hostreference) (λ e h. cc h) (λ t. asked))
  where
    IsRequest : Out → Type 0
    IsRequest o =
        o.errors ≡ []
        → Announces src.fields (pos 0) list.host_list []
            (entry_name list "OCESQLExecPrepare" "OCESQLIDExecPrepare") (by_text list.prepare_name)
            list.period (start_lines ++ o.lines)

    asked : IsRequest (
        request src list
          (output_params src.fields list.host_list (pos 0))
          []
          (entry_name list "OCESQLExecPrepare" "OCESQLIDExecPrepare")
          (by_text list.prepare_name))
    asked =
        request-Announces src list src.fields (pos 0) list.host_list
          (output_params src.fields list.host_list (pos 0)) [] []
          (entry_name list "OCESQLExecPrepare" "OCESQLIDExecPrepare") (by_text list.prepare_name)
          (output_params-Counted src.fields (pos 0) list.host_list) nothing_read

-- The call that says of a table.
abbrev pub table_call : Table → Call
table_call (iteration, (length, is_parent)) = record {
  entry = "OCESQLSetHostTable";
  args = by_value (number iteration) ∷ int length ∷ int (if is_parent then 1 else 0) ∷ [];
  ends = false;
}

table_read : (table : Table) → read_from between (table_lines table) ≡ some (table_call table ∷ [])
unfolding read_from
table_read table = refl

-- INSERT, UPDATE and DELETE with host variables, and other statements with them, written without
-- a message, hand over their host variables in order, the fields of a group in its place, each with
-- its own type, and announce the number of these calls; for a table with a positive number of elements the
-- table is set before, and the entry point is the one for tables.
pub output_exec_params-Announces :
    (src : Source) (list : ExecList) (table : Table)
    → (output_exec_params src list table).errors ≡ []
    → Announces src.fields table.0 list.host_list
        (if ltb_ℤ (pos 0) table.0 then table_call table ∷ [] else [])
        (if ltb_ℤ (pos 0) table.0
          then entry_name list "OCESQLExecParamsOccurs" "OCESQLIDExecParamsOccurs"
          else entry_name list "OCESQLExecParams" "OCESQLIDExecParams")
        (by_reference list.sql_name)
        list.period
        (output_exec_params src list table).lines
unfolding output_exec_params
output_exec_params-Announces src list table = by_test (ltb_ℤ (pos 0) table.0)
  where
    plain : String
    plain = entry_name list "OCESQLExecParams" "OCESQLIDExecParams"

    occurs : String
    occurs = entry_name list "OCESQLExecParamsOccurs" "OCESQLIDExecParamsOccurs"

    params : Out × ℕ
    params = output_params src.fields list.host_list table.0

    by_test :
        (b : Bool)
        → let o = emit start_lines (
            then_ params.0 (
              emit
                (if b
                  then table_lines table ++ (call_using occurs ∷ arg sqlca ∷ [])
                  else call_using plain ∷ arg sqlca ∷ [])
                (with_dbname src list (
                  emit
                    (arg (by_reference list.sql_name) ∷ arg (int params.1) ∷ [])
                    (end_lines list))))) in
          o.errors ≡ []
          → Announces src.fields table.0 list.host_list
              (if b then table_call table ∷ [] else [])
              (if b then occurs else plain)
              (by_reference list.sql_name)
              list.period
              o.lines
    by_test true =
        request-Announces src list src.fields table.0 list.host_list params (table_lines table)
          (table_call table ∷ []) occurs (by_reference list.sql_name)
          (output_params-Counted src.fields table.0 list.host_list) (table_read table)
    by_test false =
        request-Announces src list src.fields table.0 list.host_list params [] [] plain
          (by_reference list.sql_name) (output_params-Counted src.fields table.0 list.host_list)
          nothing_read
